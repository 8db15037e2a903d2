-- ===== src/Accounts/Support.antt =====
-- services/api/src/auth_support.rs, and the tokens of services/api/src/store/mod.rs.
use find_verse.External.{Platform}
use find_verse.Common.Digest.{content_hash}
use find_verse.Common.Error.{
  bad_request, unauthorized, internal, Result, ok, err, ◌>>=◌, ◌>>◌, guard, ok_or,
}
use find_verse.Accounts.{Passwords}
use Prim.Native.String
use Prim.Native.Char.{code}
use find_verse.Prelude.{
  ℕ, String, Option, Bool, true, not, ◌&&◌, ◌||◌, ltb, leb, ◌==◌, str_eq, is_empty_str,
  strip_prefix, trim, if◌then◌else◌,
}

abbrev pub password_scheme_argon2id : String
password_scheme_argon2id = "argon2id"

abbrev pub user_role_admin : String
user_role_admin = "admin"

abbrev pub user_role_developer : String
user_role_developer = "developer"

-- The token of an authorization header.
unfoldable pub header_token : String → Result String
unfolding strip_prefix trim is_empty_str
header_token header = do
  rest ← ok_or (strip_prefix header "Bearer ") (unauthorized "invalid authorization scheme")
  let token = trim rest
  guard (not (is_empty_str token)) (unauthorized "empty bearer token")
  ok token

unfoldable pub bearer_token : Option String → Result String
unfolding header_token
bearer_token auth_header = do
  header ← ok_or auth_header (unauthorized "missing authorization")
  header_token header

-- A letter or digit of ASCII, `_` or `-`.
unfoldable pub is_name_char : ℕ → Bool
is_name_char c =
    (leb b'0' c && leb c b'9')
    || (leb b'a' c && leb c b'z')
    || (leb b'A' c && leb c b'Z')
    || c == b'_'
    || c == b'-'

unfoldable pub all_name_chars : String → Bool
unfolding is_name_char
all_name_chars String.[] = true
all_name_chars (String.◌∷◌ c s) = is_name_char (code c) && all_name_chars s

unfoldable pub validate_password : String → Result (Unit {0})
validate_password password =
    guard (not (ltb (String.len password) 8)) (bad_request "password must be at least 8 characters")

unfoldable pub normalize_user_role : String → Result String
unfolding trim
normalize_user_role role =
    let role = trim role in
    if str_eq role user_role_admin
    then ok user_role_admin
    else if str_eq role user_role_developer
    then ok user_role_developer
    else err (bad_request "role must be admin or developer")

-- A password under a salt that is drawn for it.
unfoldable pub hash_password : Passwords → (salt password : String) → Result String
hash_password passwords salt password =
    ok_or (passwords.hash_with salt password) (internal "argon2")

unfoldable pub verify_password : Passwords → (password password_hash : String) → Result Bool
verify_password passwords password password_hash =
    ok_or (passwords.verify password password_hash) (internal "argon2")

-- A token from 40 letters and digits that are drawn for it.
unfoldable pub generate_token : (prefix secret : String) → String
generate_token prefix secret = String.◌++◌ prefix (String.◌++◌ "_" secret)

module _ (platform : Platform) where
  open platform use {to_lowercase}

  unfoldable pub normalize_username : String → Result String
  unfolding trim all_name_chars
  normalize_username username =
      let username = to_lowercase (trim username) in
      if ltb (String.len username) 3 || not (all_name_chars username)
      then err (bad_request "username must be 3+ alphanumeric characters (_, - allowed)")
      else ok username

  unfoldable pub hash_token : String → String
  unfolding content_hash
  hash_token token = content_hash platform token

  unfoldable pub bearer_hash : String → Result String
  unfolding header_token hash_token
  bearer_hash header = do token ← header_token header; ok (hash_token token)
