-- ===== src/Accounts/Keys.antt =====
-- services/api/src/store/developer.rs: API keys, and the daily quota that each request counts against. `today` is
-- `current_date` and `now` the clock.
pub mod Quota
pub mod Revoked
use find_verse.External.{Platform}
use find_verse.Common.Error.{
  ApiError, bad_request, unauthorized, not_found, conflict, too_many_requests, internal, Result, ok,
  err, ◌>>=◌, ◌>>◌, guard, ok_or,
}
use find_verse.Accounts.{User, ApiKey, Usage, Accounts, Attempt, Answer}
use find_verse.Accounts.Limits.{
  has_api_role, is_signed, shown_limit, find_row, is_usage_of, UsageUser, used_today, usage_user,
  is_api_user, find_user_by_external_id, seed_usage, ensure_daily_usage_row, ApiKeyMetadata,
  UsageResponse, key_metadata, build_usage_response, developer_usage, list_developer_keys,
  list_all_user_usage, stored_limit, update_user_quota,
}
use find_verse.Accounts.Support.{
  user_role_admin, user_role_developer, bearer_hash, hash_token, generate_token,
}
use Prim.Native.String
use find_verse.Prelude.{
  ℕ, ◌+◌, ◌-◌, ◌%◌, ◌^◌, max, List, [], ◌∷◌, ◌++◌, map, String, Option, none, some, Bool, true,
  false, not, ◌&&◌, ◌||◌, ltb, leb, ◌==◌, str_eq, any, is_empty, is_none, select_where,
  update_where, sort_by, trim, take_chars, unwrap_or, if◌then◌else◌,
}

-- `&s[s.len() - n..]`, for a text of ASCII.
unfoldable pub last_chars : ℕ → String → String
last_chars n String.[] = String.[]
last_chars n (String.◌∷◌ c s) =
    let rest = last_chars n s in if leb (String.len s + 1) n then String.◌∷◌ c s else rest

abbrev pub is_key_of : String → String → ApiKey → Bool
is_key_of key_id user_id k = str_eq k.id key_id && str_eq k.user_id user_id

abbrev pub can_revoke : String → String → ApiKey → Bool
can_revoke key_id user_id k = is_key_of key_id user_id k && is_none k.revoked_at

unfoldable pub revoke_key : ℕ → ApiKey → ApiKey
revoke_key now k = record k { revoked_at = some now }

-- `parse_uuid` reads the id of a key, in its printed form.
unfoldable pub revoke_developer_key :
    (parse_uuid : String → Option String) (today now : ℕ) (developer_id key_id : String)
    → Accounts
    → Attempt (Unit {0})
unfolding find_user_by_external_id revoke_key
revoke_developer_key parse_uuid today now developer_id key_id a = do
  user ← find_user_by_external_id today developer_id a
  id ← ok_or (parse_uuid key_id) (not_found "api key not found")
  if any (can_revoke id user.id) a.keys
      then ok (record a { keys = update_where (can_revoke id user.id) (revoke_key now) a.keys }, tt)
      else if any (is_key_of id user.id) a.keys
      then err (conflict "api key already revoked")
      else err (not_found "api key not found")

pub record CreatedKey : Type 0 where
  pub id : String
  pub name : String
  pub preview : String
  pub token : String
  pub created_at : ℕ

-- key_owner: an enabled account with the role, and the key that names it.
abbrev pub is_live_key : String → ApiKey → Bool
is_live_key token_hash k = str_eq k.token_hash token_hash && is_none k.revoked_at

abbrev pub may_own : ApiKey → User → Bool
may_own k u = str_eq u.id k.user_id && u.enabled && has_api_role u

unfoldable pub key_owner : String → Accounts → Option User
key_owner token_hash a = elim (find_row (is_live_key token_hash) a.keys) [
  | none ↦ none
  | some k ↦ find_row (may_own k) a.users
]

-- du.used_count < ko.daily_limit, on the rows that the statement starts from.
abbrev pub can_count : ℕ → User → Usage → Bool
can_count today u row =
    is_usage_of u.id today row && not (is_signed u.daily_limit) && ltb row.used_count u.daily_limit

unfoldable pub count_request : Usage → Usage
count_request row = record row { used_count = row.used_count + 1 }

unfoldable pub touch_key : ℕ → ApiKey → ApiKey
touch_key now k = record k { last_used_at = some now }

-- The one statement that counts a request. Its parts all read the tables as they were before it, so
-- that `incremented` misses a row that `usage_seed` inserts.
unfoldable pub track_key : ℕ → ℕ → String → User → Accounts → Accounts × Bool
unfolding seed_usage count_request touch_key
track_key today now token_hash owner a =
    let counted = any (can_count today owner) a.usage in
    (
      record a {
        usage =
            seed_usage today owner.id (update_where (can_count today owner) count_request a.usage);
        keys =
            if counted
            then update_where (λ k. str_eq k.token_hash token_hash) (touch_key now) a.keys
            else a.keys;
      },
      counted,
    )

unfoldable pub track_owner : ℕ → ℕ → String → Accounts → Option User → Answer (Unit {0})
unfolding track_key
track_owner today now token_hash a none = (a, err (unauthorized "invalid api key"))
track_owner today now token_hash a (some owner) =
    let tracked = track_key today now token_hash owner a in
    (tracked.0, if tracked.1 then ok tt else err (too_many_requests "daily request quota exceeded"))

module _ (platform : Platform) where
  -- The token and the id are drawn for the key; both columns are unique.
  unfoldable pub create_developer_key :
      (today now : ℕ) (secret id developer_id name : String) → Accounts → Attempt CreatedKey
  unfolding last_chars trim take_chars generate_token hash_token find_user_by_external_id
  create_developer_key today now secret id developer_id name a = do
    let clean_name = trim name
    guard (not (ltb (String.len clean_name) 2))
        (bad_request "key name must contain at least 2 characters")
    user ← find_user_by_external_id today developer_id a
    let token = generate_token "fvk" secret
    let hash = hash_token platform token
    let preview = String.◌++◌ (take_chars 8 token) (String.◌++◌ "..." (last_chars 4 token))
    guard (not (any (λ k. str_eq k.token_hash hash || str_eq k.id id) a.keys)) (internal "unique")
    ok (
      record a {
        keys =
            a.keys
            ++ record {
              id = id;
              user_id = user.id;
              name = clean_name;
              preview = preview;
              token_hash = hash;
              created_at = now;
              last_used_at = none;
              revoked_at = none;
            }
              ∷ [];
      },
      record { id = id; name = clean_name; preview = preview; token = token; created_at = now },
    )

  unfoldable pub validate_with : ℕ → ℕ → Result String → Accounts → Answer (Unit {0})
  unfolding key_owner track_owner
  validate_with today now (err e) a = (a, err e)
  validate_with today now (ok token_hash) a =
      track_owner today now token_hash a (key_owner token_hash a)

  unfoldable pub validate_and_track_developer_key :
      ℕ → ℕ → Option String → Accounts → Answer (Unit {0})
  unfolding bearer_hash validate_with
  validate_and_track_developer_key today now none a = (a, err (unauthorized "api key required"))
  validate_and_track_developer_key today now (some header) a =
      validate_with today now (bearer_hash platform header) a
