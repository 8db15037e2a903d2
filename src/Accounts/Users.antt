-- ===== src/Accounts/Users.antt =====
-- services/api/src/dev_auth.rs: accounts and their passwords. Ids, salts and secrets are
-- drawn by the caller; `now` is the clock.

pub mod Names
pub mod Profiles
pub mod Bootstrap
use find_verse.External.{Platform}
use find_verse.Common.Error.{
  ApiError, unauthorized, not_found, conflict, internal, Result, ok, err, ◌>>=◌, ◌>>◌, guard, ok_or,
}
use find_verse.Accounts.{User, Credential, Session, ApiKey, Usage, Accounts, Passwords, Attempt}
use find_verse.Accounts.Support.{
  password_scheme_argon2id, user_role_admin, user_role_developer, bearer_token, validate_password,
  normalize_user_role, hash_password, verify_password, generate_token, normalize_username,
  hash_token,
}
use find_verse.Accounts.Sessions.{
  UserSessionResponse, UserIdentity, is_session_of, is_open_session, close_session, touch_session,
  session_user, find_session, create_session, authorize_session, authorize, authorize_admin,
  current_session, logout,
}
use find_verse.Accounts.Limits.{find_row}
use Prim.Native.String
use find_verse.Prelude.{
  ℕ, List, [], ◌∷◌, ◌++◌, String, Option, none, some, Bool, true, false, not, ◌&&◌, ◌||◌, str_eq,
  any, is_none, leb, map, select_where, update_where, delete_where, sort_by, unwrap_or,
  if◌then◌else◌,
}

pub record UserAccount : Type 0 where
  pub user_id : String
  pub username : String
  pub role : String
  pub created_at : ℕ
  pub enabled : Bool

abbrev pub names_user : String → User → Bool
names_user user_id u = str_eq u.external_id user_id

-- The columns of `users` that are unique.
abbrev pub same_user : User → User → Bool
same_user new u =
    str_eq u.id new.id || str_eq u.external_id new.external_id || str_eq u.username new.username

unfoldable pub insert_user : User → Accounts → Result Accounts
insert_user new a =
    if any (same_user new) a.users
    then err (internal "unique")
    else ok (record a { users = a.users ++ new ∷ [] })

unfoldable pub insert_credential : Credential → Accounts → Accounts
insert_credential new a = record a { credentials = a.credentials ++ new ∷ [] }

-- The default of the column `daily_limit`.
abbrev pub default_daily_limit : ℕ
default_daily_limit = 10000

abbrev pub new_user : (id username role : String) → ℕ → User
new_user id username role now = record {
  id = id;
  external_id = String.◌++◌ "usr:" id;
  username = username;
  role = role;
  enabled = true;
  daily_limit = default_daily_limit;
  created_at = now;
}

unfoldable pub list_users : Accounts → List UserAccount
unfolding sort_by
list_users a =
    map
      (λ u. record {
        user_id = u.external_id;
        username = u.username;
        role = u.role;
        created_at = u.created_at;
        enabled = u.enabled;
      })
      (sort_by (λ u v. leb u.created_at v.created_at) a.users)

-- select id from users where external_id = $1
abbrev pub id_of : String → List User → Option String
id_of user_id users = elim (find_row (names_user user_id) users) [
  | none ↦ none
  | some u ↦ some u.id
]

abbrev pub belongs_to : Option String → Session → Bool
belongs_to none s = false
belongs_to (some id) s = str_eq s.user_id id

unfoldable pub enable_user : Bool → User → User
enable_user enabled u = record u { enabled = enabled }

-- Disabling an account closes its sessions in the same transaction.
unfoldable pub set_enabled : ℕ → String → Bool → Accounts → Attempt (Unit {0})
unfolding enable_user
set_enabled now user_id enabled a =
    let users = update_where (names_user user_id) (enable_user enabled) a.users in
    if any (names_user user_id) a.users
    then ok (
      record a {
        users = users;
        sessions =
            if enabled
            then a.sessions
            else update_where (λ s. belongs_to (id_of user_id users) s && is_none s.revoked_at)
                (close_session now) a.sessions;
      },
      tt,
    )
    else err (not_found "user not found")

unfoldable pub update_password :
    Passwords → (salt user_id password : String) → Accounts → Attempt (Unit {0})
unfolding validate_password hash_password
update_password passwords salt user_id password a = do
  validate_password password
  id ← ok_or (id_of user_id a.users) (not_found "user not found")
  password_hash ← hash_password passwords salt password
  let is_its = λ (c : Credential). str_eq c.user_id id
  if any is_its a.credentials
      then ok (
        record a {
          credentials =
              update_where is_its
                (λ c. record c {
                  password_hash = password_hash;
                  password_scheme = password_scheme_argon2id;
                })
                a.credentials;
        },
        tt,
      )
      else err (not_found "user not found")

-- The deletion cascades to all tables that refer to the user.
unfoldable pub delete_user : String → Accounts → Attempt (Unit {0})
delete_user user_id a =
    let gone = select_where (names_user user_id) a.users in
    let refers = λ (id : String). any (λ (u : User). str_eq u.id id) gone in
    if any (names_user user_id) a.users
    then ok (
      record {
        users = delete_where (names_user user_id) a.users;
        credentials = delete_where (λ c. refers c.user_id) a.credentials;
        sessions = delete_where (λ s. refers s.user_id) a.sessions;
        keys = delete_where (λ k. refers k.user_id) a.keys;
        usage = delete_where (λ u. refers u.user_id) a.usage;
      },
      tt,
    )
    else err (not_found "user not found")

-- One row of users joined with password_credentials.
abbrev pub credential_of : User → List Credential → Option Credential
credential_of u credentials = find_row (λ c. str_eq c.user_id u.id) credentials

unfoldable pub normalize_new_role : Option String → Result (Option String)
unfolding normalize_user_role
normalize_new_role none = ok none
normalize_new_role (some role) = do role ← normalize_user_role role; ok (some role)

-- Whether the column's constraint would refuse the new name.
abbrev pub name_clashes : String → Option String → List User → Bool
name_clashes user_id none users = false
name_clashes user_id (some username) users =
    any (λ u. str_eq u.username username && not (names_user user_id u)) users

unfoldable pub rename_user : Option String → Option String → User → User
rename_user username role u = record u {
  username = unwrap_or username u.username;
  role = unwrap_or role u.role;
}

module _ (platform : Platform) (passwords : Passwords) where
  open passwords use {lower}

  abbrev pub has_name : String → User → Bool
  has_name username u = str_eq (lower u.username) username

  unfoldable pub add_account :
      (id salt username role password : String) (now : ℕ) → Accounts → Attempt User
  unfolding insert_user insert_credential hash_password
  add_account id salt username role password now a = do
    guard (not (any (has_name username) a.users)) (conflict "username already taken")
    password_hash ← hash_password passwords salt password
    let u = new_user id username role now
    b ← insert_user u a
    ok (
      insert_credential
          (record {
            user_id = id;
            password_hash = password_hash;
            password_scheme = password_scheme_argon2id;
          })
          b,
      u,
    )

  unfoldable pub register :
      (id salt secret username password : String) (now : ℕ) → Accounts → Attempt UserSessionResponse
  unfolding normalize_username validate_password add_account create_session
  register id salt secret username password now a = do
    username ← normalize_username platform username
    validate_password password
    out ← add_account id salt username user_role_developer password now a
    create_session platform now secret out.1 out.0

  unfoldable pub create_user :
      (id salt username role password : String) (now : ℕ) → Accounts → Attempt UserAccount
  unfolding normalize_username normalize_user_role validate_password add_account
  create_user id salt username role password now a = do
    username ← normalize_username platform username
    role ← normalize_user_role role
    validate_password password
    out ← add_account id salt username role password now a
    let u = out.1
    ok (
      out.0,
      record {
        user_id = u.external_id;
        username = u.username;
        role = u.role;
        created_at = u.created_at;
        enabled = u.enabled;
      },
    )

  -- The session is created only for an enabled account whose password fits.
  unfoldable pub login :
      (secret username password : String) (now : ℕ) → Accounts → Attempt UserSessionResponse
  unfolding normalize_username verify_password create_session
  login secret username password now a = do
    username ← normalize_username platform username
    let has_credential = λ (u : User). any (λ (c : Credential). str_eq c.user_id u.id) a.credentials
    let is_it = λ (u : User). has_name username u && has_credential u
    u ← ok_or (find_row is_it a.users) (unauthorized "invalid username or password")
    c ← ok_or (credential_of u a.credentials) (unauthorized "invalid username or password")
    guard u.enabled (unauthorized "account is disabled")
    guard (str_eq c.password_scheme password_scheme_argon2id)
        (conflict "user password credential must be migrated before login")
    fits ← verify_password passwords password c.password_hash
    guard fits (unauthorized "invalid username or password")
    create_session platform now secret u a

  unfoldable pub normalize_new_name : Option String → Result (Option String)
  unfolding normalize_username
  normalize_new_name none = ok none
  normalize_new_name (some username) = do
    name ← normalize_username platform username
    ok (some name)

  abbrev pub name_taken : String → Option String → List User → Bool
  name_taken user_id none users = false
  name_taken user_id (some username) users =
      any (λ u. has_name username u && not (names_user user_id u)) users

  unfoldable pub update_user_profile :
      (user_id : String) (username role : Option String) → Accounts → Attempt (Unit {0})
  unfolding normalize_new_name normalize_new_role rename_user
  update_user_profile user_id username role a = do
    username ← normalize_new_name username
    role ← normalize_new_role role
    guard (not (name_taken user_id username a.users)) (conflict "username already taken")
    guard (not (any (names_user user_id) a.users && name_clashes user_id username a.users))
        (internal "unique")
    if any (names_user user_id) a.users
        then ok (
          record a {
            users = update_where (names_user user_id) (rename_user username role) a.users;
          },
          tt,
        )
        else err (not_found "user not found")
