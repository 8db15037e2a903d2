-- ===== src/Accounts/Sessions.antt =====
-- services/api/src/dev_auth.rs: sessions. `now` is the clock, and secrets are drawn by the caller.
pub mod Closed
use find_verse.External.{Platform}
use find_verse.Common.Error.{
  ApiError, unauthorized, not_found, conflict, internal, Result, ok, err, ◌>>=◌, ◌>>◌, guard, ok_or,
}
use find_verse.Accounts.{User, Credential, Session, ApiKey, Usage, Accounts, Passwords, Attempt}
use find_verse.Accounts.Support.{
  password_scheme_argon2id, user_role_admin, user_role_developer, bearer_token, validate_password,
  normalize_user_role, hash_password, verify_password, generate_token, normalize_username,
  hash_token,
}
use find_verse.Accounts.Limits.{find_row}
use Prim.Native.String
use find_verse.Prelude.{
  ℕ, List, [], ◌∷◌, ◌++◌, String, Option, none, some, Bool, true, false, not, ◌&&◌, ◌||◌, str_eq,
  any, is_none, leb, map, select_where, update_where, delete_where, sort_by, unwrap_or,
  if◌then◌else◌,
}

pub record UserSessionResponse : Type 0 where
  pub user_id : String
  pub username : String
  pub role : String
  pub token : String

pub record UserIdentity : Type 0 where
  pub user_id : String
  pub username : String
  pub role : String

abbrev pub is_session_of : String → Session → Bool
is_session_of token_hash s = str_eq s.token_hash token_hash

abbrev pub is_open_session : String → Session → Bool
is_open_session token_hash s = is_session_of token_hash s && is_none s.revoked_at

abbrev pub close_session : ℕ → Session → Session
close_session now s = record s { revoked_at = some now }

abbrev pub touch_session : ℕ → Session → Session
touch_session now s = record s { last_used_at = now }

-- The join of a session with its user.
abbrev pub session_user : List User → String → Session → Option User
session_user users token_hash s =
    if is_open_session token_hash s
    then find_row (λ u. str_eq u.id s.user_id && u.enabled) users
    else none

unfoldable pub find_session : List User → String → List Session → Option User
find_session users token_hash [] = none
find_session users token_hash (s ∷ sessions) =
    let rest = find_session users token_hash sessions in
    elim (session_user users token_hash s) [ none ↦ rest | some u ↦ some u ]

module _ (platform : Platform) where
  -- The session's token is answered; its hash is kept, and is unique.
  unfoldable pub create_session :
      (now : ℕ) (secret : String) → User → Accounts → Attempt UserSessionResponse
  unfolding generate_token hash_token
  create_session now secret u a =
      let token = generate_token "fvs" secret in
      let hash = hash_token platform token in
      if any (is_session_of hash) a.sessions
      then err (internal "unique")
      else ok (
        record a {
          sessions =
              a.sessions
              ++ record { user_id = u.id; token_hash = hash; last_used_at = now; revoked_at = none }
                ∷ [];
        },
        record { user_id = u.external_id; username = u.username; role = u.role; token = token },
      )

  unfoldable pub authorize_session : ℕ → String → Accounts → Attempt User
  unfolding hash_token find_session
  authorize_session now token a = do
    let hash = hash_token platform token
    u ← ok_or (find_session a.users hash a.sessions) (unauthorized "invalid session")
    ok (record a { sessions = update_where (is_session_of hash) (touch_session now) a.sessions }, u)

  unfoldable pub authorize : ℕ → Option String → Accounts → Attempt UserIdentity
  unfolding bearer_token authorize_session
  authorize now auth_header a = do
    token ← bearer_token auth_header
    out ← authorize_session now token a
    let u = out.1
    ok (out.0, record { user_id = u.external_id; username = u.username; role = u.role })

  -- Without the role the session counts as used all the same.
  unfoldable pub authorize_admin : ℕ → Option String → Accounts → Accounts × Result UserIdentity
  unfolding authorize
  authorize_admin now auth_header a = elim (authorize now auth_header a) [
    | ok (b, identity) ↦ (
      b,
      if str_eq identity.role user_role_admin
          then ok identity
          else err (unauthorized "admin access is required"),
    )
    | err e ↦ (a, err e)
  ]

  unfoldable pub current_session : ℕ → Option String → Accounts → Attempt UserSessionResponse
  unfolding bearer_token authorize_session
  current_session now auth_header a = do
    token ← bearer_token auth_header
    out ← authorize_session now token a
    let u = out.1
    ok (
      out.0,
      record { user_id = u.external_id; username = u.username; role = u.role; token = token },
    )

  unfoldable pub logout : ℕ → Option String → Accounts → Attempt (Unit {0})
  unfolding bearer_token hash_token
  logout now auth_header a = do
    token ← bearer_token auth_header
    let hash = hash_token platform token
    if any (is_open_session hash) a.sessions
        then ok (
          record a {
            sessions = update_where (is_open_session hash) (close_session now) a.sessions;
          },
          tt,
        )
        else err (unauthorized "invalid session")
