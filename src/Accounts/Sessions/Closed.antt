-- ===== src/Accounts/Sessions/Closed.antt =====
-- Sessions of services/api/src/dev_auth.rs that have been closed, by a logout or with an account.
use find_verse.External.{Platform}
use find_verse.Common.Error.{ok, err, unauthorized}
use find_verse.Accounts.{User, Session, Accounts, Post_ok, Post-if}
use find_verse.Accounts.Support.{bearer_token, hash_token}
use find_verse.Accounts.Users.{names_user, id_of, belongs_to, enable_user, set_enabled}
use find_verse.Accounts.Sessions.{
  is_session_of, is_open_session, close_session, find_session, authorize_session, authorize, logout,
}
use find_verse.Prelude.{
  ℕ, List, [], ◌∷◌, String, none, some, Bool, true, false, ◌≡◌, refl, str_eq, any, All, is_none,
  ◌&&◌, update_where, arith,
}

-- Nobody is found by a session that a logout has closed.
logged_out_row :
    (now : ℕ) (hash : String) (users : List User) (sessions : List Session)
    → find_session users hash (update_where (is_open_session hash) (close_session now) sessions)
      ≡ none
unfolding find_session
logged_out_row now hash users [] = refl
logged_out_row now hash users (s ∷ ss) = ground (arith, logged_out_row now hash users ss)

-- Every session of this hash is the user's.
abbrev pub IsHashOfUser : String → String → Session → Type 0
IsHashOfUser hash id s = is_session_of hash s ≡ true → str_eq s.user_id id ≡ true

disabled_row :
    (now : ℕ) (hash id : String) (users : List User) (sessions : List Session)
    → All (IsHashOfUser hash id) sessions
    → find_session users hash (
        update_where
          (λ s. belongs_to (some id) s && is_none s.revoked_at)
          (close_session now)
          sessions)
      ≡ none
unfolding find_session
disabled_row now hash id users [] h = refl
disabled_row now hash id users (s ∷ ss) h =
    ground (arith, h.0, disabled_row now hash id users ss h.1)

id_of-enable_user :
    (user_id : String) (enabled : Bool) (users : List User)
    → id_of user_id (update_where (names_user user_id) (enable_user enabled) users)
      ≡ id_of user_id users
unfolding enable_user
id_of-enable_user user_id enabled [] = refl
id_of-enable_user user_id enabled (u ∷ us) = ground (arith, id_of-enable_user user_id enabled us)

module _ (platform : Platform) (now later : ℕ) (a b : Accounts) where
  -- After a logout the same header is refused.
  pub logout-authorize :
      (header token : String)
      → bearer_token (some header) ≡ ok token
      → logout platform now (some header) a ≡ ok (b, tt)
      → authorize platform later (some header) b ≡ err (unauthorized "invalid session")
  unfolding logout authorize authorize_session
  logout-authorize header token e done =
      let hash = hash_token platform token in
      let P = λ (c : Accounts). find_session c.users hash c.sessions ≡ none in
      let gone = Post_ok P done (
        rw e (
          Post-if P (any (is_open_session hash) a.sessions) _ _ _
            (λ _. logged_out_row now hash a.users a.sessions))) in
      rw (e, gone) refl

  -- Disabling an account closes its sessions for good: even when it is enabled again, a token of before
  -- is refused.
  pub set_enabled-authorize :
      (user_id token id : String) (again : ℕ) (c : Accounts)
      → id_of user_id a.users ≡ some id
      → All (IsHashOfUser (hash_token platform token) id) a.sessions
      → set_enabled now user_id false a ≡ ok (b, tt)
      → set_enabled again user_id true b ≡ ok (c, tt)
      → (authorize_session platform later token b ≡ err (unauthorized "invalid session"))
        × (authorize_session platform later token c ≡ err (unauthorized "invalid session"))
  unfolding set_enabled authorize_session
  set_enabled-authorize user_id token id again c e owned off on =
      let hash = hash_token platform token in
      let P = λ (d : Accounts). (us : List User) → find_session us hash d.sessions ≡ none in
      let closed : P b = Post_ok P off (
        Post-if P (any (names_user user_id) a.users) _ _ _ (λ _ us.
          rw (id_of-enable_user user_id false a.users, e)
            (disabled_row now hash id us a.sessions owned))) in
      let still : P c =
        Post_ok P on (Post-if P (any (names_user user_id) b.users) _ _ _ (λ _ us. closed us)) in
      (rw (closed b.users) refl, rw (still c.users) refl)
