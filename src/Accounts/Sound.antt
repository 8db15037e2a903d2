-- ===== src/Accounts/Sound.antt =====
-- Every change that services/api/src/dev_auth.rs and services/api/src/store/developer.rs make to the
-- tables of accounts, as steps.
use find_verse.External.{Platform}
use find_verse.Common.Error.{ok}
use find_verse.Accounts.{User, Accounts, Passwords, Attempt, Post, Post-if, Post_ok}
use find_verse.Accounts.Limits.{
  is_api_user, ensure_daily_usage_row, developer_usage, stored_limit, UsageResponse,
  update_user_quota,
}
use find_verse.Accounts.Keys.{
  CreatedKey, revoke_developer_key, create_developer_key, validate_and_track_developer_key,
}
use find_verse.Accounts.Sessions.{
  UserSessionResponse, UserIdentity, authorize_session, authorize, logout,
}
use find_verse.Accounts.Users.{
  UserAccount, set_enabled, update_password, delete_user, register, create_user, login,
  update_user_profile,
}
use find_verse.Accounts.Users.Names.{
  IsName, IsAccount, IsApart, IsSound, LowersNames, users_kept, register-IsSound,
  create_user-IsSound, set_enabled-IsSound, delete_user-IsSound,
}
use find_verse.Accounts.Users.Bootstrap.{seed_bootstrap_admin, seed_bootstrap_admin-IsSound}
use find_verse.Accounts.Users.Profiles.{update_user_profile-IsSound}
use find_verse.Prelude.{
  arith, ℕ, String, Option, none, some, Bool, ◌≡◌, refl, any, All-update_where,
  Pairwise-update_where, if_pair,
}

-- The tables after an operation have the users of before.
abbrev pub KeepsUsers {ℓ} : {A : Type ℓ} → Accounts → Attempt A → Type 0
KeepsUsers a m = Post (λ b. b.users ≡ a.users) m

module _ (platform : Platform) where
  logout_users :
      (now : ℕ) (header : Option String) (a : Accounts)
      → KeepsUsers a (logout platform now header a)
  unfolding logout
  logout_users now header a = ground arith

  authorize_users :
      (now : ℕ) (header : Option String) (a : Accounts)
      → KeepsUsers a (authorize platform now header a)
  unfolding authorize authorize_session
  authorize_users now header a = ground arith

  login_users :
      (passwords : Passwords) (secret username password : String) (now : ℕ) (a : Accounts)
      → KeepsUsers a (login platform passwords secret username password now a)
  unfolding login
  login_users passwords secret username password now a = ground arith

  create_developer_key_users :
      (today now : ℕ) (secret id developer_id name : String) (a : Accounts)
      → KeepsUsers a (create_developer_key platform today now secret id developer_id name a)
  unfolding create_developer_key
  create_developer_key_users today now secret id developer_id name a = ground arith

  validate_users :
      (today now : ℕ) (header : Option String) (a : Accounts)
      → (validate_and_track_developer_key platform today now header a).0.users ≡ a.users
  unfolding validate_and_track_developer_key
  validate_users today now none a = refl
  validate_users today now (some header) a = ground arith

update_password_users :
    (passwords : Passwords) (salt user_id password : String) (a : Accounts)
    → KeepsUsers a (update_password passwords salt user_id password a)
unfolding update_password
update_password_users passwords salt user_id password a = ground arith

revoke_developer_key_users :
    (parse_uuid : String → Option String) (today now : ℕ) (developer_id key_id : String)
    (a : Accounts)
    → KeepsUsers a (revoke_developer_key parse_uuid today now developer_id key_id a)
unfolding revoke_developer_key
revoke_developer_key_users parse_uuid today now developer_id key_id a = ground arith

developer_usage_users :
    (today : ℕ) (developer_id : String) (a : Accounts)
    → KeepsUsers a (developer_usage today developer_id a)
unfolding developer_usage ensure_daily_usage_row
developer_usage_users today developer_id a = ground arith

update_user_quota-IsSound :
    (platform : Platform) (passwords : Passwords) (developer_id : String) (limit : Option ℕ)
    (a : Accounts)
    → IsSound platform passwords a
    → Post (IsSound platform passwords) (update_user_quota developer_id limit a)
unfolding update_user_quota
update_user_quota-IsSound platform passwords developer_id limit a h =
    let named = is_api_user developer_id in
    let set = λ (u : User). record u {
      daily_limit = elim limit [ none ↦ u.daily_limit | some v ↦ stored_limit v ];
    } in
    let A = IsAccount platform passwords in
    let R = IsApart platform passwords in
    Post-if (IsSound platform passwords) (any named a.users) _ _ _ (λ _. record {
      accounts =
          All-update_where A named set (λ u _ k. record { name = k.name; role = k.role }) a.users
            h.accounts;
      apart =
          Pairwise-update_where R A named set
            (λ u v k _ _.
              if_pair R (named u) (named v) (set u) u (set v) v (λ _ _. k) (λ _ _. k) (λ _ _. k)
                (λ _ _. k))
            a.users h.accounts h.apart;
    })

module _ (platform : Platform) (passwords : Passwords) where
  -- One operation on the accounts that succeeds, or a request with a key, which also counts when it is
  -- refused. The administrator of the configuration is made under a name that is well formed and
  -- lowered.
  pub data AccountStep : Accounts → Accounts → Type 0 where
    registered :
        {a b : Accounts} (id salt secret username password : String) (now : ℕ)
        (out : UserSessionResponse)
        → register platform passwords id salt secret username password now a ≡ ok (b, out)
        → AccountStep a b
    created :
        {a b : Accounts} (id salt username role password : String) (now : ℕ) (out : UserAccount)
        → create_user platform passwords id salt username role password now a ≡ ok (b, out)
        → AccountStep a b
    profiled :
        {a b : Accounts} (user_id : String) (username role : Option String)
        → update_user_profile platform passwords user_id username role a ≡ ok (b, tt)
        → AccountStep a b
    enabled :
        {a b : Accounts} (now : ℕ) (user_id : String) (on : Bool)
        → set_enabled now user_id on a ≡ ok (b, tt)
        → AccountStep a b
    deleted :
        {a b : Accounts} (user_id : String) → delete_user user_id a ≡ ok (b, tt) → AccountStep a b
    repassworded :
        {a b : Accounts} (salt user_id password : String)
        → update_password passwords salt user_id password a ≡ ok (b, tt)
        → AccountStep a b
    logged_in :
        {a b : Accounts} (secret username password : String) (now : ℕ) (out : UserSessionResponse)
        → login platform passwords secret username password now a ≡ ok (b, out)
        → AccountStep a b
    logged_out :
        {a b : Accounts} (now : ℕ) (header : Option String)
        → logout platform now header a ≡ ok (b, tt)
        → AccountStep a b
    authorized :
        {a b : Accounts} (now : ℕ) (header : Option String) (out : UserIdentity)
        → authorize platform now header a ≡ ok (b, out)
        → AccountStep a b
    limited :
        {a b : Accounts} (developer_id : String) (limit : Option ℕ)
        → update_user_quota developer_id limit a ≡ ok (b, tt)
        → AccountStep a b
    shown :
        {a b : Accounts} (today : ℕ) (developer_id : String) (out : UsageResponse)
        → developer_usage today developer_id a ≡ ok (b, out)
        → AccountStep a b
    key_created :
        {a b : Accounts} (today now : ℕ) (secret id developer_id name : String) (out : CreatedKey)
        → create_developer_key platform today now secret id developer_id name a ≡ ok (b, out)
        → AccountStep a b
    key_revoked :
        {a b : Accounts} (parse_uuid : String → Option String) (today now : ℕ)
        (developer_id key_id : String)
        → revoke_developer_key parse_uuid today now developer_id key_id a ≡ ok (b, tt)
        → AccountStep a b
    seeded :
        {a b : Accounts} (id salt username password : String) (now : ℕ)
        → IsName platform passwords username
        → seed_bootstrap_admin passwords id salt username password now a ≡ ok (b, tt)
        → AccountStep a b
    requested :
        {a : Accounts} (today now : ℕ) (header : Option String)
        → AccountStep a (validate_and_track_developer_key platform today now header a).0

  pub data AccountReach : Accounts → Accounts → Type 0 where
    start : {a : Accounts} → AccountReach a a
    after : {a b c : Accounts} → AccountReach a b → AccountStep b c → AccountReach a c

  kept {ℓ} :
      {A : Type ℓ} {a b : Accounts} {x : A} {m : Attempt A}
      → IsSound platform passwords a
      → KeepsUsers a m
      → m ≡ ok (b, x)
      → IsSound platform passwords b
  kept {a = a} {b = b} h k e =
      users_kept platform passwords a b h (Post_ok (λ c. c.users ≡ a.users) e k)

  module _ (laws : LowersNames platform passwords) where
    AccountStep-IsSound :
        {a b : Accounts}
        → AccountStep a b
        → IsSound platform passwords a
        → IsSound platform passwords b
    AccountStep-IsSound (registered {a} id salt secret username password now out e) h =
        Post_ok (IsSound platform passwords) e
          (register-IsSound platform passwords laws id salt secret username password now a h)
    AccountStep-IsSound (created {a} id salt username role password now out e) h =
        Post_ok (IsSound platform passwords) e
          (create_user-IsSound platform passwords laws id salt username role password now a h)
    AccountStep-IsSound (profiled {a} user_id username role e) h =
        Post_ok (IsSound platform passwords) e
          (update_user_profile-IsSound platform passwords laws user_id username role a h)
    AccountStep-IsSound (enabled {a} now user_id on e) h =
        Post_ok (IsSound platform passwords) e
          (set_enabled-IsSound platform passwords now user_id on a h)
    AccountStep-IsSound (deleted {a} user_id e) h =
        Post_ok (IsSound platform passwords) e (delete_user-IsSound platform passwords user_id a h)
    AccountStep-IsSound (repassworded {a} salt user_id password e) h =
        kept h (update_password_users passwords salt user_id password a) e
    AccountStep-IsSound (logged_in {a} secret username password now out e) h =
        kept h (login_users platform passwords secret username password now a) e
    AccountStep-IsSound (logged_out {a} now header e) h =
        kept h (logout_users platform now header a) e
    AccountStep-IsSound (authorized {a} now header out e) h =
        kept h (authorize_users platform now header a) e
    AccountStep-IsSound (limited {a} developer_id limit e) h =
        Post_ok (IsSound platform passwords) e
          (update_user_quota-IsSound platform passwords developer_id limit a h)
    AccountStep-IsSound (shown {a} today developer_id out e) h =
        kept h (developer_usage_users today developer_id a) e
    AccountStep-IsSound (key_created {a} today now secret id developer_id name out e) h =
        kept h (create_developer_key_users platform today now secret id developer_id name a) e
    AccountStep-IsSound (key_revoked {a} parse_uuid today now developer_id key_id e) h =
        kept h (revoke_developer_key_users parse_uuid today now developer_id key_id a) e
    AccountStep-IsSound (seeded {a} id salt username password now name e) h =
        Post_ok (IsSound platform passwords) e
          (seed_bootstrap_admin-IsSound platform passwords id salt username password now a name h)
    AccountStep-IsSound (requested {a} today now header) h =
        users_kept platform passwords a _ h (validate_users platform today now header a)

    -- Whatever the operations do to the accounts, in whatever order: all names stay well formed, all
    -- roles stay known, and no two accounts share an id or have names that differ in case only. It
    -- holds where they were so before, where PostgreSQL's `lower` leaves a lowered name alone, and
    -- where the name of the configured administrator, which is stored as it stands, is well formed and
    -- lowered; the import of the legacy file is no operation here.
    pub AccountReach-IsSound :
        {a b : Accounts}
        → AccountReach a b
        → IsSound platform passwords a
        → IsSound platform passwords b
    AccountReach-IsSound start h = h
    AccountReach-IsSound (after r step) h = AccountStep-IsSound step (AccountReach-IsSound r h)
