-- ===== src/Accounts/Users/Names.antt =====
-- The names of the accounts that services/api/src/dev_auth.rs keeps.
use find_verse.External.{Platform}
use find_verse.Common.Error.{ok, Returns, Returns_ok}
use find_verse.Accounts.{
  User, Accounts, Passwords, Post, Post->>=, Post-if, Post-else, Post_ok, Post-guard, Post-refused,
}
use find_verse.Accounts.Support.{
  all_name_chars, user_role_admin, user_role_developer, normalize_username, normalize_user_role,
  hash_password, validate_password,
}
use find_verse.Accounts.Limits.{has_api_role}
use find_verse.Accounts.Users.{
  names_user, same_user, insert_user, insert_credential, new_user, enable_user, has_name,
  add_account, create_user, register, set_enabled, delete_user,
}
use find_verse.Accounts.Sessions.{create_session}
use Prim.Native.String
use find_verse.Prelude.{
  ℕ, List, [], ◌∷◌, ◌++◌, String, Bool, true, false, not, ◌||◌, ◌≡◌, ◌≢◌, refl, ◌∙◌, str_eq, eq_iff,
  any, ltb, All, All-append, All-update_where, All-delete_where, Pairwise, Pairwise-append,
  Pairwise-delete_where, Pairwise-update_where, any-All, if_pair, All-both, if_elim, trim, arith,
  if◌then◌else◌,
}

pub same_text : (s t : String) → str_eq s t ≡ false → s ≢ t
same_text s t h e = ground (arith, eq_iff s t, e, h)

-- role in ('developer', 'admin')
abbrev pub is_role : String → Bool
is_role role = str_eq role user_role_developer || str_eq role user_role_admin

pub normalize_user_role-is_role :
    (s role : String) → normalize_user_role s ≡ ok role → is_role role ≡ true
unfolding normalize_user_role
normalize_user_role-is_role s role h =
    let P = λ (r : String). is_role r ≡ true in
    Returns_ok P h (
      if_elim (Returns P) (str_eq (trim s) user_role_admin) (λ _. refl)
        (λ _. if_elim (Returns P) (str_eq (trim s) user_role_developer) (λ _. refl) (λ _. tt)))

module _ (platform : Platform) (passwords : Passwords) where
  open platform use {to_lowercase}
  open passwords use {lower}

  -- A name as `normalize_username` gives it.
  pub record IsName (name : String) : Type 0 where
    pub long : ltb (String.len name) 3 ≡ false
    pub plain : all_name_chars name ≡ true
    pub lowered : lower name ≡ name

  pub record IsAccount (u : User) : Type 0 where
    pub name : IsName u.username
    pub role : has_api_role u ≡ true

  -- Two accounts with names that differ in more than case, and with ids of their own.
  abbrev pub IsApart : User → User → Type 0
  IsApart u v = (lower u.username ≢ lower v.username) × (u.external_id ≢ v.external_id)

  pub record IsSound (a : Accounts) : Type 0 where
    pub accounts : All IsAccount a.users
    pub apart : Pairwise IsApart a.users

  -- PostgreSQL's `lower` leaves a name alone that Rust has lowered already.
  abbrev pub LowersNames : Type 0
  LowersNames =
      (s : String)
      → all_name_chars (to_lowercase s) ≡ true
      → lower (to_lowercase s) ≡ to_lowercase s

  pub normalize_username-IsName :
      LowersNames → (s name : String) → normalize_username platform s ≡ ok name → IsName name
  unfolding normalize_username
  normalize_username-IsName laws s name h =
      let n = to_lowercase (trim s) in
      let refused = ltb (String.len n) 3 || not (all_name_chars n) in
      Returns_ok IsName h (
        if_elim (Returns IsName) refused (λ _. tt)
          (λ f. record {
            long = ground arith;
            plain = ground arith;
            lowered = laws (trim s) (ground arith);
          }))

  new-IsAccount :
      (id username role : String) (now : ℕ) (users : List User)
      → IsName username
      → is_role role ≡ true
      → any (has_name platform passwords username) users ≡ false
      → any (same_user (new_user id username role now)) users ≡ false
      → All IsAccount users
      → Pairwise IsApart users
      → (All IsAccount (users ++ new_user id username role now ∷ []))
        × Pairwise IsApart (users ++ new_user id username role now ∷ [])
  new-IsAccount id username role now users name valid free fresh ok_users apart =
      let u = new_user id username role now in
      (
        All-append IsAccount users (u ∷ []) ok_users (record { name = name; role = valid }, tt),
        Pairwise-append IsApart users u apart (
            All-both
              (λ v f g. (
                λ e. same_text (lower v.username) username f (e ∙ name.lowered),
                λ e. same_text v.external_id u.external_id (ground arith) e,
              ))
              users (any-All _ users free) (any-All _ users fresh)),
      )

  add_account-IsSound :
      (id salt username role password : String) (now : ℕ) (a : Accounts)
      → IsName username
      → is_role role ≡ true
      → IsSound a
      → Post IsSound (add_account platform passwords id salt username role password now a)
  unfolding add_account insert_user insert_credential
  add_account-IsSound id salt username role password now a name valid h =
      let u = new_user id username role now in
      Post-guard IsSound (not (any (has_name platform passwords username) a.users)) _ _ (λ free.
        Post->>= IsSound (hash_password passwords salt password) _ (λ password_hash _.
          Post-refused IsSound (any (same_user u) a.users) _ _ _ (λ fresh.
            let rows =
              new-IsAccount id username role now a.users name valid (ground arith) fresh h.accounts
                h.apart in
            record { accounts = rows.0; apart = rows.1 })))

  -- What leaves the users alone keeps the accounts sound.
  pub users_kept : (a b : Accounts) → IsSound a → b.users ≡ a.users → IsSound b
  users_kept a b h e = record { accounts = rw e h.accounts; apart = rw e h.apart }

  pub register-IsSound :
      LowersNames
      → (id salt secret username password : String) (now : ℕ) (a : Accounts) → IsSound a
      → Post IsSound (register platform passwords id salt secret username password now a)
  unfolding register create_session
  register-IsSound laws id salt secret username password now a h =
      Post->>= IsSound (normalize_username platform username) _ (λ name e.
        Post->>= IsSound (validate_password password) _ (λ _ _.
          Post->>= IsSound
            (add_account platform passwords id salt name user_role_developer password now a) _
            (λ out f.
              let made = Post_ok IsSound f (
                add_account-IsSound id salt name user_role_developer password now a
                  (normalize_username-IsName laws username name e) refl h) in
              Post-else IsSound _ _ _ _ (λ _. users_kept out.0 _ made refl))))

  pub create_user-IsSound :
      LowersNames
      → (id salt username role password : String) (now : ℕ) (a : Accounts) → IsSound a
      → Post IsSound (create_user platform passwords id salt username role password now a)
  unfolding create_user
  create_user-IsSound laws id salt username role password now a h =
      Post->>= IsSound (normalize_username platform username) _ (λ name e.
        Post->>= IsSound (normalize_user_role role) _ (λ r g.
          Post->>= IsSound (validate_password password) _ (λ _ _.
            Post->>= IsSound (add_account platform passwords id salt name r password now a) _
              (λ out f. Post_ok IsSound f (
                add_account-IsSound id salt name r password now a
                  (normalize_username-IsName laws username name e)
                  (normalize_user_role-is_role role r g) h)))))

  enabled-IsApart :
      (user_id : String) (enabled : Bool) (u v : User)
      → IsApart u v
      → IsApart
          (if names_user user_id u then enable_user enabled u else u)
          (if names_user user_id v then enable_user enabled v else v)
  unfolding enable_user
  enabled-IsApart user_id enabled u v h =
      if_pair IsApart (names_user user_id u) (names_user user_id v) (enable_user enabled u) u
        (enable_user enabled v) v (λ _ _. h) (λ _ _. h) (λ _ _. h) (λ _ _. h)

  pub set_enabled-IsSound :
      (now : ℕ) (user_id : String) (enabled : Bool) (a : Accounts)
      → IsSound a
      → Post IsSound (set_enabled now user_id enabled a)
  unfolding set_enabled enable_user
  set_enabled-IsSound now user_id enabled a h =
      Post-if IsSound (any (names_user user_id) a.users) _ _ _ (λ _. record {
        accounts =
            All-update_where IsAccount (names_user user_id) (enable_user enabled)
              (λ u _ k. record { name = k.name; role = k.role }) a.users h.accounts;
        apart =
            Pairwise-update_where IsApart IsAccount (names_user user_id) (enable_user enabled)
              (λ u v k _ _. enabled-IsApart user_id enabled u v k) a.users h.accounts h.apart;
      })

  pub delete_user-IsSound :
      (user_id : String) (a : Accounts) → IsSound a → Post IsSound (delete_user user_id a)
  unfolding delete_user
  delete_user-IsSound user_id a h = Post-if IsSound (any (names_user user_id) a.users) _ _ _ (λ _.
      record {
        accounts = All-delete_where IsAccount (names_user user_id) a.users h.accounts;
        apart = Pairwise-delete_where IsApart (names_user user_id) a.users h.apart;
      })
