-- ===== src/Accounts/Users/Bootstrap.antt =====
-- services/api/src/db.rs: `seed_bootstrap_admin`, which makes the account of the configured
-- administrator when the service starts.
use Prim.Native.String
use find_verse.External.{Platform}
use find_verse.Common.Error.{ok, ◌>>=◌}
use find_verse.Accounts.{User, Accounts, Passwords, Attempt, Post, Post->>=, Post-refused}
use find_verse.Accounts.Support.{password_scheme_argon2id, user_role_admin, hash_password}
use find_verse.Accounts.Users.{
  names_user, same_user, insert_user, insert_credential, default_daily_limit,
}
use find_verse.Accounts.Users.Names.{IsName, IsAccount, IsApart, IsSound, same_text}
use find_verse.Prelude.{
  ℕ, [], ◌∷◌, String, true, false, ◌≡◌, refl, sym, ◌∙◌, any, All-append, Pairwise-append, any-All,
  All-both, if_elim, arith, if◌then◌else◌,
}

abbrev pub local_id : String → String
local_id username = String.◌++◌ "local:" username

-- The name is the configured one as it stands.
abbrev pub admin_user : (id username : String) → ℕ → User
admin_user id username now = record {
  id = id;
  external_id = local_id username;
  username = username;
  role = user_role_admin;
  enabled = true;
  daily_limit = default_daily_limit;
  created_at = now;
}

unfoldable pub insert_admin :
    Passwords → (id salt username password : String) (now : ℕ) → Accounts → Attempt (Unit {0})
unfolding insert_user insert_credential hash_password
insert_admin passwords id salt username password now a = do
  password_hash ← hash_password passwords salt password
  b ← insert_user (admin_user id username now) a
  ok (
    insert_credential
        (record {
          user_id = id;
          password_hash = password_hash;
          password_scheme = password_scheme_argon2id;
        })
        b,
    tt,
  )

unfoldable pub seed_bootstrap_admin :
    Passwords → (id salt username password : String) (now : ℕ) → Accounts → Attempt (Unit {0})
unfolding insert_admin
seed_bootstrap_admin passwords id salt username password now a =
    if any (names_user (local_id username)) a.users
    then ok (a, tt)
    else insert_admin passwords id salt username password now a

module _ (platform : Platform) (passwords : Passwords) where
  admin-IsApart :
      (id username : String) (now : ℕ) (v : User)
      → IsName platform passwords username
      → IsAccount platform passwords v
      → same_user (admin_user id username now) v ≡ false
      → IsApart platform passwords v (admin_user id username now)
  admin-IsApart id username now v name known fresh = (
    λ e.
        same_text v.username username (ground (arith, fresh))
          (sym known.name.lowered ∙ e ∙ name.lowered),
    λ e. same_text v.external_id (local_id username) (ground (arith, fresh)) e,
  )

  insert_admin-IsSound :
      (id salt username password : String) (now : ℕ) (a : Accounts)
      → IsName platform passwords username
      → IsSound platform passwords a
      → Post (IsSound platform passwords) (insert_admin passwords id salt username password now a)
  unfolding insert_admin insert_user insert_credential
  insert_admin-IsSound id salt username password now a name h =
      let u = admin_user id username now in
      let Sound = IsSound platform passwords in
      let Known = IsAccount platform passwords in
      Post->>= Sound (hash_password passwords salt password) _ (λ password_hash _.
        Post-refused Sound (any (same_user u) a.users) _ _ _ (λ fresh. record {
          accounts =
              All-append Known a.users (u ∷ []) h.accounts
                (record { name = name; role = refl }, tt);
          apart = Pairwise-append (IsApart platform passwords) a.users u h.apart (
              All-both (λ v k f. admin-IsApart id username now v name k f) a.users h.accounts
                (any-All _ a.users fresh));
        }))

  -- Where the configured name is lowered and well formed, the accounts stay sound.
  pub seed_bootstrap_admin-IsSound :
      (id salt username password : String) (now : ℕ) (a : Accounts)
      → IsName platform passwords username
      → IsSound platform passwords a
      → Post
          (IsSound platform passwords)
          (seed_bootstrap_admin passwords id salt username password now a)
  unfolding seed_bootstrap_admin
  seed_bootstrap_admin-IsSound id salt username password now a name h =
      if_elim (Post (IsSound platform passwords)) (any (names_user (local_id username)) a.users)
        (λ _. h) (λ _. insert_admin-IsSound id salt username password now a name h)
