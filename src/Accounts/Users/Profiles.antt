-- ===== src/Accounts/Users/Profiles.antt =====
-- A change of name or role in services/api/src/dev_auth.rs keeps the accounts sound.
use find_verse.External.{Platform}
use find_verse.Common.Error.{Returns, Returns_ok, Returns->>=}
use find_verse.Accounts.{User, Accounts, Passwords, Post, Post->>=, Post-if, Post-guard}
use find_verse.Accounts.Support.{normalize_username, normalize_user_role}
use find_verse.Accounts.Users.{
  names_user, normalize_new_name, normalize_new_role, name_taken, name_clashes, rename_user,
  update_user_profile,
}
use find_verse.Prelude.{
  List, [], ◌∷◌, String, Option, none, some, true, false, not, ◌&&◌, ◌≡◌, ◌≢◌, refl, ◌∙◌, sym,
  eq_iff, any, All, All-imp, All-update_where, Pairwise-update_where, any-All, if_pair, unwrap_or,
  arith, if◌then◌else◌,
}
use find_verse.Accounts.Users.Names.{
  is_role, normalize_user_role-is_role, IsName, IsAccount, IsApart, IsSound, LowersNames,
  normalize_username-IsName,
}

module _ (platform : Platform) (passwords : Passwords) where
  open passwords use {lower}

  -- A row that a rename is about to change, or one that keeps clear of the new name.
  abbrev pub IsClear : String → Option String → User → Type 0
  IsClear user_id username u =
      (name : String)
      → username ≡ some name
      → names_user user_id u ≡ false
      → lower u.username ≢ name

  one_renamed :
      (user_id : String) (username : Option String) (u v : User)
      → ((name : String) → username ≡ some name → lower name ≡ name)
      → (IsApart platform passwords) u v
      → IsClear user_id username v
      → names_user user_id v ≡ false
      → lower (unwrap_or username u.username) ≢ lower v.username
  one_renamed user_id none u v lowered h cv n e = h.0 e
  one_renamed user_id (some name) u v lowered h cv n e = cv name refl n (sym e ∙ lowered name refl)

  both_named :
      (user_id : String) (u v : User)
      → names_user user_id u ≡ true
      → names_user user_id v ≡ true
      → u.external_id ≡ v.external_id
  both_named user_id u v h k =
      (eq_iff u.external_id user_id).0 h ∙ sym ((eq_iff v.external_id user_id).0 k)

  renamed-IsApart :
      (user_id : String) (username role : Option String) (u v : User)
      → ((name : String) → username ≡ some name → lower name ≡ name)
      → (IsApart platform passwords) u v
      → IsClear user_id username u
      → IsClear user_id username v
      → (IsApart platform passwords)
          (if names_user user_id u then rename_user username role u else u)
          (if names_user user_id v then rename_user username role v else v)
  unfolding rename_user
  renamed-IsApart user_id username role u v lowered h cu cv =
      if_pair (IsApart platform passwords) (names_user user_id u) (names_user user_id v)
        (rename_user username role u) u (rename_user username role v) v
        (λ p q. absurd (h.1 (both_named user_id u v p q)))
        (λ p q. (one_renamed user_id username u v lowered h cv q, h.1))
        (λ p q. (
          λ e.
              one_renamed user_id username v u lowered (λ f. h.0 (sym f), λ f. h.1 (sym f)) cu p
                (sym e),
          h.1,
        ))
        (λ _ _. h)

  all-IsClear :
      (user_id : String) (username : Option String) (users : List User)
      → name_taken platform passwords user_id username users ≡ false
      → All (IsClear user_id username) users
  all-IsClear user_id none [] h = tt
  all-IsClear user_id none (u ∷ us) h = (λ name e. ground (arith, e), all-IsClear user_id none us h)
  all-IsClear user_id (some taken) users h =
      All-imp _ (IsClear user_id (some taken))
        (λ u f name e n c. ground (arith, eq_iff (lower u.username) taken, f, e, n, c)) users
        (any-All _ users h)

  abbrev pub NewName : Option String → Type 0
  NewName username = (name : String) → username ≡ some name → (IsName platform passwords) name

  abbrev pub NewRole : Option String → Type 0
  NewRole role = (r : String) → role ≡ some r → is_role r ≡ true

  renamed-IsAccount :
      (username role : Option String) (u : User)
      → NewName username × NewRole role
      → (IsAccount platform passwords) u
      → (IsAccount platform passwords) (rename_user username role u)
  unfolding rename_user
  renamed-IsAccount none none u p k = record { name = k.name; role = k.role }
  renamed-IsAccount none (some r) u p k = record { name = k.name; role = p.1 r refl }
  renamed-IsAccount (some n) none u p k = record { name = p.0 n refl; role = k.role }
  renamed-IsAccount (some n) (some r) u p k = record { name = p.0 n refl; role = p.1 r refl }

  normalize_new_name-NewName :
      (LowersNames platform passwords)
      → (username : Option String)
      → Returns NewName (normalize_new_name platform passwords username)
  unfolding normalize_new_name
  normalize_new_name-NewName laws none = λ name e. ground (arith, e)
  normalize_new_name-NewName laws (some username) =
      Returns->>= NewName (normalize_username platform username) _ (λ n f name e.
        normalize_username-IsName platform passwords laws username name (f ∙ ground (arith, e)))

  normalize_new_role-NewRole : (role : Option String) → Returns NewRole (normalize_new_role role)
  unfolding normalize_new_role
  normalize_new_role-NewRole none = λ r e. ground (arith, e)
  normalize_new_role-NewRole (some role) =
      Returns->>= NewRole (normalize_user_role role) _
        (λ n f r e. normalize_user_role-is_role role r (f ∙ ground (arith, e)))

  pub update_user_profile-IsSound :
      (LowersNames platform passwords)
      → (user_id : String) (username role : Option String) (a : Accounts)
      → (IsSound platform passwords) a
      → Post
          (IsSound platform passwords)
          (update_user_profile platform passwords user_id username role a)
  unfolding update_user_profile
  update_user_profile-IsSound laws user_id username role a h =
      Post->>= (IsSound platform passwords) (normalize_new_name platform passwords username) _
        (λ n e. Post->>= (IsSound platform passwords) (normalize_new_role role) _ (λ r f.
          let profile : NewName n × NewRole r = (
            Returns_ok NewName e (normalize_new_name-NewName laws username),
            Returns_ok NewRole f (normalize_new_role-NewRole role),
          ) in
          Post-guard (IsSound platform passwords)
            (not (name_taken platform passwords user_id n a.users)) _ _
            (λ free.
              Post-guard (IsSound platform passwords)
                (not (any (names_user user_id) a.users && name_clashes user_id n a.users)) _ _
                (λ _.
                  Post-if (IsSound platform passwords) (any (names_user user_id) a.users) _ _ _
                    (λ _. record {
                      accounts =
                          All-update_where (IsAccount platform passwords) (names_user user_id)
                            (rename_user n r) (λ u _ k. renamed-IsAccount n r u profile k) a.users
                            h.accounts;
                      apart =
                          Pairwise-update_where (IsApart platform passwords) (IsClear user_id n)
                            (names_user user_id) (rename_user n r)
                            (λ u v k p q.
                              renamed-IsApart user_id n r u v (λ name g. (profile.0 name g).lowered)
                                k p q)
                            a.users (all-IsClear user_id n a.users (ground (arith, free))) h.apart;
                    })))))
