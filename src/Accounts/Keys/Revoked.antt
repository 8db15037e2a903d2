-- ===== src/Accounts/Keys/Revoked.antt =====
-- What services/api/src/store/developer.rs does with a key that has been revoked.
use find_verse.External.{Platform}
use find_verse.Common.Error.{ok, err, unauthorized}
use find_verse.Accounts.{ApiKey, Accounts, Post, Post_ok}
use find_verse.Accounts.Support.{bearer_hash}
use find_verse.Accounts.Keys.{
  is_live_key, key_owner, is_key_of, can_revoke, revoke_key, revoke_developer_key, track_owner,
  validate_with, validate_and_track_developer_key,
}
use find_verse.Accounts.Limits.{find_row, UsageUser, find_user_by_external_id}
use find_verse.Prelude.{
  ℕ, List, [], ◌∷◌, String, Option, none, some, true, false, ◌≡◌, refl, str_eq, any, All,
  update_where, if_elim, arith,
}

-- The key of this id is the only one with the token's hash, as the constraint on the column wants.
abbrev pub IsHashOf : String → String → String → ApiKey → Type 0
IsHashOf token_hash key_id user_id k =
    str_eq k.token_hash token_hash ≡ true → is_key_of key_id user_id k ≡ true

-- No key of this id has the hash.
abbrev pub IsHashOfAnother : String → String → String → ApiKey → Type 0
IsHashOfAnother token_hash key_id user_id k =
    str_eq k.token_hash token_hash ≡ true → is_key_of key_id user_id k ≡ false

revoked_row :
    (now : ℕ) (t key_id user_id : String) (keys : List ApiKey)
    → All (IsHashOf t key_id user_id) keys
    → find_row (is_live_key t) (update_where (can_revoke key_id user_id) (revoke_key now) keys)
      ≡ none
unfolding revoke_key
revoked_row now t key_id user_id [] h = refl
revoked_row now t key_id user_id (k ∷ ks) h =
    ground (arith, h.0, revoked_row now t key_id user_id ks h.1)

other_row :
    (now : ℕ) (t key_id user_id : String) (keys : List ApiKey)
    → All (IsHashOfAnother t key_id user_id) keys
    → find_row (is_live_key t) (update_where (can_revoke key_id user_id) (revoke_key now) keys)
      ≡ find_row (is_live_key t) keys
unfolding revoke_key
other_row now t key_id user_id [] h = refl
other_row now t key_id user_id (k ∷ ks) h =
    ground (arith, h.0, other_row now t key_id user_id ks h.1)

module _ (platform : Platform) (parse_uuid : String → Option String) (today now : ℕ)
    (developer_id key_id id : String) (user : UsageUser) (a b : Accounts) where
  revoked_tables :
      find_user_by_external_id today developer_id a ≡ ok user
      → parse_uuid key_id ≡ some id
      → revoke_developer_key parse_uuid today now developer_id key_id a ≡ ok (b, tt)
      → b ≡ record a { keys = update_where (can_revoke id user.id) (revoke_key now) a.keys }
  unfolding revoke_developer_key
  revoked_tables found parsed done =
      let after : Accounts = record a {
        keys = update_where (can_revoke id user.id) (revoke_key now) a.keys;
      } in
      let P = λ (c : Accounts). c ≡ after in
      Post_ok P done (
        rw (found, parsed)
          (if_elim (Post P) (any (can_revoke id user.id) a.keys) (λ _. refl)
            (λ _. if_elim (Post P) (any (is_key_of id user.id) a.keys) (λ _. tt) (λ _. tt))))

  -- Once a developer has revoked a key, every request with its token is refused and changes nothing.
  -- The owner that any other token stands for is what it was.
  pub revoke_developer_key-validate :
      find_user_by_external_id today developer_id a ≡ ok user
      → parse_uuid key_id ≡ some id
      → revoke_developer_key parse_uuid today now developer_id key_id a ≡ ok (b, tt)
      → (header t other : String) (day time : ℕ) → bearer_hash platform header ≡ ok t
      → All (IsHashOf t id user.id) a.keys
      → All (IsHashOfAnother other id user.id) a.keys
      → (validate_and_track_developer_key platform day time (some header) b
          ≡ (b, err (unauthorized "invalid api key")))
        × (key_owner other b ≡ key_owner other a)
  unfolding validate_and_track_developer_key validate_with key_owner track_owner
  revoke_developer_key-validate found parsed done header t other day time e only apart =
      rw (revoked_tables found parsed done, e)
        (
          rw (key_owner, revoked_row now t id user.id a.keys only) refl,
          rw (key_owner, other_row now other id user.id a.keys apart) refl,
        )
