-- ===== src/Examples/Accounts.antt =====
-- The theorems on accounts, sessions and keys, applied: one developer with one key and one session.
use find_verse.Common.Error.{err, unauthorized}
use find_verse.Accounts.{User, Session, ApiKey, Usage, Accounts, Passwords}
use find_verse.Accounts.Support.{
  all_name_chars, bearer_token, bearer_hash, hash_token, hash_password, password_scheme_argon2id,
}
use find_verse.Accounts.Limits.{find_user_by_external_id}
use find_verse.Accounts.Keys.{
  key_owner, revoke_key, revoke_developer_key, validate_and_track_developer_key,
}
use find_verse.Accounts.Keys.Quota.{requests, used, requests_lem, requests-first}
use find_verse.Accounts.Keys.Revoked.{revoke_developer_key-validate}
use find_verse.Accounts.Sessions.{authorize, authorize_session, logout}
use find_verse.Accounts.Sessions.Closed.{logout-authorize, set_enabled-authorize}
use find_verse.Accounts.Users.{enable_user, set_enabled}
use find_verse.Accounts.Users.Bootstrap.{admin_user, seed_bootstrap_admin}
use find_verse.Accounts.Users.Names.{IsSound, LowersNames}
use find_verse.Accounts.Sound.{start, after, seeded, logged_out, AccountReach-IsSound}
use find_verse.Examples.Data.{sample_platform}
use find_verse.Prelude.{ℕ, List, [], ◌∷◌, ◌++◌, Option, none, some, true, false, ◌≡◌, refl, arith}

abbrev plain_passwords : Passwords
plain_passwords = record {
  hash_with = λ salt password. some password;
  verify = λ password hash. some true;
  lower = λ s. s;
}

abbrev developer : User
developer = record {
  id = "1";
  external_id = "usr:1";
  username = "alice";
  role = "developer";
  enabled = true;
  daily_limit = 2;
  created_at = 0;
}

abbrev key_with : Option ℕ → ApiKey
key_with revoked_at = record {
  id = "k";
  user_id = "1";
  name = "main";
  preview = "fvk_";
  token_hash = "";
  created_at = 0;
  last_used_at = none;
  revoked_at = revoked_at;
}

abbrev session_with : Option ℕ → Session
session_with revoked_at = record {
  user_id = "1";
  token_hash = "";
  last_used_at = 0;
  revoked_at = revoked_at;
}

abbrev accounts_with : List Usage → Option ℕ → Option ℕ → Accounts
accounts_with usage key_revoked session_revoked = record {
  users = developer ∷ [];
  credentials = [];
  sessions = session_with session_revoked ∷ [];
  keys = key_with key_revoked ∷ [];
  usage = usage;
}

abbrev one_request : Usage
one_request = record { user_id = "1"; usage_day = 5; used_count = 1 }

requests_lem_example :
    let a = accounts_with (one_request ∷ []) none none in
    ((requests sample_platform 5 9 "Bearer t" 3 a).1 ≡ 1)
    × (used 5 developer (requests sample_platform 5 9 "Bearer t" 3 a).0 ≡ 2)
unfolding bearer_hash key_owner
requests_lem_example =
    requests_lem sample_platform 5 9 "Bearer t" "" developer 3
      (accounts_with (one_request ∷ []) none none) refl refl refl (omega arith)

requests-first_example :
    ((requests sample_platform 5 9 "Bearer t" 1 (accounts_with [] none none)).1 ≡ 0)
    × ((requests sample_platform 5 9 "Bearer t" 4 (accounts_with [] none none)).1 ≡ 2)
unfolding bearer_hash key_owner
requests-first_example =
    requests-first sample_platform 5 9 "Bearer t" "" developer 3 (accounts_with [] none none) refl
      refl refl

revoke_developer_key-validate_example :
    let b = accounts_with [] (some 7) none in
    (validate_and_track_developer_key sample_platform 5 9 (some "Bearer t") b
      ≡ (b, err (unauthorized "invalid api key")))
    × (key_owner "another" b ≡ key_owner "another" (accounts_with [] none none))
unfolding bearer_hash find_user_by_external_id revoke_developer_key revoke_key
revoke_developer_key-validate_example =
    revoke_developer_key-validate sample_platform (λ s. some s) 5 7 "usr:1" "k" "k"
      (record { id = "1"; external_id = "usr:1"; daily_limit = 2; used_today = 0 })
      (accounts_with [] none none) (accounts_with [] (some 7) none) refl refl refl "Bearer t" ""
      "another" 5 9 refl (λ _. refl, tt) (λ e. ground (arith, e), tt)

logout-authorize_example :
    authorize sample_platform 8 (some "Bearer t") (accounts_with [] none (some 7))
    ≡ err (unauthorized "invalid session")
unfolding bearer_token logout hash_token
logout-authorize_example =
    logout-authorize sample_platform 7 8 (accounts_with [] none none)
      (accounts_with [] none (some 7)) "Bearer t" "t" refl refl

set_enabled-authorize_example :
    let off = record (accounts_with [] none (some 7)) {
      users = record developer { enabled = false } ∷ [];
    } in
    (authorize_session sample_platform 9 "t" off ≡ err (unauthorized "invalid session"))
    × (authorize_session sample_platform 9 "t" (accounts_with [] none (some 7))
        ≡ err (unauthorized "invalid session"))
unfolding set_enabled enable_user hash_token
set_enabled-authorize_example =
    set_enabled-authorize sample_platform 7 9 (accounts_with [] none none)
      (record (accounts_with [] none (some 7)) {
        users = record developer { enabled = false } ∷ [];
      })
      "usr:1" "t" "1" 8 (accounts_with [] none (some 7)) refl (λ _. refl, tt) refl refl

kept_names : LowersNames sample_platform plain_passwords
kept_names s h = refl

alice_sound : IsSound sample_platform plain_passwords (accounts_with [] none none)
unfolding all_name_chars
alice_sound = record {
  accounts =
      (record { name = record { long = refl; plain = refl; lowered = refl }; role = refl }, tt);
  apart = (tt, tt);
}

-- A root is made at the start, and the session of the other account ends.
AccountReach-IsSound_example :
    IsSound sample_platform plain_passwords (record (accounts_with [] none (some 7)) {
      users = (accounts_with [] none none).users ++ admin_user "9" "root" 5 ∷ [];
      credentials =
          (accounts_with [] none none).credentials
          ++ record {
            user_id = "9";
            password_hash = "secret";
            password_scheme = password_scheme_argon2id;
          }
            ∷ [];
    })
unfolding logout bearer_token hash_token seed_bootstrap_admin hash_password all_name_chars
AccountReach-IsSound_example =
    AccountReach-IsSound sample_platform plain_passwords kept_names
      (after
        (after start (
          seeded {a = accounts_with [] none none} "9" "salt" "root" "secret" 5
            (record { long = refl; plain = refl; lowered = refl }) refl))
        (logged_out 7 (some "Bearer t") refl))
      alice_sound
