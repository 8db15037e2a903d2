-- ===== src/Accounts/Limits.antt =====
-- services/api/src/store/developer.rs: the daily limits of the accounts and what they have used of
-- them. `today` is `current_date`.
use find_verse.Common.Error.{not_found, Result, ok, err, ◌>>=◌, ok_or}
use find_verse.Accounts.{User, ApiKey, Usage, Accounts, Attempt}
use find_verse.Accounts.Support.{user_role_admin, user_role_developer}
use find_verse.Prelude.{
  ℕ, ◌%◌, ◌^◌, max, List, [], ◌∷◌, map, String, Option, none, some, Bool, ◌&&◌, ◌||◌, leb, ◌==◌,
  str_eq, any, select_where, update_where, sort_by, if◌then◌else◌,
}

-- role in ('developer', 'admin')
abbrev pub has_api_role : User → Bool
has_api_role u = str_eq u.role user_role_developer || str_eq u.role user_role_admin

-- A bit pattern of an `i32` that is not negative.
abbrev pub is_signed : ℕ → Bool
is_signed limit = leb 2147483648 limit

-- `daily_limit.max(1) as u32`
abbrev pub shown_limit : ℕ → ℕ
shown_limit limit = if is_signed limit then 1 else max limit 1

abbrev pub find_row {ℓ} : {A : Type ℓ} → (A → Bool) → List A → Option A
find_row p [] = none
find_row p (x ∷ xs) = let rest = find_row p xs in if p x then some x else rest

abbrev pub is_usage_of : String → ℕ → Usage → Bool
is_usage_of user_id day u = str_eq u.user_id user_id && u.usage_day == day

-- The columns of a user that an account of the quota needs.
pub record UsageUser : Type 0 where
  pub id : String
  pub external_id : String
  pub daily_limit : ℕ
  pub used_today : ℕ

abbrev pub used_today : ℕ → String → List Usage → ℕ
used_today today user_id usage = elim (find_row (is_usage_of user_id today) usage) [
  | none ↦ 0
  | some u ↦ u.used_count
]

abbrev pub usage_user : ℕ → List Usage → User → UsageUser
usage_user today usage u = record {
  id = u.id;
  external_id = u.external_id;
  daily_limit = u.daily_limit;
  used_today = used_today today u.id usage;
}

abbrev pub is_api_user : String → User → Bool
is_api_user developer_id u = str_eq u.external_id developer_id && has_api_role u

unfoldable pub find_user_by_external_id : ℕ → String → Accounts → Result UsageUser
find_user_by_external_id today developer_id a = do
  u ← ok_or (find_row (is_api_user developer_id) a.users) (not_found "user record not found")
  ok (usage_user today a.usage u)

-- insert … on conflict (user_id, usage_day) do nothing
unfoldable pub seed_usage : ℕ → String → List Usage → List Usage
seed_usage today user_id usage =
    if any (is_usage_of user_id today) usage
    then usage
    else record { user_id = user_id; usage_day = today; used_count = 0 } ∷ usage

unfoldable pub ensure_daily_usage_row : ℕ → String → Accounts → Accounts
unfolding seed_usage
ensure_daily_usage_row today user_id a = record a { usage = seed_usage today user_id a.usage }

pub record ApiKeyMetadata : Type 0 where
  pub id : String
  pub name : String
  pub preview : String
  pub created_at : ℕ
  pub revoked_at : Option ℕ

pub record UsageResponse : Type 0 where
  pub developer_id : String
  pub daily_limit : ℕ
  pub used_today : ℕ
  pub keys : List ApiKeyMetadata

abbrev pub key_metadata : ApiKey → ApiKeyMetadata
key_metadata k = record {
  id = k.id;
  name = k.name;
  preview = k.preview;
  created_at = k.created_at;
  revoked_at = k.revoked_at;
}

unfoldable pub build_usage_response : UsageUser → Accounts → UsageResponse
unfolding sort_by
build_usage_response user a = record {
  developer_id = user.external_id;
  daily_limit = shown_limit user.daily_limit;
  used_today = user.used_today;
  keys = map key_metadata (
      sort_by (λ j k. leb j.created_at k.created_at)
        (select_where (λ k. str_eq k.user_id user.id) a.keys));
}

unfoldable pub developer_usage : ℕ → String → Accounts → Attempt UsageResponse
unfolding find_user_by_external_id ensure_daily_usage_row build_usage_response
developer_usage today developer_id a = do
  user ← find_user_by_external_id today developer_id a
  let seeded = ensure_daily_usage_row today user.id a
  again ← find_user_by_external_id today developer_id seeded
  ok (seeded, build_usage_response again seeded)

unfoldable pub list_developer_keys : ℕ → String → Accounts → Attempt UsageResponse
unfolding developer_usage
list_developer_keys today developer_id a = developer_usage today developer_id a

-- The accounts in the order of `created_at`.
unfoldable pub list_all_user_usage : ℕ → Accounts → List UsageResponse
unfolding sort_by build_usage_response
list_all_user_usage today a =
    map (λ u. build_usage_response (usage_user today a.usage u) a)
      (sort_by (λ u v. leb u.created_at v.created_at) (select_where has_api_role a.users))

-- `value.max(1) as i32`
abbrev pub stored_limit : ℕ → ℕ
stored_limit value = max value 1 % 2 ^ 32

unfoldable pub update_user_quota : String → Option ℕ → Accounts → Attempt (Unit {0})
update_user_quota developer_id daily_limit a =
    if any (is_api_user developer_id) a.users
    then ok (
      record a {
        users =
            update_where (is_api_user developer_id)
              (λ u. record u {
                daily_limit = elim daily_limit [ none ↦ u.daily_limit | some v ↦ stored_limit v ];
              })
              a.users;
      },
      tt,
    )
    else err (not_found "user not found")
