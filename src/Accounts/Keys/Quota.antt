-- ===== src/Accounts/Keys/Quota.antt =====
-- The daily quota of services/api/src/store/developer.rs over a sequence of requests with one key.
use find_verse.External.{Platform}
use find_verse.Common.Error.{ApiError, too_many_requests, ok, err, is_ok}
use find_verse.Accounts.{User, ApiKey, Usage, Accounts}
use find_verse.Accounts.Support.{bearer_hash}
use find_verse.Accounts.Keys.{
  is_live_key, may_own, key_owner, can_count, count_request, touch_key, track_key, track_owner,
  validate_with, validate_and_track_developer_key,
}
use find_verse.Accounts.Limits.{is_signed, find_row, is_usage_of, used_today, seed_usage}
use find_verse.Prelude.{
  ℕ, zero, suc, ◌+◌, ◌-◌, ◌≤◌, min, List, [], ◌∷◌, String, none, some, Bool, true, false, ◌≡◌, refl,
  ap, eq_refl, ◌∙◌, ltb, str_eq, any, count_where, update_where, count_where-update_where, arith,
  if◌then◌else◌,
}

-- The requests per day that a limit admits: a negative one admits none.
abbrev pub quota : User → ℕ
quota u = if is_signed u.daily_limit then 0 else u.daily_limit

-- What an account has used on a day.
abbrev pub used : ℕ → User → Accounts → ℕ
used today u a = used_today today u.id a.usage

-- The row of a day, which the primary key makes the only one.
abbrev pub rows_today : ℕ → User → List Usage → ℕ
rows_today today u usage = count_where (is_usage_of u.id today) usage

no_row_counts :
    (today : ℕ) (u : User) (usage : List Usage)
    → rows_today today u usage ≡ 0
    → any (can_count today u) usage ≡ false
no_row_counts today u [] h = refl
no_row_counts today u (x ∷ xs) h = ground (arith, no_row_counts today u xs)

no_row_used :
    (today : ℕ) (u : User) (usage : List Usage)
    → rows_today today u usage ≡ 0
    → used_today today u.id usage ≡ 0
no_row_used today u [] h = refl
no_row_used today u (x ∷ xs) h = ground (arith, no_row_used today u xs)

row_counts :
    (today : ℕ) (u : User) (usage : List Usage)
    → rows_today today u usage ≡ 1
    → any (can_count today u) usage ≡ ltb (used_today today u.id usage) (quota u)
row_counts today u [] h = absurd (omega arith)
row_counts today u (x ∷ xs) h = ground (arith, row_counts today u xs, no_row_counts today u xs)

row_used :
    (today : ℕ) (u : User) (usage : List Usage)
    → rows_today today u usage ≡ 1
    → used_today today u.id (update_where (can_count today u) count_request usage) ≡ (
        if ltb (used_today today u.id usage) (quota u)
        then suc (used_today today u.id usage)
        else used_today today u.id usage)
unfolding count_request
row_used today u [] h = absurd (omega arith)
row_used today u (x ∷ xs) h = ground (arith, row_used today u xs)

row_seeded :
    (today : ℕ) (u : User) (usage : List Usage)
    → rows_today today u usage ≡ 1
    → seed_usage today u.id usage ≡ usage
unfolding seed_usage
row_seeded today u usage h = rw (has usage h) refl
  where
    has : (xs : List Usage) → rows_today today u xs ≡ 1 → any (is_usage_of u.id today) xs ≡ true
    has [] e = absurd (omega arith)
    has (x ∷ xs) e = ground (arith, has xs)

-- A request touches the key's row at most, so that its owner stays.
touched_owner :
    (now : ℕ) (t : String) (users : List User) (counted : Bool) (keys : List ApiKey)
    → let touched =
        if counted then update_where (λ k. str_eq k.token_hash t) (touch_key now) keys else keys in
      (elim (find_row (is_live_key t) touched) [
        | none ↦ none
        | some k ↦ find_row (may_own k) users
      ])
      ≡ (elim (find_row (is_live_key t) keys) [ none ↦ none | some k ↦ find_row (may_own k) users ])
unfolding touch_key
touched_owner now t users false keys = refl
touched_owner now t users true [] = refl
touched_owner now t users true (k ∷ ks) = ground (arith, touched_owner now t users true ks)

owner_kept :
    (today now : ℕ) (t : String) (u : User) (a : Accounts)
    → key_owner t (track_key today now t u a).0 ≡ key_owner t a
unfolding key_owner track_key
owner_kept today now t u a = touched_owner now t a.users (any (can_count today u) a.usage) a.keys

rows_kept :
    (today : ℕ) (u : User) (usage : List Usage)
    → rows_today today u (update_where (can_count today u) count_request usage)
      ≡ rows_today today u usage
unfolding count_request
rows_kept today u usage =
    count_where-update_where (is_usage_of u.id today) (can_count today u) count_request
      (λ x t. refl) usage

-- One request against a row of the day: it is counted exactly while the quota lasts.
track_step :
    (today now : ℕ) (t : String) (u : User) (a : Accounts)
    → rows_today today u a.usage ≡ 1
    → let out = track_key today now t u a in
      let room = ltb (used today u a) (quota u) in
      (out.1 ≡ room)
      × (rows_today today u out.0.usage ≡ 1)
      × (used today u out.0 ≡ (if room then suc (used today u a) else used today u a))
unfolding track_key
track_step today now t u a h =
    let next = update_where (can_count today u) count_request a.usage in
    let one = rows_kept today u a.usage ∙ h in
    let same = row_seeded today u next one in
    (
      row_counts today u a.usage h,
      ap (rows_today today u) same ∙ one,
      ap (used_today today u.id) same ∙ row_used today u a.usage h,
    )

no_row_found :
    (today : ℕ) (u : User) (usage : List Usage)
    → rows_today today u usage ≡ 0
    → any (is_usage_of u.id today) usage ≡ false
no_row_found today u [] h = refl
no_row_found today u (x ∷ xs) h = ground (arith, no_row_found today u xs)

new_row :
    (today : ℕ) (u : User)
    → is_usage_of u.id today (record { user_id = u.id; usage_day = today; used_count = 0 }) ≡ true
new_row today u = ground (arith, eq_refl u.id)

seeded_first :
    (today : ℕ) (u : User) (usage : List Usage)
    → rows_today today u usage ≡ 0
    → (rows_today today u (seed_usage today u.id usage) ≡ 1)
      × (used_today today u.id (seed_usage today u.id usage) ≡ 0)
unfolding seed_usage
seeded_first today u usage h =
    rw (no_row_found today u usage h)
      (rw (new_row today u) (ap suc h), rw (used_today, find_row, new_row today u) refl)

-- The first request of a day finds no row to count in, and leaves one that has counted nothing.
track_first :
    (today now : ℕ) (t : String) (u : User) (a : Accounts)
    → rows_today today u a.usage ≡ 0
    → let out = track_key today now t u a in
      (out.1 ≡ false) × (rows_today today u out.0.usage ≡ 1) × (used today u out.0 ≡ 0)
unfolding track_key
track_first today now t u a h =
    let next = update_where (can_count today u) count_request a.usage in
    let seeded = seeded_first today u next (rows_kept today u a.usage ∙ h) in
    (no_row_counts today u a.usage h, seeded.0, seeded.1)

is_ok_if : (b : Bool) (e : ApiError) → is_ok {0} (if b then ok tt else err e) ≡ b
is_ok_if true e = refl
is_ok_if false e = refl

module _ (platform : Platform) (today now : ℕ) (header : String) where
  -- `n` requests in a row with one header, and how many of them are accepted.
  abbrev pub requests : ℕ → Accounts → Accounts × ℕ
  requests zero a = (a, 0)
  requests (suc n) a =
      let out = validate_and_track_developer_key platform today now (some header) a in
      let rest = requests n out.0 in (rest.0, if is_ok out.1 then suc rest.1 else rest.1)

  validate_tracks :
      (t : String) (u : User) (a : Accounts)
      → bearer_hash platform header ≡ ok t
      → key_owner t a ≡ some u
      → let out = validate_and_track_developer_key platform today now (some header) a in
        let tracked = track_key today now t u a in
        (out.0 ≡ tracked.0) × (is_ok out.1 ≡ tracked.1) × (key_owner t out.0 ≡ some u)
  unfolding validate_and_track_developer_key validate_with track_owner
  validate_tracks t u a e o =
      rw (e, o)
        (
          refl,
          is_ok_if (track_key today now t u a).1 (too_many_requests "daily request quota exceeded"),
          owner_kept today now t u a ∙ o,
        )

  -- `n` requests of a day with one key, when the day's row is there, its count within the quota: as
  -- many are accepted as the quota leaves, all `n` when it leaves more, and each is counted.
  pub requests_lem :
      (t : String) (u : User) (n : ℕ) (a : Accounts)
      → bearer_hash platform header ≡ ok t
      → key_owner t a ≡ some u
      → rows_today today u a.usage ≡ 1
      → used today u a ≤ quota u
      → let accepted = min n (quota u - used today u a) in
        ((requests n a).1 ≡ accepted) × (used today u (requests n a).0 ≡ used today u a + accepted)
  requests_lem t u zero a e o r h = (omega arith, omega arith)
  requests_lem t u (suc n) a e o r h =
      let out = validate_and_track_developer_key platform today now (some header) a in
      let v = validate_tracks t u a e o in
      let step = track_step today now t u a r in
      let r' : rows_today today u out.0.usage ≡ 1 =
        ap (λ b. rows_today today u b.usage) v.0 ∙ step.1 in
      let c = ap (used today u) v.0 ∙ step.2 in
      let counted = v.1 ∙ step.0 in
      let ih = requests_lem t u n out.0 e v.2 r' in ground (arith, ih, c, counted)

  -- When the account of a key has no row of usage for the day, as long as nothing has seeded one, the
  -- first request with the key is refused, whatever the quota, and of the `n` requests after it as many
  -- are accepted as the quota admits.
  pub requests-first :
      (t : String) (u : User) (n : ℕ) (a : Accounts)
      → bearer_hash platform header ≡ ok t
      → key_owner t a ≡ some u
      → rows_today today u a.usage ≡ 0
      → ((requests 1 a).1 ≡ 0) × ((requests (suc n) a).1 ≡ min n (quota u))
  requests-first t u n a e o r =
      let out = validate_and_track_developer_key platform today now (some header) a in
      let v = validate_tracks t u a e o in
      let first = track_first today now t u a r in
      let r' : rows_today today u out.0.usage ≡ 1 =
        ap (λ b. rows_today today u b.usage) v.0 ∙ first.1 in
      let c : used today u out.0 ≡ 0 = ap (used today u) v.0 ∙ first.2 in
      let refused = v.1 ∙ first.0 in
      let later = requests_lem t u n out.0 e v.2 r' in ground (arith, later, c, refused)
