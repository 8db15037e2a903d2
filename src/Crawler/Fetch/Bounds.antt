-- ===== src/Crawler/Fetch/Bounds.antt =====
-- The loops of services/crawler/src/fetch.rs end, and how.
use find_verse.External.{Platform}
use find_verse.Crawler.Fetch.{
  Turn, done, redirected, turn, Response, request_error, blocked_by_robots, too_many_redirects,
  FetchResult, fetched, refused, Network, max_redirects, next_url, visit, follow, fetch_once,
  retry_backoff, retry, fetch_with_retry,
}
use find_verse.Prelude.{
  ℕ, zero, suc, ◌+◌, ◌≤◌, ◌<◌, List, [], ◌∷◌, ◌++◌, String, Option, none, some, Bool, true, false,
  ◌≡◌, refl, ◌==◌, ◌||◌, leb, length, length-append, Option-cases, if_elim, inl, inr, arith,
}

-- A page comes after ten redirects at most; one that is given up for its redirects had ten before.
abbrev pub IsBounded : FetchResult → Type 0
IsBounded (fetched o) = length o.redirect_chain ≤ 10
IsBounded (refused (too_many_redirects chain)) = length chain ≡ 11
IsBounded (refused error) = Unit

-- The answer is final: it is no sign of a server in trouble, or the retries are used up.
abbrev pub IsSettled : ℕ → FetchResult → Type 0
IsSettled attempt (fetched o) =
    (o.response.status == 429 || leb 500 o.response.status) ≡ true → attempt ≡ 3
IsSettled attempt (refused request_error) = attempt ≡ 3
IsSettled attempt (refused error) = Unit

IsTurn : List String → Turn → Type 0
IsTurn chain (done result) = IsBounded result
IsTurn chain (redirected location) = length chain < 10

turn-IsTurn :
    (platform : Platform) (network : Network) (url : String) (chain : List String)
    (answer : Option Response) (refusal : Option String)
    → length chain ≤ 10
    → IsTurn chain (turn platform network url chain answer refusal)
unfolding turn IsTurn
turn-IsTurn platform network url chain answer (some status) short = tt
turn-IsTurn platform network url chain none none short = tt
turn-IsTurn platform network url chain (some r) none short =
    elim (Option-cases (next_url platform network url r)) [
      | inl e ↦ rw e short
      | inr (location, e) ↦ rw e (
          if_elim (IsTurn chain) (leb max_redirects (length chain))
            (λ full. ground (arith, length-append chain (location ∷ []))) (λ room. ground arith))
    ]

module _ (platform : Platform) (network : Network) where
  open network use {World}

  follow_ends :
      (fuel : ℕ) (first : Bool) (url : String) (chain : List String) (w : World)
      → length chain ≤ 10
      → 11 < fuel + length chain
      → (out : World × FetchResult) × (follow platform network fuel first url chain w ≡ some out)
        × IsBounded out.1
  unfolding follow IsTurn
  follow_ends zero first url chain w short f = absurd (omega arith)
  follow_ends (suc fuel) first url chain w short f =
      let v = visit platform network first url w in
      elim (turn platform network url chain v.1 v.2)
          as (λ t.
            IsTurn chain t
            → (out : World × FetchResult) × (elim t [
              | done result ↦ some (v.0, result)
              | redirected location ↦
                  follow platform network fuel false location (chain ++ location ∷ []) v.0
            ]
                ≡ some out)
              × IsBounded out.1) [
                | done result ↦ λ h. ((v.0, result), refl, h)
                | redirected location ↦ λ h.
                    follow_ends fuel false location (chain ++ location ∷ []) v.0
                      (omega (arith, length-append chain (location ∷ [])))
                      (omega (arith, length-append chain (location ∷ [])))
              ]
        (turn-IsTurn platform network url chain v.1 v.2 short)

  settled :
      (attempt : ℕ) (result : FetchResult)
      → attempt ≤ 3
      → retry_backoff platform network attempt result ≡ none
      → IsSettled attempt result
  unfolding retry_backoff
  settled attempt (fetched o) le e = λ bad. ground arith
  settled attempt (refused request_error) le e = ground arith
  settled attempt (refused (blocked_by_robots url status)) le e = tt
  settled attempt (refused (too_many_redirects chain)) le e = tt

  waits :
      (attempt secs : ℕ) (result : FetchResult)
      → retry_backoff platform network attempt result ≡ some secs
      → attempt < 3
  unfolding retry_backoff
  waits attempt secs (fetched o) e = ground arith
  waits attempt secs (refused request_error) e = ground arith
  waits attempt secs (refused (blocked_by_robots url status)) e = absurd (ground arith)
  waits attempt secs (refused (too_many_redirects chain)) e = absurd (ground arith)

  fetch_once_ends :
      (url : String) (w : World)
      → (out : World × FetchResult) × (fetch_once platform network url w ≡ some out)
        × IsBounded out.1
  unfolding fetch_once
  fetch_once_ends url w = follow_ends 12 true url [] w (omega arith) (omega arith)

  retry_ends :
      (fuel attempt : ℕ) (url : String) (w : World)
      → attempt ≤ 3
      → 3 < fuel + attempt
      → (out : World × FetchResult × ℕ) × (retry platform network fuel attempt url w ≡ some out)
        × (out.2 ≤ 3)
        × IsBounded out.1
        × IsSettled out.2 out.1
  unfolding retry
  retry_ends zero attempt url w le f = absurd (omega arith)
  retry_ends (suc fuel) attempt url w le f =
      let once = fetch_once_ends url w in
      let (w', result) = once.0 in
      elim (Option-cases (retry_backoff platform network attempt result)) [
        | inl e ↦ (
          (w', result, attempt),
          rw (retry, once.1, e) refl,
          le,
          once.2,
          settled attempt result le e,
        )
        | inr (secs, e) ↦
            let more = waits attempt secs result e in
            let rest =
              retry_ends fuel (attempt + 1) url (network.sleep_secs secs w') (omega arith)
                (omega arith) in
            (rest.0, rw (retry, once.1, e) rest.1, rest.2, rest.3, rest.4)
      ]

-- For any network, `fetch_with_retry` returns, after three retries at most; a page comes with at most
-- ten redirects, and an answer of 429 or 5xx or a failed request only after all three retries.
pub fetch_with_retry_returns :
    (platform : Platform) (network : Network) (url : String) (w : network.World)
    → (out : network.World × FetchResult × ℕ) × (fetch_with_retry platform network url w ≡ some out)
      × (out.2 ≤ 3)
      × IsBounded out.1
      × IsSettled out.2 out.1
unfolding fetch_with_retry
fetch_with_retry_returns platform network url w =
    retry_ends platform network 4 0 url w (omega arith) (omega arith)
