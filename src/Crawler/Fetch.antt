-- ===== src/Crawler/Fetch.antt =====
-- services/crawler/src/fetch.rs: `fetch_once`, which follows redirects, and `fetch_with_retry`. What
-- the network, the clock and the cache of robots.txt files are is a world that every call changes;
-- the calls into it are parameters.
pub mod Bounds
use find_verse.External.{Platform}
use find_verse.Prelude.{
  ℕ, zero, suc, ◌+◌, ◌*◌, max, List, [], ◌∷◌, ◌++◌, String, Option, none, some, Bool, true, false,
  ◌&&◌, ◌||◌, ltb, leb, ◌==◌, length, unwrap_or, if◌then◌else◌,
}

-- The parts of an answer that the loops read.
pub record Response : Type 0 where
  pub status : ℕ
  pub location : Option String
  pub retry_after_secs : Option ℕ

pub record FetchedResponse : Type 0 where
  pub response : Response
  pub redirect_chain : List String

pub data FetchWorkflowError : Type 0 where
  request_error : FetchWorkflowError
  blocked_by_robots : (url status : String) → FetchWorkflowError
  too_many_redirects : (chain : List String) → FetchWorkflowError

pub data FetchResult : Type 0 where
  fetched : FetchedResponse → FetchResult
  refused : FetchWorkflowError → FetchResult

-- Whether the loop returns or goes on to the next address.
pub data Turn : Type 0 where
  done : FetchResult → Turn
  redirected : String → Turn

-- Status 300 to 399.
abbrev pub is_redirection : ℕ → Bool
is_redirection status = leb 300 status && ltb status 400

-- The calls into the world: whether robots.txt allows an address, the wait for its origin's turn, the
-- request, which carries the validators of the cache the first time, and the wait before a retry.
pub record Network : Type 1 where
  pub World : Type 0
  pub inspect_robots : String → World → World × Bool × String
  pub rate_limit_origin : String → World → World
  pub send : Bool → String → World → World × Option Response
  pub sleep_secs : ℕ → World → World

abbrev pub max_redirects : ℕ
max_redirects = 10

abbrev pub max_retries : ℕ
max_retries = 3

abbrev pub pow2 : ℕ → ℕ
pow2 zero = 1
pow2 (suc n) = 2 * pow2 n

module _ (platform : Platform) (network : Network) where
  open platform use {parse, join_url, to_string}
  open network use {World, inspect_robots, rate_limit_origin, send, sleep_secs}

  joined : Option platform.Url → Option String
  joined none = none
  joined (some url) = some (to_string url)

  base_joined : String → Option platform.Url → Option String
  unfolding joined
  base_joined location none = none
  base_joined location (some base) = joined (join_url base location)

  unfoldable pub resolve_redirect : String → String → Option String
  unfolding base_joined
  resolve_redirect base location = base_joined location (parse base)

  -- Where an answer leads to; `none` for an answer that ends the loop.
  unfoldable pub next_url : String → Response → Option String
  unfolding resolve_redirect
  next_url current r =
      if is_redirection r.status
      then elim r.location [ none ↦ none | some location ↦ resolve_redirect current location ]
      else none

  -- One request of the loop: the answer, or the status of the robots.txt that forbids it.
  unfoldable pub visit : Bool → String → World → World × Option Response × Option String
  visit first url w =
      let (w', allowed, status) = inspect_robots url w in
      let (w'', answer) = send first url (rate_limit_origin url w') in
      if allowed then (w'', answer, none) else (w', none, some status)

  abbrev pub redirect : List String → Response → Option String → Turn
  redirect chain r none = done (fetched (record { response = r; redirect_chain = chain }))
  redirect chain r (some location) =
      if leb max_redirects (length chain)
      then done (refused (too_many_redirects (chain ++ location ∷ [])))
      else redirected location

  -- What the loop makes of it.
  unfoldable pub turn : String → List String → Option Response → Option String → Turn
  unfolding next_url
  turn url chain answer (some status) = done (refused (blocked_by_robots url status))
  turn url chain none none = done (refused request_error)
  turn url chain (some r) none = redirect chain r (next_url url r)

  -- The loop of `fetch_once`, on fuel; `none` means that the fuel ran out.
  unfoldable pub follow : ℕ → Bool → String → List String → World → Option (World × FetchResult)
  unfolding visit turn
  follow zero first url chain w = none
  follow (suc fuel) first url chain w =
      let (w', answer, refusal) = visit first url w in
      let rest = λ (location : String). follow fuel false location (chain ++ location ∷ []) w' in
      elim (turn url chain answer refusal) [
        | done result ↦ some (w', result)
        | redirected location ↦ rest location
      ]

  -- Eleven requests are followed at most, so that twelve rounds are enough.
  unfoldable pub fetch_once : String → World → Option (World × FetchResult)
  unfolding follow
  fetch_once url w = follow 12 true url [] w

  -- How long to wait before the next attempt; `none` where the answer is final.
  unfoldable pub retry_backoff : ℕ → FetchResult → Option ℕ
  retry_backoff attempt (fetched o) =
      if (o.response.status == 429 || leb 500 o.response.status) && ltb attempt max_retries
      then some (max (unwrap_or o.response.retry_after_secs 0) (pow2 attempt))
      else none
  retry_backoff attempt (refused request_error) =
      if ltb attempt max_retries then some (pow2 attempt) else none
  retry_backoff attempt (refused error) = none

  -- The loop of `fetch_with_retry`, on fuel, with the number of retries that it took.
  unfoldable pub retry : ℕ → ℕ → String → World → Option (World × FetchResult × ℕ)
  unfolding fetch_once retry_backoff
  retry zero attempt url w = none
  retry (suc fuel) attempt url w =
      let again = λ (secs : ℕ) (w' : World). retry fuel (attempt + 1) url (sleep_secs secs w') in
      elim (fetch_once url w) [
        | none ↦ none
        | some out ↦ elim (retry_backoff attempt (out.1)) [
          | none ↦ some (out.0, out.1, attempt)
          | some secs ↦ again secs out.0
        ]
      ]

  -- One attempt and three retries, so that four rounds are enough.
  unfoldable pub fetch_with_retry : String → World → Option (World × FetchResult × ℕ)
  unfolding retry
  fetch_with_retry url w = retry 4 0 url w
