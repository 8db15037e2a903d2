-- ===== src/Examples/Queue.antt =====
-- The theorems on the frontier, applied.
use find_verse.Crawl.Table.{HasUniqueIds}
use find_verse.Crawl.Frontier.{active_count, claim_jobs}
use find_verse.Crawl.Frontier.Claims.{MayRun, claim_jobs-MayRun}
use find_verse.Crawl.Frontier.{names_job}
use find_verse.Crawl.Frontier.Exclusion.{claim_jobs-claim_jobs}
use find_verse.Crawl.Frontier.Concurrency.{claim_jobs-active_count-le}
use find_verse.Crawl.Enqueue.{in_budget, enqueue_urls}
use find_verse.Crawl.Enqueue.Budget.{enqueue_urls-budget-le}
use find_verse.Crawl.Lifecycle.Keys.{IsFresh}
use find_verse.Crawl.Lifecycle.Sound.{IsSound}
use find_verse.Crawl.Lifecycle.Reach.{Step, Reach, Reach-IsSound, ◌followed_by◌, claim, enqueue}
use find_verse.Examples.Data.{
  sample_platform, open_index, tally_id, two_jobs, two_seeds, host_origin, db_of,
}
use find_verse.Prelude.{
  ◌≡◌, ℕ, zero, suc, ◌≤◌, ◌∷◌, [], false, ◌≢◌, ap, refl, length, count_where, eq_iff, All, arith,
}

two_jobs-HasUniqueIds : HasUniqueIds two_jobs
two_jobs-HasUniqueIds = ((λ e. ground (arith, eq_iff "1" "2"), tt), (tt, tt))

claim_jobs-active_count-le_example :
    active_count "owner" "https://host"
      (claim_jobs "owner" "crawler" "lease" 5 false 10 (host_origin ∷ []) two_jobs).0
    ≤ 1
unfolding active_count
claim_jobs-active_count-le_example =
    claim_jobs-active_count-le "owner" "crawler" "lease" 5 false 10 (host_origin ∷ []) two_jobs
      "https://host" 1 two_jobs-HasUniqueIds ((λ o k. omega arith), ((λ o k. omega arith), tt))
      (omega arith)

claim_jobs-MayRun_example :
    All
      (λ r. MayRun "owner" false 10 (host_origin ∷ []) r.job)
      (claim_jobs "owner" "crawler" "lease" 5 false 10 (host_origin ∷ []) two_jobs).2
    × (length (claim_jobs "owner" "crawler" "lease" 5 false 10 (host_origin ∷ []) two_jobs).2 ≤ 5)
claim_jobs-MayRun_example =
    claim_jobs-MayRun "owner" "crawler" "lease" 5 false 10 (host_origin ∷ []) two_jobs

enqueue_urls-budget-le_example :
    count_where
      (in_budget "owner" "budget")
      (enqueue_urls sample_platform [] two_seeds 0 tally_id [] []).jobs
    ≤ 2
enqueue_urls-budget-le_example =
    enqueue_urls-budget-le sample_platform [] two_seeds 0 tally_id [] []

tally_id_distinct : (m n : ℕ) → m ≢ n → tally_id m ≢ tally_id n
tally_id_distinct zero zero d e = d refl
tally_id_distinct zero (suc n) d e = cc
tally_id_distinct (suc m) zero d e = cc
tally_id_distinct (suc m) (suc n) d e = tally_id_distinct m n (λ k. d (ap suc k)) cc

tally_id-IsFresh : IsFresh tally_id []
tally_id-IsFresh = record { unused = λ n. tt; distinct = tally_id_distinct }

empty-IsSound : IsSound []
empty-IsSound = record { rows = tt; ids = tt; urls = tt }

-- Three addresses are offered, and the two that the budget allows are claimed.
Reach-IsSound_example :
    IsSound
      (claim "owner" "crawler" "lease" 5 false 10
        (enqueue sample_platform two_seeds 0 tally_id (db_of []))).jobs
Reach-IsSound_example =
    Reach-IsSound sample_platform open_index (db_of [])
      (claim "owner" "crawler" "lease" 5 false 10
        (enqueue sample_platform two_seeds 0 tally_id (db_of [])))
      (Step.enqueued two_seeds 0 tally_id (db_of []) tally_id-IsFresh
        followed_by Step.claimed "owner" "crawler" "lease" 5 false 10
            (enqueue sample_platform two_seeds 0 tally_id (db_of []))
        followed_by Reach.here (
            claim "owner" "crawler" "lease" 5 false 10
              (enqueue sample_platform two_seeds 0 tally_id (db_of []))))
      empty-IsSound

claim_jobs-claim_jobs_example :
    let first = claim_jobs "owner" "crawler" "lease" 1 false 10 (host_origin ∷ []) two_jobs in
    All
      (λ r. names_job first.2 r.job ≡ false)
      (claim_jobs "owner" "other" "other-lease" 5 false 11 (host_origin ∷ []) first.0).2
claim_jobs-claim_jobs_example =
    claim_jobs-claim_jobs "owner" "crawler" "lease" 1 false 10 (host_origin ∷ []) two_jobs "owner"
      "other" "other-lease" 5 false 11 (host_origin ∷ [])
