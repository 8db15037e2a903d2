-- ===== src/Crawl/Frontier/Exclusion.antt =====
-- Two claims in a row (services/api/src/crawl/frontier.rs).
use find_verse.Crawl.Rows.{Job, Origin, is_queued}
use find_verse.Crawl.Frontier.{Ranked, candidate_jobs, names_job, claim_job, claim_jobs}
use find_verse.Crawl.Frontier.Candidates.{candidate_jobs-All}
use find_verse.Prelude.{
  ℕ, max, List, [], ◌∷◌, String, Bool, true, false, ◌≡◌, Elem-All, All, update_where, if_elim,
  arith,
}

-- A row that is queued after a claim was not handed out by it.
abbrev Spared : List Ranked → Job → Type 0
Spared rows j = is_queued j.status ≡ true → names_job rows j ≡ false

claimed_table-Spared :
    (crawler_id lease_id : String) (now : ℕ) (rows : List Ranked) (jobs : List Job)
    → All (Spared rows) (update_where (names_job rows) (claim_job crawler_id lease_id now) jobs)
unfolding claim_job
claimed_table-Spared crawler_id lease_id now rows [] = tt
claimed_table-Spared crawler_id lease_id now rows (j ∷ js) = (
  if_elim (Spared rows) (names_job rows j) (λ _ q. absurd (ground arith)) (λ e _. e),
  claimed_table-Spared crawler_id lease_id now rows js,
)

-- The table that a claim leaves is claimed from again, by any crawler, at any time and with any
-- state of the origins: no job is handed out twice.
pub claim_jobs-claim_jobs :
    (owner crawler_id lease_id : String) (max_jobs : ℕ) (has_js : Bool) (now : ℕ)
    (origins : List Origin) (jobs : List Job) (owner' crawler_id' lease_id' : String)
    (max_jobs' : ℕ) (has_js' : Bool) (now' : ℕ) (origins' : List Origin)
    → let first = claim_jobs owner crawler_id lease_id max_jobs has_js now origins jobs in
      All
        (λ r. names_job first.2 r.job ≡ false)
        (claim_jobs owner' crawler_id' lease_id' max_jobs' has_js' now' origins' first.0).2
unfolding claim_jobs
claim_jobs-claim_jobs owner crawler_id lease_id max_jobs has_js now origins jobs owner' crawler_id'
      lease_id' max_jobs' has_js' now' origins' =
    let rows = candidate_jobs owner has_js now origins (max max_jobs 1) jobs in
    let table = update_where (names_job rows) (claim_job crawler_id lease_id now) jobs in
    candidate_jobs-All owner' has_js' now' origins' (λ j. names_job rows j ≡ false)
      (max max_jobs' 1) table
      (λ j t m.
        Elem-All (Spared rows) j table (claimed_table-Spared crawler_id lease_id now rows jobs) m
          (ground arith))
