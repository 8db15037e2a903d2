-- ===== src/Crawl/Frontier.antt =====
-- services/api/src/crawl/frontier.rs: claiming jobs, accepting a report, the frontier's depth.
pub mod Candidates
pub mod Claims
pub mod Concurrency
pub mod Exclusion
use find_verse.Crawl.Rows.{Job, Origin, claimed, ingesting, is_active, is_queued, holds}
use find_verse.Prelude.{
  ℕ, suc, ◌+◌, max, List, [], ◌∷◌, String, Option, none, some, Bool, true, false, not, ◌&&◌, ◌||◌,
  str_eq, leb, ltb, ◌==◌, any, take, is_empty, select_where, update_where, count_where, sort_by,
  if◌then◌else◌,
}

abbrev pub owned : String → Job → Bool
owned owner j = str_eq j.owner owner

-- The jobs of an owner's origin that are held by a crawler: the CTE `active_counts`.
abbrev pub holds_slot : String → String → Job → Bool
holds_slot owner key j = owned owner j && is_active j.status && str_eq j.origin key

unfoldable pub active_count : String → String → List Job → ℕ
active_count owner key jobs = count_where (holds_slot owner key) jobs

-- The join with `crawl_origins`, whose key is the owner and the origin.
unfoldable pub find_origin : String → String → List Origin → Option Origin
find_origin owner key [] = none
find_origin owner key (o ∷ os) =
    if str_eq o.owner owner && str_eq o.key key then some o else find_origin owner key os

abbrev pub retry_due : Option ℕ → ℕ → Bool
retry_due none now = true
retry_due (some t) now = leb t now

-- A row of the CTE `ranked_jobs`.
pub record Ranked : Type 0 where
  pub job : Job
  pub next_allowed_at : ℕ
  pub active : ℕ
  pub rank : ℕ

-- `order by priority desc, discovered_at asc`
abbrev pub rank_order : Job → Job → Bool
rank_order a b =
    ltb b.priority a.priority || a.priority == b.priority && leb a.discovered_at b.discovered_at

-- `order by next_allowed_at asc, priority desc, discovered_at asc`
abbrev pub claim_order : Ranked → Ranked → Bool
claim_order a b =
    ltb a.next_allowed_at b.next_allowed_at
    || a.next_allowed_at == b.next_allowed_at && rank_order a.job b.job

abbrev pub slots : Job → ℕ
slots j = max j.same_origin_concurrency 1

module _ (owner : String) (has_js : Bool) (now : ℕ) (origins : List Origin) where
  abbrev pub allowed : Option Origin → Bool
  allowed none = false
  allowed (some o) = leb o.next_allowed_at now

  -- The condition of the CTE `ranked_jobs`.
  abbrev pub claimable : Job → Bool
  claimable j =
      owned owner j
      && is_queued j.status
      && retry_due j.next_retry_at now
      && allowed (find_origin owner j.origin origins)
      && (has_js || not j.requires_js)

  abbrev pub ready_at : Option Origin → ℕ
  ready_at none = 0
  ready_at (some o) = o.next_allowed_at

  -- `row_number() over (partition by origin_key …)` for jobs in that order; `seen` holds those
  -- that stand before.
  pub number_rows : List Job → List Job → List Job → List Ranked
  unfolding active_count
  number_rows jobs seen [] = []
  number_rows jobs seen (j ∷ js) =
      record {
        job = j;
        next_allowed_at = ready_at (find_origin owner j.origin origins);
        active = active_count owner j.origin jobs;
        rank = suc (count_where (λ s. str_eq s.origin j.origin) seen);
      }
      ∷ number_rows jobs (j ∷ seen) js

  pub ranked_jobs : List Job → List Ranked
  unfolding number_rows sort_by
  ranked_jobs jobs = number_rows jobs [] (sort_by rank_order (select_where claimable jobs))

  abbrev pub has_slot : Ranked → Bool
  has_slot r = leb (r.active + r.rank) (slots r.job)

  -- The CTE `candidate_jobs`.
  unfoldable pub candidate_jobs : ℕ → List Job → List Ranked
  unfolding ranked_jobs
  candidate_jobs limit jobs =
      take limit (sort_by claim_order (select_where has_slot (ranked_jobs jobs)))

abbrev pub names_job : List Ranked → Job → Bool
names_job rows j = any (λ r. str_eq r.job.id j.id) rows

-- The columns that the CTE `claimed` sets.
unfoldable pub claim_job : String → String → ℕ → Job → Job
claim_job crawler_id lease_id now j = record j {
  status = claimed;
  claimed_by = some crawler_id;
  claimed_at = some now;
  lease_id = some lease_id;
  attempt_count = j.attempt_count + 1;
}

abbrev of_origin : String → Origin → Bool
of_origin owner o = str_eq o.owner owner

-- `touched_origins`: each origin of the owner counts the jobs that were claimed from it.
unfoldable pub count_in_flight : String → ℕ → List Ranked → List Origin → List Origin
count_in_flight owner now rows origins =
    update_where (λ o. str_eq o.owner owner && any (λ r. str_eq r.job.origin o.key) rows)
      (λ o. record o {
        in_flight_count = o.in_flight_count + count_where (λ r. str_eq r.job.origin o.key) rows;
        updated_at = now;
      })
      origins

-- The new `crawl_jobs` and `crawl_origins`, and the jobs that were claimed.
unfoldable pub claim_jobs :
    String
    → String
    → String
    → ℕ
    → Bool
    → ℕ
    → List Origin
    → List Job
    → List Job × List Origin × List Ranked
unfolding candidate_jobs claim_job count_in_flight
claim_jobs owner crawler_id lease_id max_jobs has_js now origins jobs =
    let rows = candidate_jobs owner has_js now origins (max max_jobs 1) jobs in
    (
      update_where (names_job rows) (claim_job crawler_id lease_id now) jobs,
      count_in_flight owner now rows origins,
      rows,
    )

-- `report_job_url`: the address of a job that this lease of this crawler holds.
unfoldable pub report_job_url : String → String → String → String → List Job → Option String
report_job_url owner crawler_id lease_id job_id [] = none
report_job_url owner crawler_id lease_id job_id (j ∷ js) =
    if owned owner j
      && str_eq j.id job_id
      && holds j.claimed_by crawler_id
      && holds j.lease_id lease_id
    then some j.url
    else report_job_url owner crawler_id lease_id job_id js

abbrev pub accepts : String → String → String → List String → Job → Bool
accepts owner crawler_id lease_id ids j =
    owned owner j
    && holds j.claimed_by crawler_id
    && holds j.lease_id lease_id
    && is_active j.status
    && any (λ i. str_eq j.id i) ids

unfoldable pub accept_report : String → String → String → List String → List Job → List Job
accept_report owner crawler_id lease_id ids jobs =
    if is_empty ids
    then jobs
    else update_where (accepts owner crawler_id lease_id ids) (λ j. record j { status = ingesting })
        jobs

unfoldable pub frontier_depth : String → List Job → ℕ
frontier_depth owner jobs = count_where (λ j. owned owner j && is_queued j.status) jobs
