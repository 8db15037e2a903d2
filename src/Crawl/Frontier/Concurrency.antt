-- ===== src/Crawl/Frontier/Concurrency.antt =====
-- How many jobs of one origin crawlers hold after a claim (services/api/src/crawl/frontier.rs).
use find_verse.Crawl.Rows.{Job, Origin}
use find_verse.Crawl.Table.{HasUniqueIds, count_where-names_job-le}
use find_verse.Crawl.Frontier.Candidates.{candidate_jobs-All}
use find_verse.Crawl.Frontier.{
  Ranked, owned, holds_slot, active_count, claimable, rank_order, claim_order, slots, number_rows,
  ranked_jobs, has_slot, candidate_jobs, names_job, claim_job, claim_jobs,
}
use find_verse.Prelude.{
  ℕ, ◌-◌, ◌≤◌, max, List, [], ◌∷◌, String, Bool, true, ◌&&◌, ◌≡◌, str_eq, eq_iff, select_where,
  count_where, count_where-take-le, count_where-select_where, count_where-sort_by,
  count_where-update_where-le, sort_by, Elem, All, All-sort_by, All-select_where_test, arith, ap,
  Bool-cases, inl, inr,
}

-- No job of the origin asks for more than `bound` slots.
abbrev pub IsBounded : String → String → ℕ → Job → Type 0
IsBounded owner key bound j = owned owner j ≡ true → str_eq j.origin key ≡ true → slots j ≤ bound

module _ (owner : String) (has_js : Bool) (now : ℕ) (origins : List Origin) where
  -- Ranks are distinct, so the rows that fit are no more than the slots that are free.
  number_rows_bound :
      (key : String) (bound : ℕ) (jobs seen js : List Job)
      → All (λ j. str_eq j.origin key ≡ true → slots j ≤ bound) js
      → count_where
          (λ r. has_slot owner has_js now origins r && str_eq r.job.origin key)
          (number_rows owner has_js now origins jobs seen js)
        ≤ bound - active_count owner key jobs - count_where (λ s. str_eq s.origin key) seen
  unfolding number_rows
  number_rows_bound key bound jobs seen [] h = omega arith
  number_rows_bound key bound jobs seen (j ∷ js) h = elim (Bool-cases (str_eq j.origin key)) [
    | inr other ↦ ground (arith, number_rows_bound key bound jobs (j ∷ seen) js h.1)
    | inl same ↦
        let e = (eq_iff j.origin key).0 same in
        ground (
          arith,
          number_rows_bound key bound jobs (j ∷ seen) js h.1,
          ap (λ k. active_count owner k jobs) e,
          ap (λ k. count_where (λ s. str_eq s.origin k) seen) e,
          h.0 same,
        )
  ]

  claimable-owned : (j : Job) → claimable owner has_js now origins j ≡ true → owned owner j ≡ true
  claimable-owned j t = ground arith

  -- The candidates of an origin fit into its free slots.
  candidate_jobs_bound :
      (key : String) (bound limit : ℕ) (jobs : List Job)
      → All (IsBounded owner key bound) jobs
      → count_where
          (λ r. str_eq r.job.origin key)
          (candidate_jobs owner has_js now origins limit jobs)
        ≤ bound - active_count owner key jobs
  unfolding candidate_jobs ranked_jobs
  candidate_jobs_bound key bound limit jobs h =
      let mine = λ (r : Ranked). str_eq r.job.origin key in
      let ready = sort_by rank_order (select_where (claimable owner has_js now origins) jobs) in
      let rows = number_rows owner has_js now origins jobs [] ready in
      let fitting = select_where (has_slot owner has_js now origins) rows in
      let asked =
        All-sort_by (λ j. str_eq j.origin key ≡ true → slots j ≤ bound) rank_order _
          (All-select_where_test (IsBounded owner key bound) _ (claimable owner has_js now origins)
            (λ j t f s. f (claimable-owned j t) s) jobs h) in
      omega (
        arith,
        count_where-take-le mine limit (sort_by claim_order fitting),
        count_where-sort_by mine claim_order fitting,
        count_where-select_where mine (has_slot owner has_js now origins) rows,
        number_rows_bound key bound jobs [] ready asked,
      )

claim_job-slot :
    (owner key crawler_id lease_id : String) (now : ℕ) (j : Job)
    → holds_slot owner key (claim_job crawler_id lease_id now j) ≡ true
    → str_eq j.origin key ≡ true
unfolding claim_job
claim_job-slot owner key crawler_id lease_id now j h = ground arith

-- Whatever is claimed, the jobs of an origin that crawlers hold stay within `bound`, where no job of
-- the origin asks for more than `bound` slots and no more than `bound` were held before.
pub claim_jobs-active_count-le :
    (owner crawler_id lease_id : String) (max_jobs : ℕ) (has_js : Bool) (now : ℕ)
    (origins : List Origin) (jobs : List Job) (key : String) (bound : ℕ)
    → HasUniqueIds jobs
    → All (IsBounded owner key bound) jobs
    → active_count owner key jobs ≤ bound
    → active_count owner key
        (claim_jobs owner crawler_id lease_id max_jobs has_js now origins jobs).0
      ≤ bound
unfolding claim_jobs active_count
claim_jobs-active_count-le owner crawler_id lease_id max_jobs has_js now origins jobs key bound u b
      h =
    let rows = candidate_jobs owner has_js now origins (max max_jobs 1) jobs in
    let mine = λ (j : Job). str_eq j.origin key in
    omega (
      arith,
      count_where-update_where-le (holds_slot owner key) (names_job rows) mine
          (claim_job crawler_id lease_id now) (claim_job-slot owner key crawler_id lease_id now)
          jobs,
      count_where-names_job-le mine rows jobs u (
          candidate_jobs-All owner has_js now origins (λ j. Elem j jobs) (max max_jobs 1) jobs
            (λ j _ m. m)),
      candidate_jobs_bound owner has_js now origins key bound (max max_jobs 1) jobs b,
    )
