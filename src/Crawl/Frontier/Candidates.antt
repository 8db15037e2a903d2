-- ===== src/Crawl/Frontier/Candidates.antt =====
-- The rows that a claim chooses (services/api/src/crawl/frontier.rs).
use find_verse.Crawl.Rows.{Job, Origin}
use find_verse.Crawl.Frontier.{
  Ranked, claimable, rank_order, claim_order, number_rows, ranked_jobs, has_slot, candidate_jobs,
}
use find_verse.Prelude.{
  ℕ, List, [], ◌∷◌, String, Bool, true, ◌≡◌, Elem, All, All-take, All-sort_by, All-select_where,
  All-select_where_test, All-Elem_self,
}

module _ (owner : String) (has_js : Bool) (now : ℕ) (origins : List Origin) where
  number_rows-All :
      (P : Job → Type 0) (jobs seen js : List Job)
      → All P js
      → All (λ r. P r.job) (number_rows owner has_js now origins jobs seen js)
  unfolding number_rows
  number_rows-All P jobs seen [] h = tt
  number_rows-All P jobs seen (j ∷ js) h = (h.0, number_rows-All P jobs (j ∷ seen) js h.1)

  -- What holds of every claimable row of the table holds of every candidate.
  pub candidate_jobs-All :
      (P : Job → Type 0) (limit : ℕ) (jobs : List Job)
      → ((j : Job) → claimable owner has_js now origins j ≡ true → Elem j jobs → P j)
      → All (λ r. P r.job) (candidate_jobs owner has_js now origins limit jobs)
  unfolding candidate_jobs ranked_jobs
  candidate_jobs-All P limit jobs h =
      let Q = λ (r : Ranked). P r.job in
      let ready =
        All-select_where_test (λ j. Elem j jobs) P (claimable owner has_js now origins) h jobs
          (All-Elem_self jobs) in
      All-take Q limit _ (
        All-sort_by Q claim_order _ (
          All-select_where Q (has_slot owner has_js now origins) _
            (number_rows-All P jobs [] _ (All-sort_by P rank_order _ ready))))
