-- ===== src/Crawl/Enqueue/Budget.antt =====
-- What `enqueue_urls` of services/api/src/crawler.rs does to the page budget of a crawl.
use find_verse.External.{Platform}
use find_verse.Crawl.Rows.{Job, Origin}
use find_verse.Crawl.Enqueue.{
  EnqueueRequest, Queue, in_budget, superseded, new_job, drop_finished, insert_url, admit,
  offer_url, enqueue_loop, enqueue_urls,
}
use find_verse.Prelude.{
  ℕ, suc, ◌+◌, ◌≤◌, max, List, [], ◌∷◌, String, count_where, count_where-append,
  count_where-delete_where-le, Option-cases, inl, inr, arith,
}

module _ (platform : Platform) (blacklist : List String) (r : EnqueueRequest) (now : ℕ) where
  abbrev used : Queue → ℕ
  used q = count_where (in_budget r.developer_id r.budget_id) q.jobs

  drop_finished-le :
      (url : String) (jobs : List Job)
      → count_where (in_budget r.developer_id r.budget_id) (drop_finished platform r url jobs)
        ≤ count_where (in_budget r.developer_id r.budget_id) jobs
  unfolding drop_finished
  drop_finished-le url jobs = ground (
    arith,
    count_where-delete_where-le (in_budget r.developer_id r.budget_id) (superseded platform r url)
        jobs,
  )

  -- One address takes at most one page of the budget, and counts it.
  insert_url-used :
      (id : String) (q : Queue) (found : String × String)
      → used q ≤ q.budget_used
      → (used (insert_url platform r now id q found)
          ≤ (insert_url platform r now id q found).budget_used)
        × ((insert_url platform r now id q found).budget_used ≤ q.budget_used + 1)
  unfolding insert_url
  insert_url-used id q (url, key) h = ground (
    arith,
    drop_finished-le url q.jobs,
    count_where-append (in_budget r.developer_id r.budget_id) (drop_finished platform r url q.jobs)
        (new_job platform r now id url key ∷ []),
  )

  offer_url-used :
      (id : String) (q : Queue) (url : String)
      → used q ≤ q.budget_used
      → (used (offer_url platform blacklist r now id q url)
          ≤ (offer_url platform blacklist r now id q url).budget_used)
        × ((offer_url platform blacklist r now id q url).budget_used ≤ q.budget_used + 1)
  unfolding offer_url
  offer_url-used id q url h = elim (Option-cases (admit platform blacklist url)) [
    | inl e ↦ rw (e, offer_url) (h, omega arith)
    | inr (found, e) ↦ rw (e, offer_url) (insert_url-used id q found h)
  ]

  enqueue_loop-used :
      (new_id : ℕ → String) (n : ℕ) (urls : List String) (q : Queue)
      → used q ≤ q.budget_used
      → used (enqueue_loop platform blacklist r now new_id n urls q)
        ≤ max q.budget_used (max r.max_pages 1)
  unfolding enqueue_loop
  enqueue_loop-used new_id n [] q h = omega arith
  enqueue_loop-used new_id n (url ∷ urls) q h =
      let once = offer_url-used (new_id n) q url h in
      ground (
        arith,
        once,
        enqueue_loop-used new_id (suc n) urls (offer_url platform blacklist r now (new_id n) q url)
            once.0,
      )

-- After `enqueue_urls` the jobs of the request's owner and budget are no more than `max_pages` (at
-- least one), or no more than they were before, if they were more.
pub enqueue_urls-budget-le :
    (platform : Platform) (blacklist : List String) (r : EnqueueRequest) (now : ℕ)
    (new_id : ℕ → String) (origins : List Origin) (jobs : List Job)
    → count_where
        (in_budget r.developer_id r.budget_id)
        (enqueue_urls platform blacklist r now new_id origins jobs).jobs
      ≤ max (count_where (in_budget r.developer_id r.budget_id) jobs) (max r.max_pages 1)
unfolding enqueue_urls
enqueue_urls-budget-le platform blacklist r now new_id origins jobs =
    enqueue_loop-used platform blacklist r now new_id 0 r.urls _ (omega arith)
