-- ===== src/Crawl/Apply/Links.antt =====
-- The addresses that a report leads to (`apply_staged_result` of services/api/src/crawler.rs).
use find_verse.External.{Platform}
use find_verse.Common.Scope.{
  from_db_value, follows, url_matches_domain_list, filter_discovered_urls,
}
use find_verse.Common.Scope.Discovered.{filter_discovered_urls_kept}
use find_verse.Crawl.Rows.{Job}
use find_verse.Crawl.Outcome.{CrawlResult}
use find_verse.Crawl.Apply.{SearchIndex, page_is_blacklisted, scoped_urls}
use find_verse.Prelude.{
  ℕ, ◌≤◌, max, List, [], ◌∷◌, String, Bool, true, false, not, ◌≡◌, refl, Elem, All,
  All-select_where_test, count_where, length, length-select_where, if_elim, arith,
}

count_where-le-length : (p : String → Bool) (xs : List String) → count_where p xs ≤ length xs
count_where-le-length p [] = omega arith
count_where-le-length p (x ∷ xs) = ground (arith, count_where-le-length p xs)

-- The addresses that a report adds to the crawl are among those that the page named, on no listed
-- domain, within the job's scope, and at most as many as the job allows, or one; and a page of a
-- listed domain adds none.
pub scoped_urls_lem :
    (platform : Platform) (index : SearchIndex) (new_id : ℕ → String) (now clock : ℕ)
    (domains : List String) (job : Job) (r : CrawlResult)
    → let urls = scoped_urls platform index new_id now clock domains job r in
      All
        (λ u.
          (url_matches_domain_list platform u domains ≡ false)
          × (follows platform (from_db_value job.discovery_scope) job.discovery_host u ≡ true)
          × Elem u r.discovered_urls)
        urls
      × (length urls ≤ max job.max_discovered_urls_per_page 1)
      × (page_is_blacklisted platform index new_id now clock domains r ≡ true → urls ≡ [])
unfolding scoped_urls
scoped_urls_lem platform index new_id now clock domains job r =
    let scope = from_db_value job.discovery_scope in
    let cap = max job.max_discovered_urls_per_page 1 in
    let kept =
      filter_discovered_urls_kept platform r.discovered_urls scope job.discovery_host cap in
    let unlisted = λ (u : String). not (url_matches_domain_list platform u domains) in
    let Good = λ (u : String).
      (url_matches_domain_list platform u domains ≡ false)
      × (follows platform scope job.discovery_host u ≡ true)
      × Elem u r.discovered_urls in
    let found = filter_discovered_urls platform r.discovered_urls scope job.discovery_host cap in
    let listed = page_is_blacklisted platform index new_id now clock domains r in
    if_elim (λ (us : List String). All Good us × (length us ≤ cap) × (listed ≡ true → us ≡ []))
      listed (λ _. (tt, omega arith, λ _. refl))
      (λ e. (
        All-select_where_test _ Good unlisted (λ u t h. (ground arith, h.0, h.1)) found kept.0,
        omega (
          arith,
          kept.1,
          length-select_where unlisted found,
          count_where-le-length unlisted found,
        ),
        λ e'. absurd (ground arith),
      ))
