-- ===== src/Crawl/Apply/Tally.antt =====
-- What `apply_staged_result` of services/api/src/crawler.rs counts beside the queue: the figures of a
-- domain and the graph of links.
use find_verse.Crawl.Store.{DomainStats}
use find_verse.Prelude.{
  ℕ, ◌+◌, List, [], ◌∷◌, String, Option, none, some, Bool, false, ◌&&◌, ◌||◌, str_eq, leb, any,
  update_where, if◌then◌else◌,
}

-- The health of a domain after its `failures`-th failure in a row.
abbrev pub health_after_failure : ℕ → String → String
health_after_failure failures before =
    if leb 10 failures then "unhealthy" else if leb 5 failures then "degraded" else before

abbrev of_domain : String → DomainStats → Bool
of_domain domain s = str_eq s.domain domain

unfoldable pub record_failure : Option String → List DomainStats → List DomainStats
record_failure none stats = stats
record_failure (some domain) stats =
    if any (of_domain domain) stats
    then update_where (of_domain domain)
        (λ s. record s {
          total_pages_failed = s.total_pages_failed + 1;
          consecutive_failures = s.consecutive_failures + 1;
          health_status = health_after_failure (s.consecutive_failures + 1) s.health_status;
        })
        stats
    else record {
      domain = domain;
      total_pages_indexed = 0;
      total_pages_failed = 1;
      consecutive_failures = 1;
      health_status = "healthy";
    }
      ∷ stats

unfoldable pub record_success : Option String → List DomainStats → List DomainStats
record_success none stats = stats
record_success (some domain) stats =
    if any (of_domain domain) stats
    then update_where (of_domain domain)
        (λ s. record s {
          total_pages_indexed = s.total_pages_indexed + 1;
          consecutive_failures = 0;
          health_status = "healthy";
        })
        stats
    else record {
      domain = domain;
      total_pages_indexed = 1;
      total_pages_failed = 0;
      consecutive_failures = 0;
      health_status = "healthy";
    }
      ∷ stats

abbrev same_edge : String × String → String × String → Bool
same_edge (s, t) (u, v) = str_eq s u && str_eq t v

-- `on conflict (source_url, target_url) do update` of the time alone.
insert_edges : String → List String → List (String × String) → List (String × String)
insert_edges source [] edges = edges
insert_edges source (target ∷ targets) edges =
    insert_edges source targets
      (if any (same_edge (source, target)) edges then edges else (source, target) ∷ edges)

unfoldable pub has_repeats : List String → Bool
has_repeats [] = false
has_repeats (x ∷ xs) = any (str_eq x) xs || has_repeats xs

-- A statement that meets one row twice fails as a whole, and its error is dropped.
unfoldable pub add_edges : String → List String → List (String × String) → List (String × String)
unfolding insert_edges has_repeats
add_edges source targets edges =
    if has_repeats targets then edges else insert_edges source targets edges
