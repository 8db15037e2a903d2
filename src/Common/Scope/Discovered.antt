-- ===== src/Common/Scope/Discovered.antt =====
-- Which addresses `filter_discovered_urls` of services/api/src/crawler.rs lets through.
use find_verse.External.{Platform}
use find_verse.Common.Scope.{DiscoveryScope, follows, keep_discovered, filter_discovered_urls}
use find_verse.Prelude.{
  ℕ, ◌≤◌, ◌<◌, max, List, [], ◌∷◌, ◌++◌, String, Option, true, ◌≡◌, length, length-append, leb, All,
  All-append, Elem, All-Elem_self, All-imp, if_elim, arith,
}

module _ (platform : Platform) (scope : DiscoveryScope) (anchor : Option String) (max_urls : ℕ)
    (P : String → Type 0) where
  keep_discovered_kept :
      (kept urls : List String)
      → All P kept
      → All (λ u. follows platform scope anchor u ≡ true → P u) urls
      → length kept < max max_urls 1
      → All P (keep_discovered platform scope anchor max_urls kept urls)
        × (length (keep_discovered platform scope anchor max_urls kept urls) ≤ max max_urls 1)
  unfolding keep_discovered
  keep_discovered_kept kept [] h k less = (h, omega arith)
  keep_discovered_kept kept (url ∷ urls) h k less =
      let Q = λ (us : List String). All P us × (length us ≤ max max_urls 1) in
      let one = length-append kept (url ∷ []) in
      if_elim Q (follows platform scope anchor url)
        (λ e.
          let grown = All-append P kept (url ∷ []) h (k.0 e, tt) in
          if_elim Q (leb max_urls (length (kept ++ url ∷ []))) (λ _. (grown, omega (arith, one)))
            (λ below. keep_discovered_kept (kept ++ url ∷ []) urls grown k.1 (ground (arith, one))))
        (λ _. keep_discovered_kept kept urls h k.1 less)

-- What is kept of a page's addresses are at most `max_urls` of them, or one, each of which the scope
-- lets the crawl follow.
pub filter_discovered_urls_kept :
    (platform : Platform) (urls : List String) (scope : DiscoveryScope) (anchor : Option String)
    (max_urls : ℕ)
    → All
        (λ u. (follows platform scope anchor u ≡ true) × Elem u urls)
        (filter_discovered_urls platform urls scope anchor max_urls)
      × (length (filter_discovered_urls platform urls scope anchor max_urls) ≤ max max_urls 1)
unfolding filter_discovered_urls
filter_discovered_urls_kept platform urls scope anchor max_urls =
    keep_discovered_kept platform scope anchor max_urls
      (λ u. (follows platform scope anchor u ≡ true) × Elem u urls) [] urls tt
      (All-imp (λ u. Elem u urls) _ (λ u m e. (e, m)) urls (All-Elem_self urls)) (omega arith)
