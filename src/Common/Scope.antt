-- ===== src/Common/Scope.antt =====
-- crates/findverse-common/src/lib.rs: which hosts a crawl may follow; and the domain lists of
-- services/api/src/crawler.rs, which are matched the same way.
pub mod Discovered
use Prim.Native.String
use find_verse.External.{Platform}
use find_verse.Common.Address.{extract_host}
use find_verse.Prelude.{
  ℕ, List, [], ◌∷◌, String, Option, none, some, Bool, true, false, ◌||◌, str_eq, any, leb, length,
  ◌++◌, ends_with, eq_ignore_ascii_case, if◌then◌else◌,
}

pub data DiscoveryScope : Type 0 where
  same_host same_domain any_host : DiscoveryScope

unfoldable pub as_str : DiscoveryScope → String
as_str same_host = "same_host"
as_str same_domain = "same_domain"
as_str any_host = "any"

unfoldable pub from_db_value : String → DiscoveryScope
from_db_value value =
    if str_eq value "same_host"
    then same_host
    else if str_eq value "any"
    then any_host
    else same_domain

module _ (platform : Platform) where
  open platform use {to_lowercase}

  unfoldable pub host_matches_scope : String → String → DiscoveryScope → Bool
  unfolding eq_ignore_ascii_case ends_with
  host_matches_scope candidate anchor any_host = true
  host_matches_scope candidate anchor same_host = eq_ignore_ascii_case candidate anchor
  host_matches_scope candidate anchor same_domain =
      eq_ignore_ascii_case candidate anchor
      || ends_with (to_lowercase candidate) (String.◌++◌ "." (to_lowercase anchor))

  unfoldable pub host_matches_domain_list : String → List String → Bool
  unfolding host_matches_scope
  host_matches_domain_list host domains =
      any (λ domain. host_matches_scope host domain same_domain) domains

  abbrev host_listed : Option String → List String → Bool
  host_listed none domains = false
  host_listed (some host) domains = host_matches_domain_list host domains

  unfoldable pub url_matches_domain_list : String → List String → Bool
  unfolding extract_host host_matches_domain_list
  url_matches_domain_list url domains = host_listed (extract_host platform url) domains

  -- The test in the loop of `filter_discovered_urls`.
  unfoldable pub follows : DiscoveryScope → Option String → String → Bool
  follows any_host anchor url = true
  follows scope none url = false
  follows scope (some anchor) url = elim (extract_host platform url) [
    | none ↦ false
    | some host ↦ host_matches_scope host anchor scope
  ]

  -- The loop stops once it holds `max_urls` addresses; the first one is taken before the test.
  keep_discovered : DiscoveryScope → Option String → ℕ → List String → List String → List String
  keep_discovered scope anchor max_urls kept [] = kept
  keep_discovered scope anchor max_urls kept (url ∷ urls) =
      let grown = kept ++ url ∷ [] in
      let next = keep_discovered scope anchor max_urls grown urls in
      let skip = keep_discovered scope anchor max_urls kept urls in
      if follows scope anchor url
      then (if leb max_urls (length grown) then grown else next)
      else skip

  unfoldable pub filter_discovered_urls :
      List String → DiscoveryScope → Option String → ℕ → List String
  unfolding keep_discovered follows
  filter_discovered_urls urls scope anchor max_urls = keep_discovered scope anchor max_urls [] urls
