-- ===== src/Common/Address.antt =====
-- crates/findverse-common/src/lib.rs: `normalize_url`, `display_url`, `extract_host`, `origin_key`.
use Prim.Native.String
use find_verse.External.{Platform}
use find_verse.Prelude.{
  ℕ, ◌==◌, List, [], ◌∷◌, map, String, Option, none, some, Bool, true, false, not, ◌&&◌, ◌||◌,
  str_eq, contains_str, select_where, sort_by, is_empty, join, trim_end_by, is_empty_str,
  print_decimal, if◌then◌else◌, Ordering, unwrap_or,
}

abbrev pub tracking_params : List String
tracking_params =
    "utm_source" ∷ "utm_medium" ∷ "utm_campaign" ∷ "utm_term" ∷ "utm_content" ∷ "fbclid" ∷ "gclid"
    ∷ "msclkid" ∷ "_ga" ∷ "mc_cid" ∷ "mc_eid" ∷ "ref" ∷ "source" ∷ "campaign_id" ∷ "ad_id" ∷ []

infixl 5 ◌>>=◌
abbrev ◌>>=◌ {ℓ κ} : {A : Type ℓ} {B : Type κ} → Option A → (A → Option B) → Option B
none >>= k = none
some a >>= k = k a

-- `a.0.cmp(&b.0).then_with(|| a.1.cmp(&b.1))`, as "is not greater".
unfoldable pub pair_le : String × String → String × String → Bool
pair_le a b = elim (String.then (String.compare a.0 b.0) (String.compare a.1 b.1)) [
  | Ordering.gt ↦ false
  | _ ↦ true
]

-- The query pairs that stay, in the order in which they are printed.
unfoldable pub kept_params : List (String × String) → List (String × String)
unfolding contains_str sort_by pair_le
kept_params pairs =
    sort_by pair_le (select_where (λ p. not (contains_str tracking_params p.0)) pairs)

abbrev print_pair : String × String → String
print_pair (k, v) = String.◌++◌ k (String.◌++◌ "=" v)

-- `None` where no parameter is left.
unfoldable pub printed_query : List (String × String) → Option String
unfolding kept_params join
printed_query pairs =
    let kept = kept_params pairs in
    if is_empty kept then none else some (join "&" (map print_pair kept))

unfoldable pub trimmed_path : String → String
unfolding trim_end_by is_empty_str
trimmed_path path =
    let normalized = trim_end_by (λ c. c == b'/') path in
    if is_empty_str normalized then "/" else normalized

abbrev is_port : Option ℕ → ℕ → Bool
is_port none n = false
is_port (some m) n = m == n

print_origin : String → String → Option ℕ → String
unfolding print_decimal
print_origin scheme host none = String.◌++◌ scheme (String.◌++◌ "://" host)
print_origin scheme host (some p) =
    String.◌++◌ scheme (String.◌++◌ "://" (String.◌++◌ host (String.◌++◌ ":" (print_decimal p))))

module _ (platform : Platform) where
  open platform use {
    Url, parse, scheme, host_str, port, path, query_pairs, clear_port, clear_fragment, set_query,
    set_path, to_string, to_lowercase,
  }

  unfoldable pub is_web : Url → Bool
  is_web url = str_eq (scheme url) "http" || str_eq (scheme url) "https"

  unfoldable pub without_default_port : Url → Url
  without_default_port url =
      if str_eq (scheme url) "https" && is_port (port url) 443
        || str_eq (scheme url) "http" && is_port (port url) 80
      then clear_port url
      else url

  unfoldable pub with_trimmed_path : Url → Url
  unfolding trimmed_path
  with_trimmed_path url =
      if str_eq (path url) "/" then url else set_path (trimmed_path (path url)) url

  unfoldable pub normalize_url : String → Option String
  unfolding is_web without_default_port printed_query with_trimmed_path
  normalize_url input = do
    url ← parse input
    let bare = clear_fragment (without_default_port url)
    let queried = set_query (printed_query (query_pairs bare)) bare
    if is_web url then some (to_string (with_trimmed_path queried)) else none

  unfoldable pub display_url : String → String
  unfolding trim_end_by is_empty_str
  display_url input =
      unwrap_or
        (do
          url ← parse input
          host ← host_str url
          let shown = trim_end_by (λ c. c == b'/') (path url)
          some (if is_empty_str shown then host else String.◌++◌ host shown))
        input

  unfoldable pub extract_host : String → Option String
  extract_host input = do url ← parse input; host ← host_str url; some (to_lowercase host)

  unfoldable pub origin_key : String → Option String
  unfolding is_web without_default_port print_origin
  origin_key input = do
    parsed ← parse input
    url ← if is_web parsed then some (without_default_port parsed) else none
    host ← host_str url
    some (print_origin (scheme url) (to_lowercase host) (port url))
