-- ===== src/Common/Terms.antt =====
-- crates/findverse-common/src/lib.rs: the terms that are suggested for a page, and its word count.
pub mod Bounds
use Prim.Native.String
use find_verse.External.{Platform}
use find_verse.Prelude.{
  ℕ, List, [], ◌∷◌, String, Option, none, some, Bool, true, false, not, leb, length, select_where,
  map, trim, split_by, split_whitespace, set_insert, if◌then◌else◌,
}

module _ (platform : Platform) where
  open platform use {is_alphanumeric, to_lowercase}

  unfoldable pub tokens : String → List String
  unfolding split_by trim
  tokens source =
      select_where (λ token. leb 4 (String.len token))
        (map trim (split_by (λ c. not (is_alphanumeric c)) source))

  -- The inner loop: the set so far, and whether the function returned from within.
  unfoldable pub add_terms : List String → List String → List String × Bool
  unfolding set_insert
  add_terms terms [] = (terms, false)
  add_terms terms (token ∷ rest) =
      let grown = set_insert (to_lowercase token) terms in
      let next = add_terms grown rest in if leb 12 (length grown) then (grown, true) else next

  unfoldable pub derive_terms : String → String → List String
  unfolding add_terms tokens
  derive_terms title body =
      let (terms, full) = add_terms [] (tokens title) in
      let more = add_terms terms (tokens body) in if full then terms else more.0

unfoldable pub word_count : String → ℕ
unfolding split_whitespace
word_count input = length (split_whitespace input)
