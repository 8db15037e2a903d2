-- ===== src/Common/Terms/Bounds.antt =====
-- What `derive_terms` promises, for every source text.
use find_verse.External.{Platform}
use find_verse.Common.Terms.{add_terms, derive_terms, tokens}
use find_verse.Prelude.{
  ◌≤◌, ◌<◌, List, [], ◌∷◌, String, false, ◌≡◌, length, set_insert, IsAscending,
  set_insert-IsAscending, length-set_insert-le, arith,
}

module _ (platform : Platform) where
  open platform use {to_lowercase}

  -- The loop keeps the set in order; it holds twelve terms only if the function returned.
  add_terms_bound :
      (terms rest : List String)
      → IsAscending terms
      → length terms < 12
      → IsAscending (add_terms platform terms rest).0
        × (length (add_terms platform terms rest).0 ≤ 12)
        × ((add_terms platform terms rest).1 ≡ false
            → length (add_terms platform terms rest).0 < 12)
  unfolding add_terms
  add_terms_bound terms [] h k = (h, omega arith, λ _. k)
  add_terms_bound terms (token ∷ rest) h k = ground (
    arith,
    set_insert-IsAscending (to_lowercase token) terms h,
    length-set_insert-le (to_lowercase token) terms,
    add_terms_bound (set_insert (to_lowercase token) terms) rest,
  )

-- For any title and body the suggested terms are at most twelve, listed once each in ascending
-- order.
pub derive_terms_bound :
    (platform : Platform) (title body : String)
    → (length (derive_terms platform title body) ≤ 12)
      × IsAscending (derive_terms platform title body)
unfolding derive_terms
derive_terms_bound platform title body =
    let first = add_terms_bound platform [] (tokens platform title) tt (omega arith) in
    ground (
      arith,
      first,
      add_terms_bound platform (add_terms platform [] (tokens platform title)).0
          (tokens platform body) first.0,
    )
