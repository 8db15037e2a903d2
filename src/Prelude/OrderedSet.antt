-- ===== src/Prelude/OrderedSet.antt =====
-- A `BTreeSet<String>` as the ascending list of its members.
use Prim.Native.Nat.{ℕ, ◌+◌, ◌≤◌, Ordering, compare as compare_ℕ}
use Prim.Native.Char.{code}
use Prim.Native.String
use Prim.Native.String.{String}
use Prim.Native.String.compare
use mathlib.Core.Path.{◌≡◌, ◌∙◌, sym}
use mathlib.Core.List.{List, [], ◌∷◌}
use native.Mathlib.Omega.{arith}
use find_verse.Prelude.Lists.{length}

flip_ℕ : (m n : ℕ) → compare_ℕ m n ≡ Ordering.gt → compare_ℕ n m ≡ Ordering.lt
flip_ℕ m n h = ground arith

eq_ℕ : (m n : ℕ) → compare_ℕ m n ≡ Ordering.eq → compare_ℕ n m ≡ Ordering.eq
eq_ℕ m n h = ground arith

flip_then :
    (a b a' b' : Ordering)
    → (a ≡ Ordering.gt → a' ≡ Ordering.lt)
    → (a ≡ Ordering.eq → a' ≡ Ordering.eq)
    → (b ≡ Ordering.gt → b' ≡ Ordering.lt)
    → String.then a b ≡ Ordering.gt
    → String.then a' b' ≡ Ordering.lt
flip_then a b a' b' f g k h = ground arith

-- Where one text stands after another, the other stands before it.
pub compare_flip :
    (s t : String) → String.compare s t ≡ Ordering.gt → String.compare t s ≡ Ordering.lt
compare_flip String.[] String.[] h = cc
compare_flip String.[] (String.◌∷◌ d t) h = cc (compare.nil-cons d t)
compare_flip (String.◌∷◌ c s) String.[] h = compare.nil-cons c s
compare_flip (String.◌∷◌ c s) (String.◌∷◌ d t) h =
    compare.cons-cons d c t s
    ∙ flip_then (compare_ℕ (code c) (code d)) _ (compare_ℕ (code d) (code c)) _
        (flip_ℕ (code c) (code d)) (eq_ℕ (code c) (code d)) (compare_flip s t)
        (sym (compare.cons-cons c d s t) ∙ h)

unfoldable pub set_insert : String → List String → List String
set_insert x [] = x ∷ []
set_insert x (y ∷ ys) =
    let rest = set_insert x ys in
    elim (String.compare x y) [
      | Ordering.lt ↦ x ∷ y ∷ ys
      | Ordering.eq ↦ y ∷ ys
      | Ordering.gt ↦ y ∷ rest
    ]

abbrev pub IsAscending : List String → Type 0
IsAscending [] = Unit
IsAscending (x ∷ []) = Unit
IsAscending (x ∷ y ∷ ys) = (String.compare x y ≡ Ordering.lt) × IsAscending (y ∷ ys)

-- An insertion keeps the order strict, so a set lists its members once, in order.
pub set_insert-IsAscending :
    (x : String) (xs : List String) → IsAscending xs → IsAscending (set_insert x xs)
unfolding set_insert
set_insert-IsAscending x [] h = tt
set_insert-IsAscending x (y ∷ []) h = ground (arith, compare_flip x y)
set_insert-IsAscending x (y ∷ z ∷ zs) h =
    ground (arith, compare_flip x y, set_insert-IsAscending x (z ∷ zs) h.1)

-- An insertion adds at most one member.
pub length-set_insert-le :
    (x : String) (xs : List String) → length (set_insert x xs) ≤ length xs + 1
unfolding set_insert
length-set_insert-le x [] = omega arith
length-set_insert-le x (y ∷ ys) = ground (arith, length-set_insert-le x ys)
