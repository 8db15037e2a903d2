-- ===== src/Prelude/Sort.antt =====
-- A stable sort by a Boolean order, as `order by` and `sort_by` give it.
use mathlib.Core.Path.{◌≡◌, refl}
use mathlib.Core.Bool.{Bool}
use mathlib.Core.List.{List, [], ◌∷◌}
use native.Mathlib.Omega.{arith}
use find_verse.Prelude.Tests.{if◌then◌else◌}
use find_verse.Prelude.Lists.{All}
use find_verse.Prelude.Tables.{count_where, if_elim}

module _ {ℓ} {A : Type ℓ} where
  -- `le x y` says that `x` may stand before `y`.
  pub insert_by : (A → A → Bool) → A → List A → List A
  insert_by le x [] = x ∷ []
  insert_by le x (y ∷ ys) = let rest = insert_by le x ys in if le x y then x ∷ y ∷ ys else y ∷ rest

  unfoldable pub sort_by : (A → A → Bool) → List A → List A
  unfolding insert_by
  sort_by le [] = []
  sort_by le (x ∷ xs) = insert_by le x (sort_by le xs)

  count_where-insert_by :
      (p : A → Bool) (le : A → A → Bool) (x : A) (xs : List A)
      → count_where p (insert_by le x xs) ≡ count_where p (x ∷ xs)
  unfolding insert_by
  count_where-insert_by p le x [] = refl
  count_where-insert_by p le x (y ∷ ys) = ground (arith, count_where-insert_by p le x ys)

  pub count_where-sort_by :
      (p : A → Bool) (le : A → A → Bool) (xs : List A)
      → count_where p (sort_by le xs) ≡ count_where p xs
  unfolding sort_by
  count_where-sort_by p le [] = refl
  count_where-sort_by p le (x ∷ xs) =
      ground (arith, count_where-insert_by p le x (sort_by le xs), count_where-sort_by p le xs)

module _ {ℓ κ} {A : Type ℓ} (P : A → Type κ) where
  All-insert_by :
      (le : A → A → Bool) (x : A) (xs : List A) → P x → All P xs → All P (insert_by le x xs)
  unfolding insert_by
  All-insert_by le x [] p h = (p, tt)
  All-insert_by le x (y ∷ ys) p h =
      if_elim (All P) (le x y) (λ _. (p, h)) (λ _. (h.0, All-insert_by le x ys p h.1))

  pub All-sort_by : (le : A → A → Bool) (xs : List A) → All P xs → All P (sort_by le xs)
  unfolding sort_by
  All-sort_by le [] h = tt
  All-sort_by le (x ∷ xs) h = All-insert_by le x (sort_by le xs) h.0 (All-sort_by le xs h.1)
