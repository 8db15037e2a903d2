-- ===== src/Prelude/Counting.antt =====
-- Laws of `count_where`, and of the rows that a statement selects.
use Prim.Native.Nat.{ℕ, zero, suc, ◌+◌, ◌≤◌}
use mathlib.Core.Path.{◌≡◌, refl, subst}
use mathlib.Core.Bool.{Bool, true, false, ◌&&◌, ◌||◌}
use mathlib.Core.Logic.{◌⊎◌, inl, inr}
use mathlib.Core.List.{List, [], ◌∷◌}
use native.Mathlib.Omega.{arith}
use find_verse.Prelude.Lists.{take, All}
use find_verse.Prelude.Tables.{select_where, update_where, delete_where, count_where, if_elim}

module _ {ℓ} {A : Type ℓ} where
  pub count_where-take-le :
      (p : A → Bool) (n : ℕ) (xs : List A) → count_where p (take n xs) ≤ count_where p xs
  count_where-take-le p zero xs = omega arith
  count_where-take-le p (suc n) [] = omega arith
  count_where-take-le p (suc n) (x ∷ xs) = ground (arith, count_where-take-le p n xs)

  pub count_where-select_where :
      (p q : A → Bool) (xs : List A)
      → count_where p (select_where q xs) ≡ count_where (λ x. q x && p x) xs
  count_where-select_where p q [] = refl
  count_where-select_where p q (x ∷ xs) = ground (arith, count_where-select_where p q xs)

  pub count_where_never : (xs : List A) → count_where (λ (x : A). false) xs ≡ 0
  count_where_never [] = refl
  count_where_never (x ∷ xs) = count_where_never xs

  pub count_where_mono :
      (p q : A → Bool)
      → ((x : A) → p x ≡ true → q x ≡ true)
      → (xs : List A) → count_where p xs ≤ count_where q xs
  count_where_mono p q h [] = omega arith
  count_where_mono p q h (x ∷ xs) = ground (arith, h x, count_where_mono p q h xs)

  pub count_where-or-le :
      (p q r : A → Bool) (xs : List A)
      → count_where (λ x. (p x || q x) && r x) xs
        ≤ count_where (λ x. p x && r x) xs + count_where (λ x. q x && r x) xs
  count_where-or-le p q r [] = omega arith
  count_where-or-le p q r (x ∷ xs) = ground (arith, count_where-or-le p q r xs)

  pub count_where-update_where-le :
      (p q r : A → Bool) (f : A → A)
      → ((x : A) → p (f x) ≡ true → r x ≡ true)
      → (xs : List A)
      → count_where p (update_where q f xs) ≤ count_where p xs + count_where (λ x. q x && r x) xs
  count_where-update_where-le p q r f h [] = omega arith
  count_where-update_where-le p q r f h (x ∷ xs) =
      ground (arith, h x, count_where-update_where-le p q r f h xs)

  -- A deletion spares the rows of a test that it never meets, and takes those it always meets.
  pub count_where-delete_where_apart :
      (p q : A → Bool)
      → ((x : A) → q x ≡ true → p x ≡ false)
      → (xs : List A) → count_where p (delete_where q xs) ≡ count_where p xs
  count_where-delete_where_apart p q h [] = refl
  count_where-delete_where_apart p q h (x ∷ xs) =
      ground (arith, h x, count_where-delete_where_apart p q h xs)

  pub count_where-delete_where_all :
      (p q : A → Bool)
      → ((x : A) → p x ≡ true → q x ≡ true)
      → (xs : List A) → count_where p (delete_where q xs) ≡ 0
  count_where-delete_where_all p q h [] = refl
  count_where-delete_where_all p q h (x ∷ xs) =
      ground (arith, h x, count_where-delete_where_all p q h xs)

  -- Rows that fail a test before and after an update are not seen by a selection with it.
  pub select_where-update_where_apart :
      (p q : A → Bool) (f : A → A)
      → ((x : A) → q x ≡ true → (p x ≡ false) × (p (f x) ≡ false))
      → (xs : List A) → select_where p (update_where q f xs) ≡ select_where p xs
  select_where-update_where_apart p q f h [] = refl
  select_where-update_where_apart p q f h (x ∷ xs) =
      ground (arith, h x, select_where-update_where_apart p q f h xs)

  pub select_where-delete_where_apart :
      (p q : A → Bool)
      → ((x : A) → q x ≡ true → p x ≡ false)
      → (xs : List A) → select_where p (delete_where q xs) ≡ select_where p xs
  select_where-delete_where_apart p q h [] = refl
  select_where-delete_where_apart p q h (x ∷ xs) =
      ground (arith, h x, select_where-delete_where_apart p q h xs)

module _ {A : Type 0} where
  -- Being a row of a table, by recursion.
  abbrev pub Elem : A → List A → Type 0
  Elem c [] = ⊥
  Elem c (x ∷ xs) = (x ≡ c) ⊎ Elem c xs

  pub All-Elem : (xs ys : List A) → ((c : A) → Elem c xs → Elem c ys) → All (λ c. Elem c ys) xs
  All-Elem [] ys h = tt
  All-Elem (x ∷ xs) ys h = (h x (inl refl), All-Elem xs ys (λ c m. h c (inr m)))

  pub All-Elem_self : (xs : List A) → All (λ c. Elem c xs) xs
  All-Elem_self xs = All-Elem xs xs (λ c m. m)

  pub Elem-All {κ} : (P : A → Type κ) (c : A) (xs : List A) → All P xs → Elem c xs → P c
  Elem-All P c [] h m = absurd m
  Elem-All P c (x ∷ xs) h (inl e) = subst P e h.0
  Elem-All P c (x ∷ xs) h (inr m) = Elem-All P c xs h.1 m

module _ {ℓ κ μ} {A : Type ℓ} (P : A → Type κ) (Q : A → Type μ) where
  pub All-imp : ((x : A) → P x → Q x) → (xs : List A) → All P xs → All Q xs
  All-imp h [] a = tt
  All-imp h (x ∷ xs) a = (h x a.0, All-imp h xs a.1)

  -- A selected row passed the test.
  pub All-select_where_test :
      (q : A → Bool)
      → ((x : A) → q x ≡ true → P x → Q x)
      → (xs : List A) → All P xs
      → All Q (select_where q xs)
  All-select_where_test q h [] a = tt
  All-select_where_test q h (x ∷ xs) a =
      let ih = All-select_where_test q h xs a.1 in
      if_elim (All Q) (q x) (λ e. (h x e a.0, ih)) (λ _. ih)

  -- Each row after an update is a row that failed the test, or one that passed it, changed.
  pub All-update_where_test :
      (q : A → Bool) (f : A → A)
      → ((x : A) → P x → Q x)
      → ((x : A) → q x ≡ true → P x → Q (f x))
      → (xs : List A) → All P xs
      → All Q (update_where q f xs)
  All-update_where_test q f h k [] a = tt
  All-update_where_test q f h k (x ∷ xs) a =
      (if_elim Q (q x) (λ e. k x e a.0) (λ _. h x a.0), All-update_where_test q f h k xs a.1)
