-- ===== src/Prelude/Tables.antt =====
-- A database table as the list of its rows: `select`, `update … where`, `delete … where`, and
-- `count(*) … where`, with the laws of counts and of row predicates.
use Prim.Native.Nat.{ℕ, suc, ◌+◌, ◌≤◌}
use mathlib.Core.Path.{◌≡◌, refl}
use mathlib.Core.Bool.{Bool, true, false}
use mathlib.Core.List.{List, [], ◌∷◌, ◌++◌}
use native.Mathlib.Omega.{arith}
use find_verse.Prelude.Tests.{if◌then◌else◌}
use find_verse.Prelude.Lists.{length, All}

module _ {ℓ} {A : Type ℓ} where
  abbrev pub select_where : (A → Bool) → List A → List A
  select_where p [] = []
  select_where p (x ∷ xs) = let rest = select_where p xs in if p x then x ∷ rest else rest

  abbrev pub update_where : (A → Bool) → (A → A) → List A → List A
  update_where p f [] = []
  update_where p f (x ∷ xs) = (if p x then f x else x) ∷ update_where p f xs

  abbrev pub delete_where : (A → Bool) → List A → List A
  delete_where p [] = []
  delete_where p (x ∷ xs) = let rest = delete_where p xs in if p x then rest else x ∷ rest

  abbrev pub count_where : (A → Bool) → List A → ℕ
  count_where p [] = 0
  count_where p (x ∷ xs) = let rest = count_where p xs in if p x then suc rest else rest

  pub count_where-append :
      (p : A → Bool) (xs ys : List A)
      → count_where p (xs ++ ys) ≡ count_where p xs + count_where p ys
  count_where-append p [] ys = omega arith
  count_where-append p (x ∷ xs) ys = ground (arith, count_where-append p xs ys)

  pub count_where-delete_where-le :
      (p q : A → Bool) (xs : List A) → count_where p (delete_where q xs) ≤ count_where p xs
  count_where-delete_where-le p q [] = omega arith
  count_where-delete_where-le p q (x ∷ xs) = ground (arith, count_where-delete_where-le p q xs)

  pub length-select_where :
      (p : A → Bool) (xs : List A) → length (select_where p xs) ≡ count_where p xs
  length-select_where p [] = refl
  length-select_where p (x ∷ xs) = ground (arith, length-select_where p xs)

  -- Rows that an update does not move across a test are counted as before.
  pub count_where-update_where :
      (p q : A → Bool) (f : A → A)
      → ((x : A) → q x ≡ true → p (f x) ≡ p x)
      → (xs : List A) → count_where p (update_where q f xs) ≡ count_where p xs
  count_where-update_where p q f same [] = refl
  count_where-update_where p q f same (x ∷ xs) =
      ground (arith, same x, count_where-update_where p q f same xs)

module _ {ℓ κ} {A : Type ℓ} (P : A → Type κ) where
  -- What holds on both branches of a test holds of the conditional.
  pub if_elim : (b : Bool) {x y : A} → (b ≡ true → P x) → (b ≡ false → P y) → P (if b then x else y)
  if_elim true h k = h refl
  if_elim false h k = k refl

  pub All-update_where :
      (q : A → Bool) (f : A → A)
      → ((x : A) → q x ≡ true → P x → P (f x))
      → (xs : List A) → All P xs
      → All P (update_where q f xs)
  All-update_where q f keep [] h = tt
  All-update_where q f keep (x ∷ xs) h =
      (if_elim (q x) (λ e. keep x e h.0) (λ _. h.0), All-update_where q f keep xs h.1)

module _ {ℓ κ} {A : Type ℓ} (P : A → Type κ) where
  pub All-select_where : (q : A → Bool) (xs : List A) → All P xs → All P (select_where q xs)
  All-select_where q [] h = tt
  All-select_where q (x ∷ xs) h =
      let ih = All-select_where q xs h.1 in if_elim (All P) (q x) (λ _. (h.0, ih)) (λ _. ih)

  pub All-delete_where : (q : A → Bool) (xs : List A) → All P xs → All P (delete_where q xs)
  All-delete_where q [] h = tt
  All-delete_where q (x ∷ xs) h =
      let ih = All-delete_where q xs h.1 in if_elim (All P) (q x) (λ _. ih) (λ _. (h.0, ih))
