-- ===== src/Prelude/Pairs.antt =====
-- Relations that hold between each row of a table and every later one.
use mathlib.Core.Path.{◌≡◌, refl}
use mathlib.Core.Bool.{Bool, true, false}
use mathlib.Core.List.{List, [], ◌∷◌, ◌++◌}
use native.Mathlib.Omega.{arith}
use find_verse.Prelude.Tests.{if◌then◌else◌}
use find_verse.Prelude.Lists.{All, any}
use find_verse.Prelude.Tables.{update_where, delete_where, if_elim, All-delete_where}

module _ {ℓ} {A : Type ℓ} where
  -- A test that no row passes fails on each.
  pub any-All : (p : A → Bool) (xs : List A) → any p xs ≡ false → All (λ x. p x ≡ false) xs
  any-All p [] h = tt
  any-All p (x ∷ xs) h = (ground arith, any-All p xs (ground arith))

module _ {ℓ κ μ ν} {A : Type ℓ} {P : A → Type κ} {Q : A → Type μ} {R : A → Type ν} where
  pub All-both : ((x : A) → P x → Q x → R x) → (xs : List A) → All P xs → All Q xs → All R xs
  All-both h [] p q = tt
  All-both h (x ∷ xs) p q = (h x p.0 q.0, All-both h xs p.1 q.1)

module _ {ℓ κ} {A : Type ℓ} (R : A → A → Type κ) where
  abbrev pub Pairwise : List A → Type κ
  Pairwise [] = Unit
  Pairwise (x ∷ xs) = All (R x) xs × Pairwise xs

  pub Pairwise-append :
      (xs : List A) (y : A) → Pairwise xs → All (λ x. R x y) xs → Pairwise (xs ++ y ∷ [])
  Pairwise-append [] y h k = (tt, tt)
  Pairwise-append (x ∷ xs) y h k = (all_then x xs h.0, Pairwise-append xs y h.1 k.1)
    where
      all_then : (z : A) (zs : List A) → All (R x) zs → All (R x) (zs ++ y ∷ [])
      all_then z [] a = (k.0, tt)
      all_then z (w ∷ ws) a = (a.0, all_then z ws a.1)

  pub Pairwise-delete_where :
      (q : A → Bool) (xs : List A) → Pairwise xs → Pairwise (delete_where q xs)
  Pairwise-delete_where q [] h = tt
  Pairwise-delete_where q (x ∷ xs) h =
      let ih = Pairwise-delete_where q xs h.1 in
      if_elim Pairwise (q x) (λ _. ih) (λ _. (All-delete_where (R x) q xs h.0, ih))

  module _ {μ} (P : A → Type μ) (q : A → Bool) (f : A → A)
      (keep : (x y : A)
        → R x y
        → P x
        → P y
        → R (if q x then f x else x) (if q y then f y else y)) where
    all_updated :
        (x : A) (xs : List A)
        → P x
        → All P xs
        → All (R x) xs
        → All (R (if q x then f x else x)) (update_where q f xs)
    all_updated x [] p ps h = tt
    all_updated x (y ∷ ys) p ps h = (keep x y h.0 p ps.0, all_updated x ys p ps.1 h.1)

    pub Pairwise-update_where :
        (xs : List A) → All P xs → Pairwise xs → Pairwise (update_where q f xs)
    Pairwise-update_where [] ps h = tt
    Pairwise-update_where (x ∷ xs) ps h =
        (all_updated x xs ps.0 ps.1 h.0, Pairwise-update_where xs ps.1 h.1)

  -- Two conditionals are related when their branches are, pair by pair.
  pub if_pair :
      (b c : Bool) (x y z w : A)
      → (b ≡ true → c ≡ true → R x z)
      → (b ≡ true → c ≡ false → R x w)
      → (b ≡ false → c ≡ true → R y z)
      → (b ≡ false → c ≡ false → R y w)
      → R (if b then x else y) (if c then z else w)
  if_pair true true x y z w h k l m = h refl refl
  if_pair true false x y z w h k l m = k refl refl
  if_pair false true x y z w h k l m = l refl refl
  if_pair false false x y z w h k l m = m refl refl
