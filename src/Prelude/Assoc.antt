-- ===== src/Prelude/Assoc.antt =====
-- `HashMap` with texts for keys: an association list in which an insertion replaces.
use mathlib.Core.Path.{◌≡◌}
use mathlib.Core.Option.{Option, none, some}
use mathlib.Core.List.{List, [], ◌∷◌}
use Prim.Native.String.{String}
use native.Mathlib.Omega.{arith}
use text.Mathlib.Text.{◌==◌ as str_eq}
use text.Mathlib.TextPositions.{eq_refl}
use find_verse.Prelude.Tests.{if◌then◌else◌}
use find_verse.Prelude.Lists.{All}
use find_verse.Prelude.Tables.{if_elim}

module _ {ℓ} {A : Type ℓ} where
  abbrev pub get : String → List (String × A) → Option A
  get key [] = none
  get key (row ∷ rows) = let rest = get key rows in if str_eq row.0 key then some row.1 else rest

  abbrev pub remove : String → List (String × A) → List (String × A)
  remove key [] = []
  remove key (row ∷ rows) =
      let rest = remove key rows in if str_eq row.0 key then rest else row ∷ rest

  abbrev pub insert : String → A → List (String × A) → List (String × A)
  insert key value rows = (key, value) ∷ remove key rows

  pub get-insert :
      (key : String) (value : A) (rows : List (String × A))
      → get key (insert key value rows) ≡ some value
  get-insert key value rows = ground (arith, eq_refl key)

  pub All-remove {κ} :
      (P : A → Type κ) (key : String) (rows : List (String × A))
      → All (λ r. P r.1) rows
      → All (λ r. P r.1) (remove key rows)
  All-remove P key [] h = tt
  All-remove P key (row ∷ rows) h =
      let ih = All-remove P key rows h.1 in
      if_elim (All (λ r. P r.1)) (str_eq row.0 key) (λ _. ih) (λ _. (h.0, ih))

  -- What holds of the value of an option, if it has one.
  abbrev pub OnSome {κ} : (A → Type κ) → Option A → Type κ
  OnSome P none = Unit
  OnSome P (some value) = P value

  pub All-get {κ} :
      (P : A → Type κ) (key : String) (rows : List (String × A))
      → All (λ r. P r.1) rows
      → OnSome P (get key rows)
  All-get P key [] h = tt
  All-get P key (row ∷ rows) h =
      if_elim (OnSome P) (str_eq row.0 key) (λ _. h.0) (λ _. All-get P key rows h.1)
