-- ===== src/Common/Error.antt =====
-- services/api/src/error.rs: the errors of the API, and results that carry them.
use find_verse.Prelude.{String, Bool, true, false, Option, none, some, ◌≡◌, refl, subst}

pub data ApiError : Type 0 where
  bad_request unauthorized not_found conflict too_many_requests internal :
      (message : String) → ApiError

-- The text that an error prints. The cause of an internal error goes to the log alone.
abbrev pub error_text : ApiError → String
error_text (bad_request message) = message
error_text (unauthorized message) = message
error_text (not_found message) = message
error_text (conflict message) = message
error_text (too_many_requests message) = message
error_text (internal message) = "internal server error"

-- `Result<A, ApiError>`
pub data Result {ℓ} (A : Type ℓ) : Type ℓ where
  err : (error : ApiError) → Result A
  ok : (value : A) → Result A

-- An early return with an error unless the test holds.
abbrev pub guard : (test : Bool) → ApiError → Result (Unit {0})
guard false error = err error
guard true error = ok tt

infixl 5 ◌>>=◌ ◌>>◌
-- The operator `?`, with the rest of the function as `next`.
abbrev pub ◌>>=◌ {ℓ κ} : {A : Type ℓ} {B : Type κ} → Result A → (A → Result B) → Result B
err error >>= next = err error
ok value >>= next = next value

-- A step whose value is of no interest.
abbrev pub ◌>>◌ {κ} : {B : Type κ} → Result (Unit {0}) → Result B → Result B
step >> later = step >>= (λ done. later)

-- `ok_or_else`
abbrev pub ok_or {ℓ} : {A : Type ℓ} → Option A → ApiError → Result A
ok_or none e = err e
ok_or (some a) e = ok a

abbrev pub is_ok {ℓ} : {A : Type ℓ} → Result A → Bool
is_ok (ok a) = true
is_ok (err e) = false

-- What holds of the value that a result carries, if it does.
abbrev pub Returns {ℓ κ} : {A : Type ℓ} → (A → Type κ) → Result A → Type κ
Returns P (ok a) = P a
Returns P (err e) = Unit

pub Returns_ok {ℓ κ} :
    {A : Type ℓ} (P : A → Type κ) {m : Result A} {a : A} → m ≡ ok a → Returns P m → P a
Returns_ok P e h = subst (Returns P) e h

pub Returns->>= {ℓ κ μ} :
    {A : Type ℓ} {B : Type μ} (P : A → Type κ) (m : Result B) (f : B → Result A)
    → ((b : B) → m ≡ ok b → Returns P (f b))
    → Returns P (m >>= f)
Returns->>= P (ok b) f h = h b refl
Returns->>= P (err e) f h = tt
