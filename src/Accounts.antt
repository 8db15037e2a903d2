-- ===== src/Accounts.antt =====
-- The tables of users, sessions, API keys and daily usage of
-- services/api/migrations/0001_initial.sql, on which services/api/src/dev_auth.rs and
-- services/api/src/store/developer.rs work. A deletion of a user takes what refers to it along. Times
-- are seconds and days are numbers; a limit is the bit pattern of its `i32`. Errors of the database
-- other than a broken constraint are not modelled.
pub mod Support
pub mod Limits
pub mod Keys
pub mod Sessions
pub mod Users
pub mod Sound
use find_verse.Common.Error.{ApiError, Result, ok, err, ◌>>=◌, guard}
use find_verse.Prelude.{ℕ, List, String, Option, Bool, true, false, ◌≡◌, refl, subst, if◌then◌else◌}

pub record User : Type 0 where
  pub id : String
  pub external_id : String
  pub username : String
  pub role : String
  pub enabled : Bool
  pub daily_limit : ℕ
  pub created_at : ℕ

pub record Credential : Type 0 where
  pub user_id : String
  pub password_hash : String
  pub password_scheme : String

pub record Session : Type 0 where
  pub user_id : String
  pub token_hash : String
  pub last_used_at : ℕ
  pub revoked_at : Option ℕ

pub record ApiKey : Type 0 where
  pub id : String
  pub user_id : String
  pub name : String
  pub preview : String
  pub token_hash : String
  pub created_at : ℕ
  pub last_used_at : Option ℕ
  pub revoked_at : Option ℕ

pub record Usage : Type 0 where
  pub user_id : String
  pub usage_day : ℕ
  pub used_count : ℕ

pub record Accounts : Type 0 where
  pub users : List User
  pub credentials : List Credential
  pub sessions : List Session
  pub keys : List ApiKey
  pub usage : List Usage

-- What the functions outside the repository give: the Argon2 hash of a password under a salt, whether a
-- password fits a hash (`none` when the text is no hash), and `lower` of PostgreSQL.
pub record Passwords : Type 0 where
  pub hash_with : (salt password : String) → Option String
  pub verify : (password password_hash : String) → Option Bool
  pub lower : String → String

-- An operation that writes nothing when it fails.
abbrev pub Attempt {ℓ} : Type ℓ → Type ℓ
Attempt A = Result (Accounts × A)

-- An operation that keeps what it has written when it fails.
abbrev pub Answer {ℓ} : Type ℓ → Type ℓ
Answer A = Accounts × Result A

-- What an operation makes true of the tables when it succeeds.
abbrev pub Post {ℓ κ} : {A : Type ℓ} → (Accounts → Type κ) → Attempt A → Type κ
Post P (ok v) = P v.0
Post P (err e) = Unit

pub Post->>= {ℓ κ μ} :
    {A : Type ℓ} {B : Type μ} (P : Accounts → Type κ) (m : Result B) (f : B → Attempt A)
    → ((v : B) → m ≡ ok v → Post P (f v))
    → Post P (m >>= f)
Post->>= P (ok v) f h = h v refl
Post->>= P (err e) f h = tt

pub Post-if {ℓ κ} :
    {A : Type ℓ} (P : Accounts → Type κ) (test : Bool) (b : Accounts) (x : A) (e : ApiError)
    → (test ≡ true → P b)
    → Post P (if test then ok (b, x) else err e)
Post-if P true b x e h = h refl
Post-if P false b x e h = tt

pub Post_ok {ℓ κ} :
    {A : Type ℓ} (P : Accounts → Type κ) {m : Attempt A} {b : Accounts} {x : A}
    → m ≡ ok (b, x)
    → Post P m
    → P b
Post_ok P e h = subst (Post P) e h

pub Post-refused {ℓ κ μ} :
    {A : Type ℓ} {B : Type μ} (P : Accounts → Type κ) (test : Bool) (e : ApiError) (v : B)
    (f : B → Attempt A)
    → (test ≡ false → Post P (f v))
    → Post P ((if test then err e else ok v) >>= f)
Post-refused P true e v f h = tt
Post-refused P false e v f h = h refl

pub Post-guard {ℓ κ} :
    {A : Type ℓ} (P : Accounts → Type κ) (test : Bool) (e : ApiError) (f : Unit {0} → Attempt A)
    → (test ≡ true → Post P (f tt))
    → Post P (guard test e >>= f)
Post-guard P true e f h = h refl
Post-guard P false e f h = tt

pub Post-else {ℓ κ} :
    {A : Type ℓ} (P : Accounts → Type κ) (test : Bool) (b : Accounts) (x : A) (e : ApiError)
    → (test ≡ false → P b)
    → Post P (if test then err e else ok (b, x))
Post-else P true b x e h = tt
Post-else P false b x e h = h refl

pub Post-imp {ℓ κ μ} :
    {A : Type ℓ} (P : Accounts → Type κ) (Q : Accounts → Type μ)
    → ((b : Accounts) → P b → Q b)
    → (m : Attempt A) → Post P m
    → Post Q m
Post-imp P Q h (ok v) p = h v.0 p
Post-imp P Q h (err e) p = tt
