-- ===== src/Core/Errors.antt =====
-- The exceptions of backend/src/core/exceptions.py, an error of the database driver at a flush, which
-- the application answers with 500 too, and the results of a service call. A call that
-- raises does not commit, and the session of the request is rolled back: it has no new database.
use finguard.Base.{ℕ, ◌≡◌, refl, Bool, true, false, Option, none, some, if◌then◌else◌}

pub data AppError : Type 0 where
  app_error not_found unauthorized forbidden conflict unprocessable too_many_requests : AppError
  database_error : AppError

-- `status_code`
abbrev pub status_code : AppError → ℕ
status_code AppError.app_error = 500
status_code AppError.not_found = 404
status_code AppError.unauthorized = 401
status_code AppError.forbidden = 403
status_code AppError.conflict = 409
status_code AppError.unprocessable = 422
status_code AppError.too_many_requests = 429
status_code AppError.database_error = 500

pub data Result {ℓ} (A : Type ℓ) : Type ℓ where
  ok : A → Result A
  err : AppError → Result A

infixl 5 ◌>>=◌ ◌>>◌
-- A call after another; an exception ends the caller too.
abbrev pub ◌>>=◌ {ℓ κ} : {X : Type ℓ} {Y : Type κ} → Result X → (X → Result Y) → Result Y
err raised >>= rest = err raised
ok returned >>= rest = rest returned

abbrev pub ◌>>◌ {ℓ} : {Y : Type ℓ} → Result (Unit {0}) → Result Y → Result Y
err raised >> rest = err raised
ok returned >> rest = rest

-- `if b: raise e`
abbrev pub raise_if : Bool → AppError → Result (Unit {0})
raise_if true e = err e
raise_if false e = ok tt

-- `if not row: raise e`
abbrev pub or_raise {ℓ} : {A : Type ℓ} → Option A → AppError → Result A
or_raise none e = err e
or_raise (some a) e = ok a

-- What a call that returns has established; a call that raises has nothing to show.
abbrev pub Ensures {ℓ κ} : {A : Type ℓ} → (A → Type κ) → Result A → Type κ
Ensures P (ok a) = P a
Ensures P (err e) = Unit

-- What a call establishes that is known to return.
abbrev pub Returns {ℓ} : {A : Type ℓ} → (A → Type 0) → Result A → Type 0
Returns P (ok a) = P a
Returns P (err e) = ⊥

module _ {ℓ κ} {A : Type ℓ} (P : A → Type κ) where
  pub Ensures-raise_if :
      (b : Bool) (e : AppError) (k : Result A)
      → (b ≡ false → Ensures P k)
      → Ensures P (raise_if b e >> k)
  Ensures-raise_if true e k h = tt
  Ensures-raise_if false e k h = h refl

  pub Ensures-if :
      (b : Bool) (m n : Result A)
      → (b ≡ true → Ensures P m)
      → (b ≡ false → Ensures P n)
      → Ensures P (if b then m else n)
  Ensures-if true m n h k = h refl
  Ensures-if false m n h k = k refl

module _ {ℓ κ ι} {A : Type ℓ} {B : Type κ} (P : B → Type ι) where
  pub Ensures-or_raise :
      (o : Option A) (e : AppError) (k : A → Result B)
      → ((a : A) → o ≡ some a → Ensures P (k a))
      → Ensures P (or_raise o e >>= k)
  Ensures-or_raise none e k h = tt
  Ensures-or_raise (some a) e k h = h a refl

  pub Ensures-bind {ι₂} :
      (Q : A → Type ι₂) (m : Result A) (k : A → Result B)
      → Ensures Q m
      → ((a : A) → Q a → Ensures P (k a))
      → Ensures P (m >>= k)
  Ensures-bind Q (ok a) k h f = f a h
  Ensures-bind Q (err e) k h f = tt

pub Returns-map {ℓ} :
    {A : Type ℓ} (P Q : A → Type 0) (m : Result A)
    → ((a : A) → P a → Q a)
    → Returns P m
    → Returns Q m
Returns-map P Q (ok a) f h = f a h
Returns-map P Q (err e) f h = elim h [ ]

pub Ensures-map {ℓ κ ι} :
    {A : Type ℓ} (P : A → Type κ) (Q : A → Type ι) (m : Result A)
    → ((a : A) → P a → Q a)
    → Ensures P m
    → Ensures Q m
Ensures-map P Q (ok a) f h = f a h
Ensures-map P Q (err e) f h = tt

pub Ensures-any {ℓ} : {A : Type ℓ} (m : Result A) → Ensures (λ a. Unit {0}) m
Ensures-any (ok a) = tt
Ensures-any (err e) = tt

pub Ensures-both {ℓ κ ι} :
    {A : Type ℓ} (P : A → Type κ) (Q : A → Type ι) (m : Result A)
    → Ensures P m
    → Ensures Q m
    → Ensures (λ a. P a × Q a) m
Ensures-both P Q (ok a) h k = (h, k)
Ensures-both P Q (err e) h k = tt

-- A premise of the call, as one of what it establishes.
pub Ensures-premise {ℓ κ ι} :
    {A : Type ℓ} (H : Type κ) (P : A → Type ι) (m : Result A)
    → (H → Ensures P m)
    → Ensures (λ a. H → P a) m
Ensures-premise H P (ok a) f = f
Ensures-premise H P (err e) f = tt
