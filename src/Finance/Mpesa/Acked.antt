-- ===== src/Finance/Mpesa/Acked.antt =====
-- The handler acknowledges what it cannot process.
use finguard.Base.{
  ℕ, ◌≡◌, refl, sym, ap, ◌⊎◌, inl, inr, Bool, true, false, not, Option, none, some, String, if_elim,
}
use mathlib.Core.Path.{subst}
use finguard.Base.Int.{ℤ, pos, eqb_ℤ}
use finguard.Core.Errors.{AppError, Result, ok, err, ◌>>=◌, ◌>>◌, raise_if, or_raise}
use finguard.Core.Errors.AppError.{unprocessable, app_error, database_error}
use finguard.Finance.Rows.{MpesaTransaction}
use finguard.Finance.Db.{Db}
use finguard.Finance.Mpesa.{
  DecimalValue, ItemValue, MpesaStkCallback, Paid, get_item, is_truthy, str_of, required,
  decimal_of, checked_amount, read_paid, find_transaction, fits_columns, record_paid, store_paid,
  process_success, process_mpesa_callback, acked, mpesa_callback,
}

abbrev pub amount_of : (String → Option DecimalValue) → Option ItemValue → Option DecimalValue
amount_of parse none = none
amount_of parse (some v) = decimal_of parse v

-- What the handler does not catch: an amount that compares with no other, and a new row that the
-- columns do not keep.
pub data IsUncaught (parse : String → Option DecimalValue) (db : Db) (stk : MpesaStkCallback)
    : AppError → Type 0 where
  no_number :
      amount_of parse (get_item "Amount" stk) ≡ some DecimalValue.nan
      → IsUncaught parse db stk app_error
  too_wide :
      (paid : Paid)
      → read_paid parse stk ≡ ok paid
      → find_transaction paid.trans_id db.mpesa ≡ none
      → fits_columns paid paid.amount stk.checkout_request_id ≡ false
      → IsUncaught parse db stk database_error

-- A call that returns, or raises what satisfies `E`.
abbrev Splits {ℓ} : {A : Type ℓ} → (A → Type 0) → (AppError → Type 0) → Result A → Type 0
Splits P E (ok a) = P a
Splits P E (err e) = E e

Splits-bind {ℓ κ} :
    {A : Type ℓ} {B : Type κ} (P : A → Type 0) (Q : B → Type 0) (E : AppError → Type 0)
    (x : Result A) (k : A → Result B)
    → Splits P E x
    → ((a : A) → P a → Splits Q E (k a))
    → Splits Q E (x >>= k)
Splits-bind P Q E (ok a) k h f = f a h
Splits-bind P Q E (err e) k h f = h

abbrev Any {ℓ} : {A : Type ℓ} → A → Type 0
Any a = Unit {0}

module _ (parse : String → Option DecimalValue) (db : Db) (stk : MpesaStkCallback) where
  abbrev Raised : AppError → Type 0
  Raised e = (e ≡ unprocessable) ⊎ IsUncaught parse db stk e

  required-Splits : (o : Option ItemValue) → Splits Any Raised (required o)
  required-Splits none = inl refl
  required-Splits (some v) = guarded (not (is_truthy v)) (str_of v)
    where
      guarded : (b : Bool) (s : String) → Splits Any Raised (raise_if b unprocessable >> ok s)
      guarded true s = inl refl
      guarded false s = tt

  checked_amount-Splits :
      (d : DecimalValue)
      → amount_of parse (get_item "Amount" stk) ≡ some d
      → Splits Any Raised (checked_amount d)
  checked_amount-Splits (DecimalValue.finite true cents) h = tt
  checked_amount-Splits (DecimalValue.finite false cents) h = inl refl
  checked_amount-Splits (DecimalValue.infinite true) h = tt
  checked_amount-Splits (DecimalValue.infinite false) h = inl refl
  checked_amount-Splits DecimalValue.nan h = inr (IsUncaught.no_number h)

  priced :
      (o : Option DecimalValue) (trans_id phone : String)
      → amount_of parse (get_item "Amount" stk) ≡ o
      → Splits
          (λ (paid : Paid). Unit {0})
          Raised
          (or_raise o unprocessable >>= λ value. checked_amount value >>= λ amount.
            ok (record { trans_id = trans_id; amount = amount; phone = phone }))
  priced none trans_id phone h = inl refl
  priced (some d) trans_id phone h =
      Splits-bind Any Any Raised (checked_amount d) _ (checked_amount-Splits d h) (λ amount u. tt)

  with_amount :
      (o : Option ItemValue) (trans_id : String)
      → get_item "Amount" stk ≡ o
      → Splits
          (λ (paid : Paid). Unit {0})
          Raised
          (or_raise o unprocessable >>= λ amount_raw.
            required (get_item "PhoneNumber" stk) >>= λ phone.
            or_raise (decimal_of parse amount_raw) unprocessable >>= λ value.
            checked_amount value >>= λ amount.
            ok (record { trans_id = trans_id; amount = amount; phone = phone }))
  with_amount none trans_id e = inl refl
  with_amount (some v) trans_id e =
      Splits-bind Any Any Raised (required (get_item "PhoneNumber" stk)) _
        (required-Splits (get_item "PhoneNumber" stk))
        (λ phone u. priced (decimal_of parse v) trans_id phone (ap (amount_of parse) e))

  read_paid-Splits : Splits Any Raised (read_paid parse stk)
  unfolding read_paid
  read_paid-Splits =
      Splits-bind Any Any Raised (required (get_item "MpesaReceiptNumber" stk)) _
        (required-Splits (get_item "MpesaReceiptNumber" stk))
        (λ trans_id u. with_amount (get_item "Amount" stk) trans_id refl)

  unfit : (b : Bool) → (not b ≡ true) → b ≡ false
  unfit true h = cc
  unfit false h = refl

  store_paid-Splits :
      (paid : Paid) (amount : Option ℤ) (id now : ℕ)
      → (fits_columns paid amount stk.checkout_request_id ≡ false
          → IsUncaught parse db stk database_error)
      → Splits Any Raised (store_paid paid amount stk.checkout_request_id id now db)
  unfolding fits_columns
  store_paid-Splits paid none id now h = inr (h refl)
  store_paid-Splits paid (some amount) id now h =
      guarded (fits_columns paid (some amount) stk.checkout_request_id) _ h
    where
      guarded :
          (b : Bool) (r : Option MpesaTransaction × Db)
          → (b ≡ false → IsUncaught parse db stk database_error)
          → Splits Any Raised (raise_if (not b) database_error >> ok r)
      guarded true r h = tt
      guarded false r h = inr (h refl)

  record_paid-Splits :
      (o : Option MpesaTransaction) (paid : Paid) (id now : ℕ)
      → find_transaction paid.trans_id db.mpesa ≡ o
      → read_paid parse stk ≡ ok paid
      → Splits Any Raised (record_paid o paid stk.checkout_request_id id now db)
  record_paid-Splits (some t) paid id now new e = tt
  record_paid-Splits none paid id now new e =
      store_paid-Splits paid paid.amount id now (IsUncaught.too_wide paid e new)

  read-Splits :
      (x : Result Paid) (id now : ℕ)
      → read_paid parse stk ≡ x
      → Splits Any Raised x
      → Splits Any Raised (
          x >>= λ paid.
          record_paid
            (find_transaction paid.trans_id db.mpesa)
            paid
            stk.checkout_request_id
            id
            now
            db)
  read-Splits (err e) id now q h = h
  read-Splits (ok paid) id now q h =
      record_paid-Splits (find_transaction paid.trans_id db.mpesa) paid id now refl q

-- What the handler leaves: the tables of the service call, or those before a refused one.
abbrev pub IsAcked : Db → Result (Option MpesaTransaction × Db) → Db → Type 0
IsAcked db (ok r) after = after ≡ r.1
IsAcked db (err e) after = (e ≡ unprocessable) × (after ≡ db)

-- The answer of the handler: an acknowledgement, or an exception that it does not catch.
abbrev pub IsAnswered :
    (AppError → Type 0) → Db → Result (Option MpesaTransaction × Db) → Result Db → Type 0
IsAnswered U db x (ok after) = IsAcked db x after
IsAnswered U db x (err e) = U e

-- An envelope that fails its schema is always acknowledged.
abbrev pub Uncaught :
    (String → Option DecimalValue) → Db → Option MpesaStkCallback → AppError → Type 0
Uncaught parse db none e = ⊥
Uncaught parse db (some stk) e = IsUncaught parse db stk e

uncaught-IsAnswered :
    (parse : String → Option DecimalValue) (db : Db) (stk : MpesaStkCallback) (e : AppError)
    → IsUncaught parse db stk e
    → IsAnswered (IsUncaught parse db stk) db (err e) (acked db (err e))
uncaught-IsAnswered parse db stk _ (IsUncaught.no_number h) = IsUncaught.no_number h
uncaught-IsAnswered parse db stk _ (IsUncaught.too_wide paid e n f) = IsUncaught.too_wide paid e n f

acked-IsAnswered :
    (parse : String → Option DecimalValue) (db : Db) (stk : MpesaStkCallback)
    (x : Result (Option MpesaTransaction × Db))
    → Splits Any (λ e. (e ≡ unprocessable) ⊎ IsUncaught parse db stk e) x
    → IsAnswered (IsUncaught parse db stk) db x (acked db x)
acked-IsAnswered parse db stk (ok r) h = refl
acked-IsAnswered parse db stk (err e) (inl h) =
    subst
      (λ (raised : AppError).
        IsAnswered (IsUncaught parse db stk) db (err raised) (acked db (err raised)))
      (sym h) (refl, refl)
acked-IsAnswered parse db stk (err e) (inr h) = uncaught-IsAnswered parse db stk e h

process_success-Splits :
    (parse : String → Option DecimalValue) (db : Db) (stk : MpesaStkCallback) (id now : ℕ)
    → Splits Any
        (λ e. (e ≡ unprocessable) ⊎ IsUncaught parse db stk e)
        (process_success parse stk id now db)
unfolding process_success
process_success-Splits parse db stk id now =
    read-Splits parse db stk (read_paid parse stk) id now refl (read_paid-Splits parse db stk)

-- The handler of an M-Pesa callback leaves the tables of the service call if that returns, and
-- the tables as they were if it raises `UnprocessableError`. It raises in two cases only: the
-- amount is not a number that compares with zero, or the callback was read, its receipt is not
-- recorded yet, and the columns of the new row do not keep its amount or one of its texts.
pub mpesa_callback-IsAcked :
    (parse : String → Option DecimalValue) (envelope : Option MpesaStkCallback) (id now : ℕ)
    (db : Db)
    → IsAnswered
        (Uncaught parse db envelope)
        db
        (process_mpesa_callback parse envelope id now db)
        (mpesa_callback parse envelope id now db)
unfolding mpesa_callback process_mpesa_callback
mpesa_callback-IsAcked parse none id now db = (refl, refl)
mpesa_callback-IsAcked parse (some stk) id now db = acked-IsAnswered parse db stk _ (
    if_elim (Splits Any (λ e. (e ≡ unprocessable) ⊎ IsUncaught parse db stk e))
      (not (eqb_ℤ stk.result_code (pos 0))) (ok (none, db)) _ tt
      (process_success-Splits parse db stk id now))
