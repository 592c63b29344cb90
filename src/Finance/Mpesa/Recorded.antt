-- ===== src/Finance/Mpesa/Recorded.antt =====
-- A payment is recorded once.
use text.Mathlib.Text.{◌==◌ as str_eq}
use text.Mathlib.TextEquality.{eq_iff}
use finguard.Base.{
  ℕ, ◌≡◌, refl, sym, ap, ◌∙◌, ◌⊎◌, inl, inr, Bool, true, false, not, Option, none, some, List, [],
  ◌∷◌, ◌++◌, String, if◌then◌else◌, Bool-cases,
}
use finguard.Base.Int.{ℤ, pos, eqb_ℤ}
use finguard.Core.Errors.{
  Result, ok, err, Ensures, Ensures-bind, Ensures-raise_if, Ensures-any, Ensures-if, ◌>>=◌,
}
use finguard.Finance.Rows.{MpesaTransaction, OutboxPayload}
use finguard.Finance.Db.{Db}
use finguard.Finance.Mpesa.{
  DecimalValue, MpesaStkCallback, Paid, read_paid, find_transaction, transaction_row, fits_columns,
  record_paid, store_paid, process_success, process_mpesa_callback,
}

-- What a call that returns has done: nothing, or one new row with its event.
pub record IsAdded (db : Db) (t : MpesaTransaction) (after : Db) : Type 0 where
  pub new : find_transaction t.trans_id db.mpesa ≡ none
  pub stored : after.mpesa ≡ db.mpesa ++ t ∷ []
  pub open_row : t.is_reconciled ≡ false
  pub announced :
      after.outbox
      ≡ db.outbox
        ++ record {
          exchange = "finguard.events";
          routing_key = "mpesa.reconciled";
          payload = OutboxPayload.mpesa_reconciled t.trans_id t.amount t.phone t.bill_ref t.vault;
        }
          ∷ []

-- The row is there afterwards, also when it was there before.
abbrev pub IsRecorded : Db → Option MpesaTransaction × Db → Type 0
IsRecorded db (none, after) = after ≡ db
IsRecorded db (some t, after) =
    (find_transaction t.trans_id after.mpesa ≡ some t) × ((after ≡ db) ⊎ IsAdded db t after)

find_transaction-append :
    (trans_id : String) (ts : List MpesaTransaction) (t : MpesaTransaction)
    → find_transaction trans_id ts ≡ none
    → t.trans_id ≡ trans_id
    → find_transaction trans_id (ts ++ t ∷ []) ≡ some t
unfolding find_transaction
find_transaction-append trans_id [] t h e = rw ((eq_iff t.trans_id trans_id).1 e) refl
find_transaction-append trans_id (x ∷ ts) t h e = elim (Bool-cases (str_eq x.trans_id trans_id)) [
  | inl k ↦ absurd (rw k at h)
  | inr k ↦ rw k (find_transaction-append trans_id ts t (rw k at h) e)
]
  where
    absurd :
        some x ≡ none
        → (if str_eq x.trans_id trans_id then some x else find_transaction trans_id (ts ++ t ∷ []))
          ≡ some t
    absurd e = cc

find_transaction-key :
    (trans_id : String) (ts : List MpesaTransaction) (t : MpesaTransaction)
    → find_transaction trans_id ts ≡ some t
    → t.trans_id ≡ trans_id
unfolding find_transaction
find_transaction-key trans_id [] t h = cc
find_transaction-key trans_id (x ∷ ts) t h = elim (Bool-cases (str_eq x.trans_id trans_id)) [
  | inl k ↦ here (rw k at h) ((eq_iff x.trans_id trans_id).0 k)
  | inr k ↦ find_transaction-key trans_id ts t (rw k at h)
]
  where
    here : some x ≡ some t → x.trans_id ≡ trans_id → t.trans_id ≡ trans_id
    here e k =
        ap (λ (o : Option MpesaTransaction). elim o [ none ↦ trans_id | some y ↦ y.trans_id ])
          (sym e)
        ∙ k

store_paid-IsRecorded :
    (paid : Paid) (amount : Option ℤ) (bill_ref : String) (id now : ℕ) (db : Db)
    → find_transaction paid.trans_id db.mpesa ≡ none
    → Ensures (IsRecorded db) (store_paid paid amount bill_ref id now db)
store_paid-IsRecorded paid none bill_ref id now db e = tt
store_paid-IsRecorded paid (some amount) bill_ref id now db e =
    let t = transaction_row paid amount bill_ref id now in
    Ensures-raise_if (IsRecorded db) (not (fits_columns paid (some amount) bill_ref)) _ _ λ fits. (
      find_transaction-append paid.trans_id db.mpesa t e refl,
      inr (record { new = e; stored = refl; open_row = refl; announced = refl }),
    )

record_paid-IsRecorded :
    (o : Option MpesaTransaction) (paid : Paid) (bill_ref : String) (id now : ℕ) (db : Db)
    → find_transaction paid.trans_id db.mpesa ≡ o
    → Ensures (IsRecorded db) (record_paid o paid bill_ref id now db)
record_paid-IsRecorded (some t) paid bill_ref id now db e = (
  ap (λ k. find_transaction k db.mpesa) (find_transaction-key paid.trans_id db.mpesa t e) ∙ e,
  inl refl,
)
record_paid-IsRecorded none paid bill_ref id now db e =
    store_paid-IsRecorded paid paid.amount bill_ref id now db e

process_success-IsRecorded :
    (parse : String → Option DecimalValue) (stk : MpesaStkCallback) (id now : ℕ) (db : Db)
    → Ensures (IsRecorded db) (process_success parse stk id now db)
unfolding process_success
process_success-IsRecorded parse stk id now db =
    Ensures-bind (IsRecorded db) (λ paid. Unit {0}) (read_paid parse stk) _
      (Ensures-any (read_paid parse stk))
      (λ paid u.
        record_paid-IsRecorded (find_transaction paid.trans_id db.mpesa) paid
          stk.checkout_request_id id now db refl)

-- An M-Pesa callback that returns no transaction has changed nothing. If it returns one, then
-- the table finds it under its receipt, and either nothing was changed, or no row had this
-- receipt before, and the call has added the one row, not reconciled yet, with the one event
-- that announces it.
pub process_mpesa_callback-IsRecorded :
    (parse : String → Option DecimalValue) (envelope : Option MpesaStkCallback) (id now : ℕ)
    (db : Db)
    → Ensures (IsRecorded db) (process_mpesa_callback parse envelope id now db)
unfolding process_mpesa_callback
process_mpesa_callback-IsRecorded parse none id now db = tt
process_mpesa_callback-IsRecorded parse (some stk) id now db =
    Ensures-if (IsRecorded db) (not (eqb_ℤ stk.result_code (pos 0))) (ok (none, db))
      (process_success parse stk id now db) (λ failed. refl)
      (λ went_through. process_success-IsRecorded parse stk id now db)

-- The same callback again, at any later time.
abbrev IsDone :
    (ℕ → ℕ → Db → Result (Option MpesaTransaction × Db))
    → Result (Option MpesaTransaction × Db)
    → Type 0
IsDone again first =
    Ensures (λ (r : Option MpesaTransaction × Db). (id now : ℕ) → again id now r.1 ≡ ok r) first

store_paid-IsDone :
    (paid : Paid) (amount : Option ℤ) (bill_ref : String) (id now : ℕ) (db : Db)
    → find_transaction paid.trans_id db.mpesa ≡ none
    → IsDone
        (λ id now db. record_paid (find_transaction paid.trans_id db.mpesa) paid bill_ref id now db)
        (store_paid paid amount bill_ref id now db)
store_paid-IsDone paid none bill_ref id now db e = tt
store_paid-IsDone paid (some amount) bill_ref id now db e =
    Ensures-raise_if _ (not (fits_columns paid (some amount) bill_ref)) _ _ λ fits id2 now2.
      rw
        (find_transaction-append paid.trans_id db.mpesa
          (transaction_row paid amount bill_ref id now) e refl)
        refl

record_paid-IsDone :
    (o : Option MpesaTransaction) (paid : Paid) (bill_ref : String) (id now : ℕ) (db : Db)
    → find_transaction paid.trans_id db.mpesa ≡ o
    → IsDone
        (λ id now db. record_paid (find_transaction paid.trans_id db.mpesa) paid bill_ref id now db)
        (record_paid o paid bill_ref id now db)
record_paid-IsDone (some t) paid bill_ref id now db e = λ id2 now2. rw e refl
record_paid-IsDone none paid bill_ref id now db e =
    store_paid-IsDone paid paid.amount bill_ref id now db e

read-IsDone :
    (x : Result Paid) (bill_ref : String) (id now : ℕ) (db : Db)
    → IsDone
        (λ id now db. x >>= λ paid.
          record_paid (find_transaction paid.trans_id db.mpesa) paid bill_ref id now db)
        (x >>= λ paid.
          record_paid (find_transaction paid.trans_id db.mpesa) paid bill_ref id now db)
read-IsDone (err e) bill_ref id now db = tt
read-IsDone (ok paid) bill_ref id now db =
    record_paid-IsDone (find_transaction paid.trans_id db.mpesa) paid bill_ref id now db refl

if-IsDone :
    (b : Bool) (go : ℕ → ℕ → Db → Result (Option MpesaTransaction × Db)) (id now : ℕ) (db : Db)
    → IsDone go (go id now db)
    → IsDone
        (λ id now db. if b then ok (none, db) else go id now db)
        (if b then ok (none, db) else go id now db)
if-IsDone true go id now db h = λ id2 now2. refl
if-IsDone false go id now db h = h

-- If an M-Pesa callback returns, then the same callback again, at any later time and with any
-- fresh id, returns the same transaction and leaves the tables as the first one left them.
pub process_mpesa_callback-twice :
    (parse : String → Option DecimalValue) (envelope : Option MpesaStkCallback) (id now : ℕ)
    (db : Db)
    → Ensures
        (λ (r : Option MpesaTransaction × Db).
          (id2 now2 : ℕ) → process_mpesa_callback parse envelope id2 now2 r.1 ≡ ok r)
        (process_mpesa_callback parse envelope id now db)
unfolding process_mpesa_callback process_success
process_mpesa_callback-twice parse none id now db = tt
process_mpesa_callback-twice parse (some stk) id now db =
    if-IsDone (not (eqb_ℤ stk.result_code (pos 0))) (process_success parse stk) id now db
      (read-IsDone (read_paid parse stk) stk.checkout_request_id id now db)
