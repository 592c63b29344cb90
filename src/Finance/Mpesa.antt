-- ===== src/Finance/Mpesa.antt =====
-- The M-Pesa callback: `process_mpesa_callback` of backend/src/domains/finance/service.py, and its
-- handler in router.py. The schema check of the envelope and the parser of decimal texts are the
-- arguments `envelope` (none if it fails) and `parse`.
pub mod Recorded
pub mod Acked
use text.Mathlib.Text.{◌==◌ as str_eq}
use finguard.Base.{
  ℕ, Bool, true, false, not, ◌&&◌, ◌||◌, Option, none, some, List, [], ◌∷◌, ◌++◌, String,
  if◌then◌else◌, leb,
}
use finguard.Base.Int.{ℤ, pos, eqb_ℤ, ltb_ℤ}
use finguard.Base.Text.{is_empty, str_length}
use finguard.Core.Errors.{AppError, Result, ok, err, ◌>>=◌, ◌>>◌, raise_if, or_raise}
use finguard.Core.Errors.AppError.{unprocessable, app_error, database_error}
use finguard.Finance.Types.{mpesa}
use finguard.Finance.Rows.{MpesaTransaction, OutboxPayload}
use finguard.Finance.Db.{Db, add_outbox}

-- A `Decimal`: whether it is above zero with the cents that a column of two places keeps, or one of
-- the values that no column keeps.
pub data DecimalValue : Type 0 where
  finite : Bool → ℤ → DecimalValue
  infinite : Bool → DecimalValue
  nan : DecimalValue

-- The value of an item that is not null: a text, or a number with its text; zero is false.
pub data ItemValue : Type 0 where
  string : String → ItemValue
  number : DecimalValue → Bool → String → ItemValue

pub record MpesaStkCallback : Type 0 where
  pub checkout_request_id : String
  pub result_code : ℤ
  pub items : List (String × Option ItemValue)

-- `items.get(name)`: of two items with one name the later one stays.
unfoldable pub item_of :
    String → List (String × Option ItemValue) → Option ItemValue → Option ItemValue
item_of name [] found = found
item_of name (x ∷ xs) found = item_of name xs (if str_eq x.0 name then x.1 else found)

abbrev pub get_item : String → MpesaStkCallback → Option ItemValue
get_item name stk = item_of name stk.items none

-- `bool(value)`
abbrev pub is_truthy : ItemValue → Bool
is_truthy (string s) = not (is_empty s)
is_truthy (number d nonzero s) = nonzero

-- `str(value)`
abbrev pub str_of : ItemValue → String
str_of (string s) = s
str_of (number d nonzero s) = s

-- `Decimal(str(value))`
abbrev pub decimal_of : (String → Option DecimalValue) → ItemValue → Option DecimalValue
decimal_of parse (string s) = parse s
decimal_of parse (number d nonzero s) = some d

-- `if not value: raise`
abbrev pub required : Option ItemValue → Result String
required none = err unprocessable
required (some v) = raise_if (not (is_truthy v)) unprocessable >> ok (str_of v)

-- `if amount <= 0`; a comparison with a value that is not a number is not caught.
abbrev pub checked_amount : DecimalValue → Result (Option ℤ)
checked_amount (finite true cents) = ok (some cents)
checked_amount (finite false cents) = err unprocessable
checked_amount (infinite true) = ok none
checked_amount (infinite false) = err unprocessable
checked_amount nan = err app_error

-- What a successful callback has to carry; no amount stands for one that no column keeps.
pub record Paid : Type 0 where
  pub trans_id : String
  pub amount : Option ℤ
  pub phone : String

unfoldable pub read_paid : (String → Option DecimalValue) → MpesaStkCallback → Result Paid
unfolding item_of
read_paid parse stk = do
  trans_id ← required (get_item "MpesaReceiptNumber" stk)
  amount_raw ← or_raise (get_item "Amount" stk) unprocessable
  phone ← required (get_item "PhoneNumber" stk)
  value ← or_raise (decimal_of parse amount_raw) unprocessable
  amount ← checked_amount value
  ok (record { trans_id = trans_id; amount = amount; phone = phone })

-- `get_by_trans_id`
unfoldable pub find_transaction : String → List MpesaTransaction → Option MpesaTransaction
find_transaction trans_id [] = none
find_transaction trans_id (t ∷ ts) =
    if str_eq t.trans_id trans_id then some t else find_transaction trans_id ts

abbrev pub transaction_row : Paid → ℤ → String → ℕ → ℕ → MpesaTransaction
transaction_row paid amount bill_ref id now = record {
  id = id;
  trans_id = paid.trans_id;
  amount = amount;
  phone = paid.phone;
  bill_ref = some bill_ref;
  vault = mpesa;
  is_reconciled = false;
  created_at = now;
}

abbrev pub append_transaction : MpesaTransaction → Db → Db
append_transaction t db = record db { mpesa = db.mpesa ++ t ∷ [] }

-- `Numeric(15, 2)`; the amount is above zero.
abbrev pub amount_fits : Option ℤ → Bool
amount_fits none = false
amount_fits (some amount) = ltb_ℤ amount (pos 1000000000000000)

-- The columns of the row: the amount, `String(50)`, `String(20)` and `String(100)`.
unfoldable pub fits_columns : Paid → Option ℤ → String → Bool
unfolding str_length
fits_columns paid amount bill_ref =
    amount_fits amount
    && leb (str_length paid.trans_id) 50
    && leb (str_length paid.phone) 20
    && leb (str_length bill_ref) 100

-- The new row with its event; the flush of a value that the columns cannot keep fails.
abbrev pub store_paid :
    Paid → Option ℤ → String → ℕ → ℕ → Db → Result (Option MpesaTransaction × Db)
store_paid paid none bill_ref id now db = err database_error
store_paid paid (some amount) bill_ref id now db =
    let t = transaction_row paid amount bill_ref id now in
    raise_if (not (fits_columns paid (some amount) bill_ref)) database_error
    >> ok (
      some t,
      add_outbox
          (record {
            exchange = "finguard.events";
            routing_key = "mpesa.reconciled";
            payload = OutboxPayload.mpesa_reconciled t.trans_id t.amount t.phone t.bill_ref t.vault;
          })
          (append_transaction t db),
    )

-- A receipt that was recorded before is given back.
abbrev pub record_paid :
    Option MpesaTransaction → Paid → String → ℕ → ℕ → Db → Result (Option MpesaTransaction × Db)
record_paid (some existing) paid bill_ref id now db = ok (some existing, db)
record_paid none paid bill_ref id now db = store_paid paid paid.amount bill_ref id now db

-- A payment that went through.
unfoldable pub process_success :
    (String → Option DecimalValue)
    → MpesaStkCallback
    → ℕ
    → ℕ
    → Db
    → Result (Option MpesaTransaction × Db)
unfolding read_paid find_transaction
process_success parse stk id now db = do
  paid ← read_paid parse stk
  record_paid (find_transaction paid.trans_id db.mpesa) paid stk.checkout_request_id id now db

unfoldable pub process_mpesa_callback :
    (String → Option DecimalValue)
    → Option MpesaStkCallback
    → ℕ
    → ℕ
    → Db
    → Result (Option MpesaTransaction × Db)
unfolding process_success
process_mpesa_callback parse envelope id now db = do
  stk ← or_raise envelope unprocessable
  if not (eqb_ℤ stk.result_code (pos 0)) then ok (none, db) else process_success parse stk id now db

-- What the handler acknowledges: a callback that cannot be processed too.
abbrev pub acked : Db → Result (Option MpesaTransaction × Db) → Result Db
acked db (ok r) = ok r.1
acked db (err unprocessable) = ok db
acked db (err e) = err e

-- `mpesa_callback`
unfoldable pub mpesa_callback :
    (String → Option DecimalValue) → Option MpesaStkCallback → ℕ → ℕ → Db → Result Db
unfolding process_mpesa_callback
mpesa_callback parse envelope id now db = acked db (process_mpesa_callback parse envelope id now db)
