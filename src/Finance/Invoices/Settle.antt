-- ===== src/Finance/Invoices/Settle.antt =====
-- `mark_invoice_paid`, `record_cash_payment`, `apply_reconciled_payment` and
-- `_enqueue_payment_receipt` (backend/src/domains/finance/service.py).
use text.Mathlib.Text.{◌==◌ as str_eq}
use finguard.Base.{
  ℕ, ◌==◌, Bool, true, false, not, ◌||◌, is_some, Option, none, some, List, [], ◌∷◌, String,
  if◌then◌else◌,
}
use finguard.Base.Table.{find_row}
use finguard.Base.Int.{ℤ, pos, ltb_ℤ, leb_ℤ, min_ℤ}
use finguard.Core.Errors.{Result, ok, ◌>>=◌, ◌>>◌, raise_if, or_raise}
use finguard.Core.Errors.AppError.{not_found, unprocessable, database_error}
use finguard.Notifications.{EmailContext, EmailCategory, payment_receipt}
use finguard.Finance.Types.{VaultType, mpesa, cash, bank, payment_applied}
use finguard.Finance.Fold.Event.{InvoiceEvent, EventPayload}
use finguard.Finance.Rows.{Invoice, Payment, MpesaTransaction, BankStatementLine, OutboxPayload}
use finguard.Finance.Db.{
  Db, find_invoice, next_sequence, append_event, append_payment, add_outbox, send_mail,
  find_customer,
}
use finguard.Finance.Invoices.Projection.{project_invoice}
use finguard.Finance.Invoices.Issue.{customer_email, customer_name}

abbrev pub vault_value : VaultType → String
vault_value mpesa = "MPESA"
vault_value cash = "CASH"
vault_value bank = "BANK"

-- `note or default`
abbrev pub note_or : Option String → String → String
note_or none default = default
note_or (some note) default = if str_eq note "" then default else note

-- The `payment_applied` event of a payment, with the next sequence number of its invoice.
abbrev pub payment_event : Payment → EventPayload → Db → InvoiceEvent
payment_event payment payload db = record {
  invoice_id = payment.invoice_id;
  sequence = next_sequence payment.invoice_id db;
  event_type = payment_applied;
  amount = payment.amount;
  payload = payload;
  occurred_at = payment.payment_date;
  recorded_by = payment.recorded_by;
}

-- The three settlement paths share this: create the payment, log it, project the invoice.
unfoldable pub post_payment : Invoice → Payment → EventPayload → Db → Result (Invoice × Db)
post_payment invoice payment payload db =
    let paid_db = append_payment payment db in
    project_invoice invoice (append_event (payment_event payment payload paid_db) paid_db)

abbrev pub settlement : Invoice → VaultType → Option String → Option ℕ → ℕ → ℕ → Payment
settlement invoice vault note user payment_id now = record {
  id = payment_id;
  invoice_id = invoice.id;
  amount = invoice.balance_due;
  vault = vault;
  reference_note = some (note_or note "Manual settlement");
  payment_date = now;
  recorded_by = user;
  mpesa_trans_id = none;
  bank_line_id = none;
}

unfoldable pub mark_invoice_paid :
    ℕ → Option ℕ → VaultType → Option String → ℕ → ℕ → Db → Result (Invoice × Db)
mark_invoice_paid invoice_id user vault note payment_id now db = do
  invoice ← or_raise (find_invoice invoice_id db) not_found
  if ltb_ℤ (pos 0) invoice.balance_due
      then post_payment invoice (settlement invoice vault note user payment_id now)
          (EventPayload.manual_settlement payment_id vault) db
      else ok (invoice, db)

-- `_enqueue_payment_receipt`
unfoldable pub enqueue_payment_receipt : Invoice → Payment → Db → Db
enqueue_payment_receipt invoice payment db =
    let customer = find_customer invoice.customer_id db in
    send_mail
      (record {
        to_email = customer_email customer;
        to_name = customer_name customer;
        context =
            EmailContext.payment_received (customer_name customer) invoice.invoice_number
              payment.amount invoice.currency invoice.balance_due (vault_value payment.vault);
        idempotency_key = payment_receipt payment.id;
        category = EmailCategory.receipt;
      })
      db

-- `PaymentCreate`; the schema holds `amount` above zero and `vault` at CASH.
pub record PaymentCreate : Type 0 where
  pub invoice_id : ℕ
  pub amount : ℤ
  pub reference_note : Option String
  pub payment_date : ℕ

abbrev pub cash_row : PaymentCreate → ℕ → ℕ → Payment
cash_row body user payment_id = record {
  id = payment_id;
  invoice_id = body.invoice_id;
  amount = body.amount;
  vault = cash;
  reference_note = body.reference_note;
  payment_date = body.payment_date;
  recorded_by = some user;
  mpesa_trans_id = none;
  bank_line_id = none;
}

-- The outbox event of a payment.
abbrev pub payment_outbox : String → Payment → Invoice → Db → Db
payment_outbox key payment invoice = add_outbox (record {
  exchange = "finguard.events";
  routing_key = key;
  payload =
      OutboxPayload.payment_recorded payment.id payment.invoice_id payment.amount payment.vault
        payment.recorded_by invoice.balance_due;
})

unfoldable pub record_cash_payment : PaymentCreate → ℕ → ℕ → Db → Result (Payment × Db)
record_cash_payment body user payment_id db = do
  invoice ← or_raise (find_invoice body.invoice_id db) not_found
  raise_if (ltb_ℤ invoice.balance_due body.amount) unprocessable
  let payment = cash_row body user payment_id
  let payload = EventPayload.cash_payment payment_id cash body.reference_note user
  posted ← post_payment invoice payment payload db
  let sent = payment_outbox "payments.cash_recorded" payment posted.0 posted.1
  ok (payment, enqueue_payment_receipt posted.0 payment sent)

-- `UPDATE … SET is_reconciled = TRUE WHERE id = :id`
unfoldable pub mark_mpesa_rows : ℕ → List MpesaTransaction → List MpesaTransaction
mark_mpesa_rows i [] = []
mark_mpesa_rows i (r ∷ rs) =
    (if r.id == i then record r { is_reconciled = true } else r) ∷ mark_mpesa_rows i rs

unfoldable pub mark_bank_rows : ℕ → List BankStatementLine → List BankStatementLine
mark_bank_rows i [] = []
mark_bank_rows i (r ∷ rs) =
    (if r.id == i then record r { is_reconciled = true } else r) ∷ mark_bank_rows i rs

abbrev pub mark_mpesa : Option ℕ → Db → Db
mark_mpesa none db = db
mark_mpesa (some i) db = record db { mpesa = mark_mpesa_rows i db.mpesa }

abbrev pub mark_bank : Option ℕ → Db → Db
mark_bank none db = db
mark_bank (some i) db = record db { bank_lines = mark_bank_rows i db.bank_lines }

abbrev pub auto_note : VaultType → String
auto_note mpesa = "Auto-reconciled (MPESA)"
auto_note cash = "Auto-reconciled (CASH)"
auto_note bank = "Auto-reconciled (BANK)"

-- The arguments of `apply_reconciled_payment`.
pub record Reconciled : Type 0 where
  pub invoice_id : ℕ
  pub amount : ℤ
  pub vault : VaultType
  pub occurred_at : ℕ
  pub mpesa_trans_id : Option ℕ
  pub bank_line_id : Option ℕ

abbrev pub reconciled_row : Reconciled → Invoice → ℕ → Payment
reconciled_row m invoice payment_id = record {
  id = payment_id;
  invoice_id = invoice.id;
  amount = min_ℤ m.amount invoice.balance_due;
  vault = m.vault;
  reference_note = some (auto_note m.vault);
  payment_date = m.occurred_at;
  recorded_by = none;
  mpesa_trans_id = m.mpesa_trans_id;
  bank_line_id = m.bank_line_id;
}

-- Two rows with the same value in a unique column, which may hold NULL any number of times.
abbrev pub same_value : Option ℕ → Option ℕ → Bool
same_value none o = false
same_value (some a) none = false
same_value (some a) (some b) = a == b

-- A payment has the value of another in `mpesa_trans_id` or in `bank_line_id`.
unfoldable pub is_duplicate : Payment → List Payment → Bool
is_duplicate payment [] = false
is_duplicate payment (p ∷ ps) =
    same_value p.mpesa_trans_id payment.mpesa_trans_id
    || same_value p.bank_line_id payment.bank_line_id
    || is_duplicate payment ps

-- The row that a foreign key names; NULL names none.
abbrev pub names_mpesa : Option ℕ → List MpesaTransaction → Bool
names_mpesa none rows = true
names_mpesa (some i) rows = is_some (find_row (λ (r : MpesaTransaction). r.id) i rows)

abbrev pub names_bank : Option ℕ → List BankStatementLine → Bool
names_bank none rows = true
names_bank (some i) rows = is_some (find_row (λ (r : BankStatementLine). r.id) i rows)

-- The unique columns and the foreign keys of the payments: what they refuse fails the flush.
unfoldable pub violates_constraints : Payment → Db → Bool
unfolding is_duplicate
violates_constraints payment db =
    is_duplicate payment db.payments
    || not (names_mpesa payment.mpesa_trans_id db.mpesa)
    || not (names_bank payment.bank_line_id db.bank_lines)

-- What follows the clamp of `apply_reconciled_payment`.
unfoldable pub settle_reconciled : Reconciled → Invoice → ℕ → Db → Result (Option Payment × Db)
unfolding mark_mpesa_rows mark_bank_rows violates_constraints
settle_reconciled m invoice payment_id db = do
  let payment = reconciled_row m invoice payment_id
  raise_if (violates_constraints payment db) database_error
  let payload = EventPayload.reconciliation payment_id m.vault m.mpesa_trans_id m.bank_line_id
  posted ← post_payment invoice payment payload db
  let marked = mark_bank m.bank_line_id (mark_mpesa m.mpesa_trans_id posted.1)
  let sent = payment_outbox "payments.reconciled" payment posted.0 marked
  ok (some payment, enqueue_payment_receipt posted.0 payment sent)

unfoldable pub apply_reconciled_payment : Reconciled → ℕ → Db → Result (Option Payment × Db)
apply_reconciled_payment m payment_id db = do
  invoice ← or_raise (find_invoice m.invoice_id db) not_found
  if leb_ℤ (min_ℤ m.amount invoice.balance_due) (pos 0)
      then ok (none, db)
      else settle_reconciled m invoice payment_id db
