-- ===== src/Finance/Invoices/Issue.antt =====
-- `create_invoice`, `send_invoice`, `resend_invoice` and `update_invoice`
-- (backend/src/domains/finance/service.py).
use text.Mathlib.Text.{◌==◌ as str_eq}
use finguard.Base.{ℕ, Bool, false, not, ◌||◌, Option, none, some, List, [], ◌∷◌, ◌++◌, String}
use finguard.Base.Int.{ℤ, pos, ◌+ℤ◌}
use finguard.Core.Errors.{Result, ok, ◌>>=◌, ◌>>◌, raise_if, or_raise}
use finguard.Core.Errors.AppError.{not_found, conflict, unprocessable}
use finguard.Notifications.{
  Email, EmailContext, EmailKey, EmailCategory, invoice_sent, invoice_resent,
}
use finguard.Finance.Types.{InvoiceStatus, draft, sent, cancelled, same_status, invoice_issued}
use finguard.Finance.Fold.Event.{InvoiceEvent, EventPayload}
use finguard.Finance.Rows.{Invoice, Customer, OutboxPayload}
use finguard.Finance.Db.{
  Db, find_invoice, save_invoice, append_event, add_outbox, send_mail, find_customer,
}

-- `InvoiceCreate`
pub record InvoiceCreate : Type 0 where
  pub customer_id : ℕ
  pub invoice_number : String
  pub subtotal : ℤ
  pub tax : ℤ
  pub currency : String
  pub due_date : Option ℕ
  pub notes : Option String

-- `InvoiceRepository.get_by_number`
unfoldable pub has_number : String → List Invoice → Bool
has_number number [] = false
has_number number (r ∷ rs) = str_eq r.invoice_number number || has_number number rs

-- The row that `create_invoice` inserts; the columns that it does not name have their defaults.
unfoldable pub new_invoice : InvoiceCreate → ℕ → ℕ → Invoice
new_invoice body id now = record {
  id = id;
  customer_id = body.customer_id;
  invoice_number = body.invoice_number;
  status = draft;
  subtotal = body.subtotal;
  tax = body.tax;
  total = body.subtotal +ℤ body.tax;
  amount_paid = pos 0;
  amount_credited = pos 0;
  balance_due = body.subtotal +ℤ body.tax;
  currency = body.currency;
  due_date = body.due_date;
  paid_at = none;
  notes = body.notes;
  created_at = now;
}

-- The first event of the log.
abbrev pub issued_event : InvoiceCreate → ℕ → ℕ → InvoiceEvent
issued_event body id now = record {
  invoice_id = id;
  sequence = 1;
  event_type = invoice_issued;
  amount = body.subtotal +ℤ body.tax;
  payload = EventPayload.issued body.invoice_number body.subtotal body.tax body.currency;
  occurred_at = now;
  recorded_by = none;
}

unfoldable pub create_invoice : InvoiceCreate → ℕ → ℕ → Db → Result (Invoice × Db)
unfolding new_invoice
create_invoice body id now db = do
  raise_if (has_number body.invoice_number db.invoices) conflict
  let invoice = new_invoice body id now
  let inserted = record db { invoices = db.invoices ++ invoice ∷ [] }
  let logged = append_event (issued_event body id now) inserted
  ok (
    invoice,
    add_outbox
        (record {
          exchange = "finguard.finance";
          routing_key = "finance.invoice.created";
          payload = OutboxPayload.invoice_created id body.customer_id;
        })
        logged,
  )

abbrev pub customer_email : Option Customer → Option String
customer_email none = none
customer_email (some c) = c.email

abbrev pub customer_name : Option Customer → Option String
customer_name none = none
customer_name (some c) = some c.name

-- The mail of `send_invoice` and `resend_invoice`.
unfoldable pub issued_email : Invoice → EmailKey → Db → Email
issued_email invoice key db =
    let customer = find_customer invoice.customer_id db in
    record {
      to_email = customer_email customer;
      to_name = customer_name customer;
      context =
          EmailContext.invoice_issued (customer_name customer) invoice.invoice_number
            invoice.currency invoice.total invoice.balance_due invoice.due_date;
      idempotency_key = key;
      category = EmailCategory.invoice;
    }

unfoldable pub send_invoice : ℕ → Db → Result (Invoice × Db)
send_invoice invoice_id db = do
  invoice ← or_raise (find_invoice invoice_id db) not_found
  raise_if (not (same_status invoice.status draft)) unprocessable
  let row = record invoice { status = sent }
  let saved = save_invoice row db
  ok (row, send_mail (issued_email row (invoice_sent row.id) saved) saved)

-- `nonce` is the fresh uuid in the idempotency key.
unfoldable pub resend_invoice : ℕ → ℕ → Db → Result (Invoice × Db)
resend_invoice invoice_id nonce db = do
  invoice ← or_raise (find_invoice invoice_id db) not_found
  raise_if (same_status invoice.status draft || same_status invoice.status cancelled) unprocessable
  ok (invoice, send_mail (issued_email invoice (invoice_resent invoice.id nonce) db) db)

-- `InvoiceUpdate`; `none` is a field that the request leaves out.
pub record InvoiceUpdate : Type 0 where
  pub status : Option InvoiceStatus
  pub notes : Option String
  pub paid_at : Option ℕ

-- `setattr` for each field of `model_dump(exclude_none=True)`
abbrev pub given {ℓ} : {A : Type ℓ} → Option A → A → A
given none old = old
given (some a) old = a

abbrev pub given_some {ℓ} : {A : Type ℓ} → Option A → Option A → Option A
given_some none old = old
given_some (some a) old = some a

unfoldable pub update_invoice : ℕ → InvoiceUpdate → Db → Result (Invoice × Db)
update_invoice invoice_id body db = do
  invoice ← or_raise (find_invoice invoice_id db) not_found
  let row = record invoice {
    status = given body.status invoice.status;
    notes = given_some body.notes invoice.notes;
    paid_at = given_some body.paid_at invoice.paid_at;
  }
  ok (row, save_invoice row db)
