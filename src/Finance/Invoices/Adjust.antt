-- ===== src/Finance/Invoices/Adjust.antt =====
-- `apply_credit_note` and `cancel_invoice` (backend/src/domains/finance/service.py).
use finguard.Base.{ℕ, Option, String}
use finguard.Base.Int.{ℤ, pos, ltb_ℤ, leb_ℤ}
use finguard.Core.Errors.{Result, ◌>>=◌, ◌>>◌, raise_if, or_raise}
use finguard.Core.Errors.AppError.{not_found, unprocessable}
use finguard.Finance.Types.{
  paid, cancelled, same_status, credit_note_applied, invoice_cancelled, InvoiceEventType,
}
use finguard.Finance.Fold.Event.{InvoiceEvent, EventPayload}
use finguard.Finance.Rows.{Invoice}
use finguard.Finance.Db.{Db, find_invoice, next_sequence, append_event}
use finguard.Finance.Invoices.Projection.{project_invoice}
use finguard.Finance.Invoices.Settle.{note_or}

-- An event of a human actor with the next sequence number.
abbrev pub adjustment : Invoice → InvoiceEventType → ℤ → Option ℕ → String → ℕ → Db → InvoiceEvent
adjustment invoice kind amount user why now db = record {
  invoice_id = invoice.id;
  sequence = next_sequence invoice.id db;
  event_type = kind;
  amount = amount;
  payload = EventPayload.reason why;
  occurred_at = now;
  recorded_by = user;
}

unfoldable pub apply_credit_note : ℕ → ℤ → Option ℕ → Option String → ℕ → Db → Result (Invoice × Db)
apply_credit_note invoice_id amount user why now db = do
  raise_if (leb_ℤ amount (pos 0)) unprocessable
  invoice ← or_raise (find_invoice invoice_id db) not_found
  raise_if (same_status invoice.status cancelled) unprocessable
  raise_if (ltb_ℤ invoice.balance_due amount) unprocessable
  let event = adjustment invoice credit_note_applied amount user (note_or why "credit_note") now db
  project_invoice invoice (append_event event db)

unfoldable pub cancel_invoice : ℕ → Option ℕ → Option String → ℕ → Db → Result (Invoice × Db)
cancel_invoice invoice_id user why now db = do
  invoice ← or_raise (find_invoice invoice_id db) not_found
  raise_if (same_status invoice.status cancelled) unprocessable
  raise_if (same_status invoice.status paid) unprocessable
  let event = adjustment invoice invoice_cancelled (pos 0) user (note_or why "cancelled") now db
  project_invoice invoice (append_event event db)
