-- ===== src/Finance/Invoices/Audit.antt =====
-- `get_invoice`, `get_invoice_events`, `reconstruct_invoice` (backend/src/domains/finance/service.py)
-- and the comparison that the audit endpoint makes (backend/src/domains/finance/router.py).
pub mod Drift
use finguard.Base.{
  ℕ, ◌≡◌, refl, Bool, true, Option, none, some, List, ◌&&◌, ◌||◌, arith, ap, sym, ◌∙◌,
}
use finguard.Base.Int.{ℤ, eqb_ℤ}
use finguard.Core.Errors.{Result, ok, err, ◌>>=◌, or_raise, Ensures, Ensures-or_raise}
use finguard.Core.Errors.AppError.{not_found}
use finguard.Finance.Types.{InvoiceStatus, same_status}
use finguard.Finance.Fold.{InvoiceState, fold_invoice_events, finalize}
use finguard.Finance.Fold.Event.{InvoiceEvent}
use finguard.Finance.Rows.{Invoice}
use finguard.Finance.Db.{Db, find_invoice, list_by_invoice, events_of}

unfoldable pub get_invoice : ℕ → Db → Result Invoice
get_invoice i db = or_raise (find_invoice i db) not_found

unfoldable pub get_invoice_events : ℕ → Db → Result (List InvoiceEvent)
get_invoice_events i db = do
  invoice ← or_raise (find_invoice i db) not_found
  ok (list_by_invoice i db)

unfoldable pub reconstruct_invoice : ℕ → Db → Result (Invoice × InvoiceState × List InvoiceEvent)
reconstruct_invoice i db = do
  invoice ← or_raise (find_invoice i db) not_found
  let events = list_by_invoice i db
  ok (invoice, fold_invoice_events events, events)

-- `state.payment_status is None or state.payment_status == invoice.status`
abbrev status_matches : Option InvoiceStatus → InvoiceStatus → Bool
status_matches none status = true
status_matches (some derived) status = same_status derived status

-- `matches_projection` of the reconstruction endpoint.
unfoldable pub matches_projection : Invoice → InvoiceState → Bool
matches_projection invoice state =
    eqb_ℤ state.amount_paid invoice.amount_paid
    && eqb_ℤ state.credited invoice.amount_credited
    && eqb_ℤ state.balance_due invoice.balance_due
    && status_matches state.payment_status invoice.status
