-- ===== src/Finance/Invoices/Projection.antt =====
-- `_project_invoice_from_events` and `_maybe_snapshot` (backend/src/domains/finance/service.py).
use finguard.Base.{ℕ, ◌%◌, ◌==◌, not, ◌||◌, none, some, leb, if◌then◌else◌}
use finguard.Core.Errors.{Result, ok, ◌>>=◌, or_raise}
use finguard.Core.Errors.AppError.{app_error}
use finguard.Finance.Fold.{InvoiceState, snapshot_interval, fold_invoice_events, fold_from_snapshot}
use finguard.Finance.Fold.Snapshot.{to_snapshot, from_snapshot}
use finguard.Finance.Rows.{Invoice}
use finguard.Finance.Db.{
  Db, save_invoice, list_by_invoice, list_after_sequence, latest_snapshot, append_snapshot,
}

-- `_maybe_snapshot`
unfoldable pub maybe_snapshot : ℕ → InvoiceState → Db → Db
maybe_snapshot invoice_id state db =
    let fresh =
      append_snapshot
        (record { invoice_id = invoice_id; sequence = state.sequence; state = to_snapshot state })
        db in
    if state.event_count == 0 || not (state.event_count % snapshot_interval == 0)
    then db
    else elim (latest_snapshot invoice_id db) [
      | none ↦ fresh
      | some latest ↦ if leb state.sequence latest.sequence then db else fresh
    ]

-- The fold of `_project_invoice_from_events`: from the latest snapshot, if there is one.
unfoldable pub derive_state : ℕ → Db → Result InvoiceState
derive_state invoice_id db = elim (latest_snapshot invoice_id db) [
  | none ↦ ok (fold_invoice_events (list_by_invoice invoice_id db))
  | some snapshot ↦ do
    base ← or_raise (from_snapshot snapshot.state) app_error
    ok (fold_from_snapshot base (list_after_sequence invoice_id snapshot.sequence db))
]

-- The assignments to the materialized row.
unfoldable pub project_row : Invoice → InvoiceState → Invoice
project_row invoice state = elim state.payment_status [
  | none ↦ record invoice {
    amount_paid = state.amount_paid;
    amount_credited = state.credited;
    balance_due = state.balance_due;
  }
  | some status ↦ record invoice {
    amount_paid = state.amount_paid;
    amount_credited = state.credited;
    balance_due = state.balance_due;
    status = status;
    paid_at = state.paid_at;
  }
]

-- `_project_invoice_from_events`
unfoldable pub project_invoice : Invoice → Db → Result (Invoice × Db)
project_invoice invoice db = do
  state ← derive_state invoice.id db
  let row = project_row invoice state
  ok (row, maybe_snapshot invoice.id state (save_invoice row db))
