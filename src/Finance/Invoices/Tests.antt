-- ===== src/Finance/Invoices/Tests.antt =====
-- The properties of the invoice ledger, each at a small run of the service.
use mathlib.Core.List.{Permᴰ}
use finguard.Base.{◌≡◌, refl, true, false, none, some, [], ◌∷◌, arith}
use finguard.Base.Int.{pos, ◌+ℤ◌, ◌-ℤ◌, ◌≤ℤ◌, ◌<ℤ◌}
use finguard.Base.Table.{find_row, select, save_row}
use finguard.Core.Errors.{ok, Ensures, Returns}
use finguard.Finance.Types.{cash, cancelled, invoice_issued, payment_applied}
use finguard.Finance.Fold.{
  fold_invoice_events, fold_from_snapshot, replay_from, apply_event, apply_kind, finalize,
  derived_status, derived_paid_at,
}
use finguard.Finance.Fold.Event.{InvoiceEvent, EventPayload}
use finguard.Finance.Fold.Sorting.{upto, after, sort_events, insert_event, max_sequence}
use finguard.Finance.Fold.Replay.{replay, resume-eq-replay}
use finguard.Finance.Fold.Order.{fold-perm}
use finguard.Finance.Rows.{Invoice}
use finguard.Finance.Db.{
  Db, find_invoice, save_invoice, events_of, list_by_invoice, latest_snapshot, newest,
  next_sequence,
}
use finguard.Finance.Invoices.Projection.{
  project_invoice, project_row, maybe_snapshot, derive_state,
}
use finguard.Finance.Invoices.Issue.{InvoiceCreate, create_invoice, has_number, new_invoice}
use finguard.Finance.Invoices.Settle.{PaymentCreate, record_cash_payment, mark_invoice_paid}
use finguard.Finance.Invoices.Adjust.{cancel_invoice}
use finguard.Finance.Invoices.Caching.{project_invoice-eq-fold}
use finguard.Finance.Invoices.Invariant.{Inv}
use finguard.Finance.Invoices.Preserve.Commands.{Command, execute, Reach, Reach-Inv, execute-Inv}
use finguard.Finance.Invoices.Audit.{reconstruct_invoice, matches_projection}
use finguard.Finance.Invoices.Audit.Drift.{reconstruct-matches}
use finguard.Finance.Invoices.Outcomes.{IsPaid}
use finguard.Finance.Invoices.Settled.{
  record_cash_payment-IsPaid, mark_invoice_paid-settles, IsSettled, IsIgnored,
  record_cash_payment-on_cancelled,
}

abbrev pub empty : Db
empty = record {
  invoices = [];
  events = [];
  snapshots = [];
  payments = [];
  expenses = [];
  budgets = [];
  mpesa = [];
  bank_lines = [];
  transfers = [];
  customers = [];
  users = [];
  outbox = [];
  mail = record { outbox = []; opt_outs = [] };
}

pub empty-Inv : Inv true empty
unfolding find_row select
empty-Inv = record { tracked = λ i. (refl, refl, refl) }

abbrev pub order : InvoiceCreate
order = record {
  customer_id = 7;
  invoice_number = "INV-1";
  subtotal = pos 10000;
  tax = pos 1600;
  currency = "KES";
  due_date = none;
  notes = none;
}

abbrev pub issue : Command
issue = Command.create order 1 100

abbrev pub issued_db : Db
issued_db = execute issue empty

abbrev payment : PaymentCreate
payment = record { invoice_id = 1; amount = pos 600; reference_note = none; payment_date = 200 }

abbrev pay : Command
pay = Command.pay_cash payment 9 50

order-IsAccepted : (pos 0 ≤ℤ pos 10000) × (pos 0 ≤ℤ pos 1600) × (find_invoice 1 empty ≡ none)
unfolding find_row
order-IsAccepted = (omega arith, omega arith, refl)

run : Reach true empty (execute pay issued_db)
run = Reach.next pay (Reach.next issue Reach.here order-IsAccepted) (omega arith)

Reach-Inv_example : Inv true (execute pay issued_db)
Reach-Inv_example = Reach-Inv true empty empty-Inv run

pub issued_db-Inv : Inv true issued_db
issued_db-Inv = execute-Inv true issue empty order-IsAccepted empty-Inv

is_issued : find_invoice 1 issued_db ≡ some (new_invoice order 1 100)
unfolding find_row execute create_invoice has_number
is_issued = refl

within : payment.amount ≤ℤ (new_invoice order 1 100).balance_due
unfolding new_invoice ◌+ℤ◌
within = omega arith

record_cash_payment-IsPaid_example :
    Returns
      (λ r. IsPaid issued_db (new_invoice order 1 100) (pos 600) r.0 r.1)
      (record_cash_payment payment 9 50 issued_db)
record_cash_payment-IsPaid_example =
    record_cash_payment-IsPaid true issued_db (new_invoice order 1 100) issued_db-Inv payment 9 50
      is_issued (omega arith) within

is_live : (replay (events_of 1 issued_db)).is_cancelled ≡ false
unfolding replay_from sort_events insert_event apply_event apply_kind select execute create_invoice
    has_number
is_live = refl

is_owing : pos 0 <ℤ (new_invoice order 1 100).balance_due
unfolding new_invoice ◌+ℤ◌
is_owing = omega arith

mark_invoice_paid-settles_example :
    Returns (λ r. IsSettled r.1 1) (mark_invoice_paid 1 (some 9) cash none 51 300 issued_db)
unfolding new_invoice
mark_invoice_paid-settles_example =
    mark_invoice_paid-settles true issued_db (new_invoice order 1 100) issued_db-Inv 1 (some 9) cash
      none 51 300 is_issued is_live is_owing

abbrev cancel : Command
cancel = Command.cancel 1 (some 9) none 150

abbrev cancelled_db : Db
cancelled_db = execute cancel issued_db

cancelled_db-Inv : Inv true cancelled_db
cancelled_db-Inv = execute-Inv true cancel issued_db tt issued_db-Inv

abbrev void : Invoice
void = record (new_invoice order 1 100) { status = cancelled }

is_void : find_invoice 1 cancelled_db ≡ some void
unfolding find_row execute cancel_invoice create_invoice has_number project_invoice derive_state
    latest_snapshot select maybe_snapshot fold_invoice_events finalize sort_events list_by_invoice
    insert_event next_sequence max_sequence save_row newest apply_event apply_kind derived_paid_at
    derived_status replay_from new_invoice project_row ◌+ℤ◌ ◌-ℤ◌
is_void = refl

is_cancelled_log : (replay (events_of 1 cancelled_db)).is_cancelled ≡ true
unfolding find_row execute cancel_invoice create_invoice has_number project_invoice derive_state
    latest_snapshot select maybe_snapshot fold_invoice_events finalize sort_events list_by_invoice
    insert_event next_sequence max_sequence save_row newest apply_event apply_kind derived_paid_at
    derived_status replay_from new_invoice project_row ◌+ℤ◌ ◌-ℤ◌
is_cancelled_log = refl

record_cash_payment-on_cancelled_example :
    Returns
      (λ r. IsIgnored cancelled_db void r.0 r.1)
      (record_cash_payment payment 9 50 cancelled_db)
unfolding new_invoice
record_cash_payment-on_cancelled_example =
    record_cash_payment-on_cancelled true cancelled_db void cancelled_db-Inv payment 9 50 is_void
      (omega arith) within is_cancelled_log

reconstruct-matches_example :
    Ensures
      (λ r.
        (matches_projection r.0 r.1 ≡ true)
        × (r.0.balance_due ≡ r.0.total -ℤ r.0.amount_credited -ℤ r.0.amount_paid)
        × (pos 0 ≤ℤ r.0.balance_due))
      (reconstruct_invoice 1 (execute pay issued_db))
reconstruct-matches_example = reconstruct-matches empty (execute pay issued_db) 1 empty-Inv run

abbrev first : InvoiceEvent
first = record {
  invoice_id = 1;
  sequence = 1;
  event_type = invoice_issued;
  amount = pos 11600;
  payload = EventPayload.issued "INV-1" (pos 10000) (pos 1600) "KES";
  occurred_at = 100;
  recorded_by = none;
}

abbrev second : InvoiceEvent
second = record {
  invoice_id = 1;
  sequence = 2;
  event_type = payment_applied;
  amount = pos 600;
  payload = EventPayload.manual_settlement 50 cash;
  occurred_at = 200;
  recorded_by = some 9;
}

resume-eq-replay_example :
    fold_from_snapshot
      (fold_invoice_events (upto 1 (second ∷ first ∷ [])))
      (after 1 (second ∷ first ∷ []))
    ≡ fold_invoice_events (second ∷ first ∷ [])
resume-eq-replay_example = resume-eq-replay 1 (second ∷ first ∷ [])

fold-perm_example :
    fold_invoice_events (second ∷ first ∷ []) ≡ fold_invoice_events (first ∷ second ∷ [])
fold-perm_example =
    fold-perm (second ∷ first ∷ []) (first ∷ second ∷ []) ∣ Permᴰ.swap refl refl ∣₁
      (((λ e. omega (arith, e)), tt), (tt, tt))

project_invoice-eq-fold_example :
    let state = fold_invoice_events (events_of 1 issued_db) in
    let row = project_row (new_invoice order 1 100) state in
    project_invoice (new_invoice order 1 100) issued_db
    ≡ ok (row, maybe_snapshot 1 state (save_invoice row issued_db))
unfolding new_invoice select execute create_invoice has_number
project_invoice-eq-fold_example = project_invoice-eq-fold (new_invoice order 1 100) issued_db tt
