-- ===== src/Finance/Fold.antt =====
-- The event-sourcing fold: backend/src/domains/finance/events.py. An amount is an integer number of
-- cents and a timestamp a number. The `payload` of an event is read by nobody but auditors.
pub mod Event
pub mod Sorting
pub mod Replay
pub mod Order
pub mod Snapshot
use finguard.Base.{ℕ, ◌+◌, max, Bool, true, false, Option, none, some, List, foldl, if◌then◌else◌}
use finguard.Base.Int.{ℤ, pos, ◌+ℤ◌, ◌-ℤ◌, leb_ℤ}
use finguard.Finance.Types.{
  InvoiceEventType, invoice_issued, payment_applied, credit_note_applied, invoice_cancelled,
  InvoiceStatus, paid, partially_paid, cancelled,
}
use Event.{InvoiceEvent}
use Sorting.{sort_events}

-- How many events accumulate before the projection writes a fresh snapshot.
abbrev pub snapshot_interval : ℕ
snapshot_interval = 50

-- `InvoiceState`
pub record InvoiceState : Type 0 where
  pub total : ℤ
  pub amount_paid : ℤ
  pub credited : ℤ
  pub balance_due : ℤ
  pub payment_status : Option InvoiceStatus
  pub paid_at : Option ℕ
  pub issued : Bool
  pub is_cancelled : Bool
  pub event_count : ℕ
  pub last_payment_at : Option ℕ
  pub sequence : ℕ

-- `_Acc`
pub record Acc : Type 0 where
  pub total : ℤ
  pub amount_paid : ℤ
  pub credited : ℤ
  pub last_payment_at : Option ℕ
  pub issued : Bool
  pub is_cancelled : Bool
  pub count : ℕ
  pub sequence : ℕ

abbrev pub new_acc : Acc
new_acc = record {
  total = pos 0;
  amount_paid = pos 0;
  credited = pos 0;
  last_payment_at = none;
  issued = false;
  is_cancelled = false;
  count = 0;
  sequence = 0;
}

-- `_acc_from_state`
unfoldable pub acc_from_state : InvoiceState → Acc
acc_from_state state = record {
  total = state.total;
  amount_paid = state.amount_paid;
  credited = state.credited;
  last_payment_at = state.last_payment_at;
  issued = state.issued;
  is_cancelled = state.is_cancelled;
  count = state.event_count;
  sequence = state.sequence;
}

-- The `if`/`elif` ladder of `_apply` on the type of the event.
unfoldable pub apply_kind : InvoiceEventType → InvoiceEvent → Acc → Acc
apply_kind invoice_issued event acc = record acc { total = event.amount; issued = true }
apply_kind payment_applied event acc = record acc {
  amount_paid = acc.amount_paid +ℤ event.amount;
  last_payment_at = some event.occurred_at;
}
apply_kind credit_note_applied event acc = record acc { credited = acc.credited +ℤ event.amount }
apply_kind invoice_cancelled event acc = record acc { is_cancelled = true }

-- `_apply`
unfoldable pub apply_event : Acc → InvoiceEvent → Acc
unfolding apply_kind
apply_event acc event =
    let counted = record acc {
      count = acc.count + 1;
      sequence = max acc.sequence event.sequence;
    } in
    if acc.is_cancelled then counted else apply_kind event.event_type event counted

-- The status and `paid_at` that `_finalize` derives.
unfoldable pub derived_status : Acc → ℤ → Option InvoiceStatus
derived_status acc balance_due =
    if acc.is_cancelled
    then some cancelled
    else if leb_ℤ acc.amount_paid (pos 0)
    then none
    else if leb_ℤ balance_due (pos 0)
    then some paid
    else some partially_paid

unfoldable pub derived_paid_at : Acc → ℤ → Option ℕ
derived_paid_at acc balance_due =
    if acc.is_cancelled
    then none
    else if leb_ℤ acc.amount_paid (pos 0)
    then none
    else if leb_ℤ balance_due (pos 0)
    then acc.last_payment_at
    else none

-- `_finalize`
unfoldable pub finalize : Acc → InvoiceState
finalize acc =
    let balance_due = acc.total -ℤ acc.credited -ℤ acc.amount_paid in
    record {
      total = acc.total;
      amount_paid = acc.amount_paid;
      credited = acc.credited;
      balance_due = balance_due;
      payment_status = derived_status acc balance_due;
      paid_at = derived_paid_at acc balance_due;
      issued = acc.issued;
      is_cancelled = acc.is_cancelled;
      event_count = acc.count;
      last_payment_at = acc.last_payment_at;
      sequence = acc.sequence;
    }

-- The loop of `_fold`, from the accumulator that it starts with.
unfoldable pub replay_from : Acc → List InvoiceEvent → Acc
replay_from acc events = foldl apply_event acc (sort_events events)

-- `_fold`
fold : Option InvoiceState → List InvoiceEvent → InvoiceState
unfolding replay_from
fold none events = finalize (replay_from new_acc events)
fold (some base) events = finalize (replay_from (acc_from_state base) events)

unfoldable pub fold_invoice_events : List InvoiceEvent → InvoiceState
unfolding fold
fold_invoice_events events = fold none events

unfoldable pub fold_from_snapshot : InvoiceState → List InvoiceEvent → InvoiceState
unfolding fold
fold_from_snapshot snapshot tail_events = fold (some snapshot) tail_events

-- `is_projection_derived_status`
unfoldable pub is_projection_derived_status : InvoiceStatus → Bool
is_projection_derived_status paid = true
is_projection_derived_status partially_paid = true
is_projection_derived_status cancelled = true
is_projection_derived_status status = false
