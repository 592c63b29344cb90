-- ===== src/Finance/Fold/Snapshot.antt =====
-- `InvoiceState.to_snapshot` and `from_snapshot` (backend/src/domains/finance/events.py). The
-- texts that print a decimal or a timestamp in the JSON of a snapshot are not modelled: the column
-- holds the values, and of the texts only that of the status.
use text.Mathlib.Text.{◌==◌ as str_eq}
use finguard.Base.{ℕ, Bool, Option, none, some, String, if◌then◌else◌, ◌≡◌, refl, ap}
use finguard.Base.Int.{ℤ}
use finguard.Finance.Types.{InvoiceStatus, draft, sent, paid, partially_paid, overdue, cancelled}
use finguard.Finance.Fold.{InvoiceState}

-- The dictionary that `to_snapshot` returns, with the text of the status.
pub record SnapshotState : Type 0 where
  pub total : ℤ
  pub amount_paid : ℤ
  pub credited : ℤ
  pub balance_due : ℤ
  pub payment_status : Option String
  pub paid_at : Option ℕ
  pub issued : Bool
  pub is_cancelled : Bool
  pub event_count : ℕ
  pub last_payment_at : Option ℕ
  pub sequence : ℕ

-- `InvoiceStatus.value` and `InvoiceStatus(text)`
status_value : InvoiceStatus → String
status_value draft = "draft"
status_value sent = "sent"
status_value paid = "paid"
status_value partially_paid = "partially_paid"
status_value overdue = "overdue"
status_value cancelled = "cancelled"

status_of_value : String → Option InvoiceStatus
status_of_value s =
    if str_eq s "draft"
    then some draft
    else if str_eq s "sent"
    then some sent
    else if str_eq s "paid"
    then some paid
    else if str_eq s "partially_paid"
    then some partially_paid
    else if str_eq s "overdue"
    then some overdue
    else if str_eq s "cancelled"
    then some cancelled
    else none

-- `status.value if status else None`
unfoldable pub status_text : Option InvoiceStatus → Option String
unfolding status_value
status_text none = none
status_text (some status) = some (status_value status)

unfoldable pub to_snapshot : InvoiceState → SnapshotState
unfolding status_text
to_snapshot state = record {
  total = state.total;
  amount_paid = state.amount_paid;
  credited = state.credited;
  balance_due = state.balance_due;
  payment_status = status_text state.payment_status;
  paid_at = state.paid_at;
  issued = state.issued;
  is_cancelled = state.is_cancelled;
  event_count = state.event_count;
  last_payment_at = state.last_payment_at;
  sequence = state.sequence;
}

abbrev known : Option InvoiceStatus → Option (Option InvoiceStatus)
known none = none
known (some status) = some (some status)

-- `InvoiceStatus(text) if text else None`; a text that is no status raises.
unfoldable pub read_status : Option String → Option (Option InvoiceStatus)
unfolding status_of_value
read_status none = some none
read_status (some s) = if str_eq s "" then some none else known (status_of_value s)

abbrev with_status : SnapshotState → Option (Option InvoiceStatus) → Option InvoiceState
with_status d none = none
with_status d (some payment_status) = some record {
  total = d.total;
  amount_paid = d.amount_paid;
  credited = d.credited;
  balance_due = d.balance_due;
  payment_status = payment_status;
  paid_at = d.paid_at;
  issued = d.issued;
  is_cancelled = d.is_cancelled;
  event_count = d.event_count;
  last_payment_at = d.last_payment_at;
  sequence = d.sequence;
}

-- `none` is a `ValueError`.
unfoldable pub from_snapshot : SnapshotState → Option InvoiceState
unfolding read_status
from_snapshot d = with_status d (read_status d.payment_status)

read_status-status_text : (s : Option InvoiceStatus) → read_status (status_text s) ≡ some s
unfolding read_status status_text
read_status-status_text none = refl
read_status-status_text (some draft) = refl
read_status-status_text (some sent) = refl
read_status-status_text (some paid) = refl
read_status-status_text (some partially_paid) = refl
read_status-status_text (some overdue) = refl
read_status-status_text (some cancelled) = refl

-- Reading a snapshot gives back the state that was stored.
pub from_snapshot-to_snapshot :
    (state : InvoiceState) → from_snapshot (to_snapshot state) ≡ some state
unfolding from_snapshot to_snapshot
from_snapshot-to_snapshot state =
    ap (with_status (to_snapshot state)) (read_status-status_text state.payment_status)
