-- ===== src/Tests.antt =====
-- The properties of stock, alerts, permissions, mail and the outbox projector, each at a small run.
use finguard.Base.{ℕ, ◌≤◌, ◌≡◌, refl, Bool, true, false, none, some, List, [], ◌∷◌, arith}
use finguard.Base.Int.{pos, ◌+ℤ◌}
use finguard.Base.Table.{find_row, select}
use finguard.Core.Errors.{ok, Ensures}
use finguard.Identity.{User}
use finguard.Identity.Permissions.{finance_approve, manager}
use finguard.Notifications.{
  Mail, Email, EmailOutbox, EmailStatus, EmailContext, EmailCategory, payable_review, enqueue_email,
}
use finguard.Notifications.Reviewers.{notify_reviewers}
use finguard.Notifications.Outbox.{enqueue_email-twice, Extends}
use finguard.Notifications.Outbox.Fanout.{IsReviewMail, IsReviewer, notify_reviewers-Extends}
use finguard.Inventory.Rows.{
  Product, Warehouse, receipt, get_or_create_level, last_sequence, max_sequence,
}
use finguard.Inventory.Movements.{
  Movement, apply_movement, move_level, record_purchase_receipt, Applied,
}
use finguard.Inventory.Cost.{weighted_avg}
use finguard.Inventory.Cost.Average.{weighted_avg-between}
use finguard.Inventory.Stock.{IsConsistent, IsApplied, apply_movement-IsApplied}
use finguard.Inventory.Stock.Runs.{StockStep, StockReach, StockReach-IsConsistent}
use finguard.Alerts.{AlertType, AlertCreate, Alert, AlertSeverity, escalate_or_create_alert}
use finguard.Alerts.Single.{IsSingle}
use finguard.Alerts.Single.Runs.{AlertStep, AlertReach, AlertReach-IsSingle}
use finguard.Finance.Rows.{OutboxEvent, OutboxPayload}
use finguard.Workers.Flusher.{Mailbox, flush_once}
use finguard.Workers.Flusher.Delivery.{IsRetried, flush_once-IsRetried}
use finguard.Workers.Projector.{Outbox, project_once}
use finguard.Workers.Projector.Delivery.{copies, project_once-copies}

abbrev flour : Product
flour = record {
  id = 1;
  sku = "FLR";
  name = "Flour";
  category = none;
  reorder_level = pos 5000;
  is_active = true;
}

abbrev shelf : Warehouse
shelf = record { products = flour ∷ []; levels = []; movements = [] }

shelf-IsConsistent : IsConsistent shelf
unfolding find_row select last_sequence max_sequence
shelf-IsConsistent = λ i. record { solvent = omega arith; ledger = (refl, refl) }

abbrev delivery : Movement
delivery = record {
  product_id = 1;
  movement_type = receipt;
  quantity = pos 20000;
  signed_delta = pos 20000;
  unit_cost = some (pos 120);
  reason = none;
  reference = none;
  actor_id = some 9;
}

apply_movement-IsApplied_example :
    Ensures (IsApplied delivery shelf) (apply_movement delivery 10 shelf)
apply_movement-IsApplied_example = apply_movement-IsApplied delivery 10 shelf refl

received :
    (r : Applied × Warehouse) × (record_purchase_receipt 1 (pos 20000) (pos 120) 77 none 10 shelf
      ≡ ok r)
unfolding record_purchase_receipt apply_movement move_level get_or_create_level find_row ◌+ℤ◌
received = (_, refl)

StockReach-IsConsistent_example : IsConsistent received.0.1
StockReach-IsConsistent_example =
    StockReach-IsConsistent
      (StockReach.next (StockReach.start shelf)
        (StockStep.bought 1 (pos 20000) (pos 120) 77 none 10 shelf received.0 received.1))
      shelf-IsConsistent

-- 10 at 1.00 and 5 at 2.00: the average of 4/3 rounds to 1.33.
weighted_avg-between_example :
    (r : ℕ) × (weighted_avg (pos 10000) (pos 100) (pos 5000) (pos 200) ≡ pos r)
    × (100 ≤ r)
    × (r ≤ 200)
weighted_avg-between_example =
    weighted_avg-between 10000 100 5000 200 100 200 (omega arith) (omega arith) (omega arith)
      (omega arith) (omega arith)

abbrev low : AlertCreate
low = record {
  alert_type = AlertType.low_stock;
  severity = AlertSeverity.warning;
  title = "Low stock: FLR";
  body = "Flour is at 4.";
  source_agent = "inventory";
  metadata_payload = ("kind", "low_stock") ∷ [];
}

abbrev out : AlertCreate
out = record low { severity = AlertSeverity.critical; title = "Out of stock: FLR" }

no_alerts : IsSingle []
unfolding select
no_alerts = λ key. omega arith

abbrev raised : List Alert
raised = (escalate_or_create_alert low "low_stock:1" 1 []).1

AlertReach-IsSingle_example : IsSingle (escalate_or_create_alert out "low_stock:1" 2 raised).1
AlertReach-IsSingle_example =
    AlertReach-IsSingle
      (AlertReach.next
        (AlertReach.next (AlertReach.start []) (AlertStep.escalated_by low "low_stock:1" 1 []))
        (AlertStep.escalated_by out "low_stock:1" 2 raised))
      no_alerts

abbrev boss : User
boss = record {
  id = 4;
  email = "boss@shop.ke";
  full_name = "Boss";
  role = manager;
  is_active = true;
  is_verified = true;
}

abbrev nobody : Mail
nobody = record { outbox = []; opt_outs = [] }

abbrev request : EmailContext
request = EmailContext.approval_needed "rent" "Landlord"

abbrev letter : Email
letter = record {
  to_email = some "boss@shop.ke";
  to_name = some "Boss";
  context = request;
  idempotency_key = payable_review 40 4;
  category = EmailCategory.approval;
}

enqueue_email-twice_example :
    enqueue_email letter (enqueue_email letter nobody).1 ≡ (false, (enqueue_email letter nobody).1)
enqueue_email-twice_example = enqueue_email-twice letter nobody

notify_reviewers-Extends_example :
    Extends
      (IsReviewMail (payable_review 40) (some 3) (IsReviewer finance_approve (boss ∷ [])))
      (notify_reviewers finance_approve (payable_review 40) request (some 3) (boss ∷ []) nobody).0
      nobody
      (notify_reviewers finance_approve (payable_review 40) request (some 3) (boss ∷ []) nobody).1
notify_reviewers-Extends_example =
    notify_reviewers-Extends finance_approve (payable_review 40) request (some 3) (boss ∷ []) nobody

abbrev announcement : OutboxEvent
announcement = record {
  exchange = "finguard.finance";
  routing_key = "finance.invoice.created";
  payload = OutboxPayload.invoice_created 1 7;
}

abbrev queue : Outbox
queue = record {
  rows = record { id = 1; event = announcement; published = false; retry_count = 2 } ∷ [];
  dead_letters = [];
  published_count = 0;
}

-- A broker that refuses everything.
abbrev down : OutboxEvent → Bool
down e = false

project_once-copies_example : copies 1 (project_once down 3 queue) ≡ copies 1 queue
project_once-copies_example = project_once-copies down 3 queue 1

-- Its second try, after one that failed.
abbrev waiting : EmailOutbox
waiting = record {
  to_email = "boss@shop.ke";
  to_name = some "Boss";
  context = request;
  status = EmailStatus.failed;
  attempts = 1;
  scheduled_for = none;
  idempotency_key = payable_review 40 4;
}

-- A mail server that refuses everything.
abbrev closed : EmailOutbox → Bool
closed r = false

abbrev mailbox : Mailbox
mailbox = record { rows = waiting ∷ []; dead_letters = [] }

flush_once-IsRetried_example : IsRetried 2 (flush_once closed 2 100 (waiting ∷ []))
flush_once-IsRetried_example =
    flush_once-IsRetried closed 2 100 (waiting ∷ []) ((λ e. omega arith), tt)
