-- ===== src/Alerts/Single/Runs.antt =====
-- Runs of the alert calls keep the deduplication.
use mathlib.Core.Path.{subst}
use finguard.Base.{
  ℕ, ◌≡◌, inl, inr, refl, Option, some, List, String, ltb, arith, Bool-cases, Option-cases,
}
use finguard.Base.Table.{find_row}
use finguard.Core.Errors.{ok, Ensures, Ensures-or_raise}
use finguard.Core.Errors.AppError.{not_found}
use finguard.Alerts.{
  Alert, AlertCreate, resolved, severity_rank, first_active, create_alert_idempotent,
  escalate_or_create_alert, resolve_active_by_dedup, resolve_alert,
}
use finguard.Alerts.Single.{
  IsSingle, create_alert_idempotent-IsSingle, escalate_first-count, resolve_each-count,
  save_row-count,
}

-- The calls of the service that the other parts make.
pub data AlertStep : List Alert → List Alert → Type 0 where
  raised :
      (body : AlertCreate) (key : String) (id : ℕ) (alerts : List Alert)
      → AlertStep alerts (create_alert_idempotent body key id alerts).1
  escalated_by :
      (body : AlertCreate) (key : String) (id : ℕ) (alerts : List Alert)
      → AlertStep alerts (escalate_or_create_alert body key id alerts).1
  cleared :
      (key : String) (remark : Option String) (now : ℕ) (alerts : List Alert)
      → AlertStep alerts (resolve_active_by_dedup key remark now alerts).1
  closed :
      (id user : ℕ) (remark : Option String) (now : ℕ) (alerts : List Alert)
      (r : Alert × List Alert)
      → resolve_alert id user remark now alerts ≡ ok r
      → AlertStep alerts r.1

pub data AlertReach : List Alert → List Alert → Type 0 where
  start : (alerts : List Alert) → AlertReach alerts alerts
  next : {a b c : List Alert} → AlertReach a b → AlertStep b c → AlertReach a c

escalate-IsSingle :
    (body : AlertCreate) (key : String) (id : ℕ) (alerts : List Alert)
    → IsSingle alerts
    → IsSingle (escalate_or_create_alert body key id alerts).1
unfolding escalate_or_create_alert
escalate-IsSingle body key id alerts h other = elim (Option-cases (first_active key alerts)) [
  | inl e ↦
      rw (e, escalate_or_create_alert) (create_alert_idempotent-IsSingle body key id alerts h other)
  | inr (a, e) ↦ elim (Bool-cases (ltb (severity_rank a.severity) (severity_rank body.severity))) [
    | inl k ↦
        rw (e, escalate_or_create_alert, k)
          (omega (arith, escalate_first-count body key other alerts, h other))
    | inr k ↦ rw (e, escalate_or_create_alert, k) (h other)
  ]
]

resolve_alert-IsSingle :
    (id user : ℕ) (remark : Option String) (now : ℕ) (alerts : List Alert)
    → IsSingle alerts
    → Ensures (λ (r : Alert × List Alert). IsSingle r.1) (resolve_alert id user remark now alerts)
unfolding resolve_alert
resolve_alert-IsSingle id user remark now alerts h =
    Ensures-or_raise (λ (r : Alert × List Alert). IsSingle r.1)
      (find_row (λ (x : Alert). x.id) id alerts) not_found _
      (λ a e other. omega (
        arith,
        h other,
        save_row-count other
            (record a {
              status = resolved;
              resolved_by = some user;
              resolved_at = some now;
              resolution_note = remark;
            })
            alerts refl,
      ))

step-IsSingle : {a b : List Alert} → AlertStep a b → IsSingle a → IsSingle b
unfolding resolve_active_by_dedup
step-IsSingle (AlertStep.raised body key id alerts) h =
    create_alert_idempotent-IsSingle body key id alerts h
step-IsSingle (AlertStep.escalated_by body key id alerts) h = escalate-IsSingle body key id alerts h
step-IsSingle (AlertStep.cleared key remark now alerts) h =
    λ other. omega (arith, resolve_each-count key other remark now alerts, h other)
step-IsSingle (AlertStep.closed id user remark now alerts r e) h =
    subst (Ensures (λ (q : Alert × List Alert). IsSingle q.1)) e
      (resolve_alert-IsSingle id user remark now alerts h)

-- If no deduplication key has two active alerts, then none has after any sequence of idempotent
-- creations, escalations, resolutions by key, and resolutions by id that return.
pub AlertReach-IsSingle : {a b : List Alert} → AlertReach a b → IsSingle a → IsSingle b
AlertReach-IsSingle (AlertReach.start alerts) h = h
AlertReach-IsSingle (AlertReach.next r s) h = step-IsSingle s (AlertReach-IsSingle r h)
