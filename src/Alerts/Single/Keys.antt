-- ===== src/Alerts/Single/Keys.antt =====
-- A call with one key leaves the alerts of the others.
use text.Mathlib.Text.{◌==◌ as str_eq}
use text.Mathlib.TextEquality.{eq_iff}
use finguard.Base.{
  weight, ℕ, ◌≡◌, inl, inr, refl, ap, ◌∙◌, false, Option, none, some, List, [], ◌∷◌, String, ltb,
  arith, Option-cases, if_elim, Bool-cases, ◌≤◌,
}
use finguard.Alerts.{
  Alert, AlertCreate, severity_rank, first_active, alert_row, keyed, create_alert_idempotent,
  carries, escalate_or_create_alert,
}
use finguard.Alerts.Single.{
  count_active, count-snoc, count-cons, keyed-carries, escalate_first-count,
}

create_alert_idempotent-other :
    (body : AlertCreate) (key other : String) (id : ℕ) (alerts : List Alert)
    → str_eq key other ≡ false
    → count_active other (create_alert_idempotent body key id alerts).1 ≡ count_active other alerts
unfolding create_alert_idempotent
create_alert_idempotent-other body key other id alerts ne =
    elim (Option-cases (first_active key alerts)) [
      | inl e ↦
          rw (e, create_alert_idempotent, count-snoc other alerts (alert_row (keyed body key) id))
            (omega (arith, ap weight (keyed-carries key other body id ∙ ne)))
      | inr (a, e) ↦ rw (e, create_alert_idempotent) refl
    ]

pub escalate_or_create_alert-other :
    (body : AlertCreate) (key other : String) (id : ℕ) (alerts : List Alert)
    → str_eq key other ≡ false
    → count_active other (escalate_or_create_alert body key id alerts).1 ≡ count_active other alerts
unfolding escalate_or_create_alert
escalate_or_create_alert-other body key other id alerts ne =
    elim (Option-cases (first_active key alerts)) [
      | inl e ↦
          rw (e, escalate_or_create_alert)
            (create_alert_idempotent-other body key other id alerts ne)
      | inr (a, e) ↦
          rw (e, escalate_or_create_alert)
            (if_elim
              (λ (r : Option Alert × List Alert).
                count_active other r.1 ≡ count_active other alerts)
              (ltb (severity_rank a.severity) (severity_rank body.severity)) _ _
              (escalate_first-count body key other alerts) refl)
    ]

count_of_active :
    (key : String) (a : Alert) (alerts : List Alert)
    → first_active key alerts ≡ some a
    → 1 ≤ count_active key alerts
unfolding first_active
count_of_active key a [] h = ground arith
count_of_active key a (x ∷ alerts) h = elim (Bool-cases (carries key x)) [
  | inl k ↦ omega (arith, count-cons key x alerts, ap weight k)
  | inr k ↦ omega (arith, count-cons key x alerts, count_of_active key a alerts (rw k at h))
]

create_alert_idempotent-own :
    (body : AlertCreate) (key : String) (id : ℕ) (alerts : List Alert)
    → first_active key alerts ≡ none
    → 1 ≤ count_active key (create_alert_idempotent body key id alerts).1
unfolding create_alert_idempotent
create_alert_idempotent-own body key id alerts e =
    let carried = keyed-carries key key body id ∙ (eq_iff key key).1 refl in
    rw (e, create_alert_idempotent, count-snoc key alerts (alert_row (keyed body key) id))
      (omega (arith, ap weight carried))

-- Afterwards an active alert carries the key.
pub escalate_or_create_alert-own :
    (body : AlertCreate) (key : String) (id : ℕ) (alerts : List Alert)
    → 1 ≤ count_active key (escalate_or_create_alert body key id alerts).1
unfolding escalate_or_create_alert
escalate_or_create_alert-own body key id alerts = elim (Option-cases (first_active key alerts)) [
  | inl e ↦ rw (e, escalate_or_create_alert) (create_alert_idempotent-own body key id alerts e)
  | inr (a, e) ↦
      let here = count_of_active key a alerts e in
      rw (e, escalate_or_create_alert)
        (if_elim (λ (r : Option Alert × List Alert). 1 ≤ count_active key r.1)
          (ltb (severity_rank a.severity) (severity_rank body.severity)) _ _
          (omega (arith, here, escalate_first-count body key key alerts)) here)
]
