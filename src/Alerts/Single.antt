-- ===== src/Alerts/Single.antt =====
-- No deduplication key has two active alerts.
pub mod Keys
pub mod Runs
use text.Mathlib.Text.{◌==◌ as str_eq}
use text.Mathlib.TextEquality.{eq_iff}
use mathlib.Core.Path.{subst}
use finguard.Base.{
  weight, ℕ, ◌+◌, ◌==◌, ◌≤◌, ◌≡◌, inl, inr, refl, sym, ap, ◌∙◌, Bool, true, false, ◌&&◌, Option,
  none, some, List, [], ◌∷◌, ◌++◌, String, ltb, length, if◌then◌else◌, arith, Bool-cases,
  Option-cases,
}
use finguard.Base.Table.{find_row, save_row, select}
use finguard.Core.Errors.{ok, Ensures, Ensures-or_raise}
use finguard.Core.Errors.AppError.{not_found}
use finguard.Alerts.{
  Alert, AlertCreate, resolved, severity_rank, lookup, dedup_field, is_active, has_value, carries,
  first_active, alert_row, keyed, create_alert_idempotent, escalated, escalate_first,
  escalate_or_create_alert, resolve_each, resolve_active_by_dedup, resolve_alert,
}

-- How many active alerts carry the key.
abbrev pub count_active : String → List Alert → ℕ
count_active key alerts = length (select (carries key) alerts)

abbrev pub IsSingle : List Alert → Type 0
IsSingle alerts = (key : String) → count_active key alerts ≤ 1

first_active-none :
    (key : String) (alerts : List Alert)
    → first_active key alerts ≡ none
    → count_active key alerts ≡ 0
unfolding first_active select
first_active-none key [] h = refl
first_active-none key (a ∷ alerts) h = elim (Bool-cases (carries key a)) [
  | inl k ↦ impossible (rw k at h)
  | inr k ↦ rw k (first_active-none key alerts (rw k at h))
]
  where
    impossible :
        some a ≡ none
        → length
            (if carries key a then a ∷ select (carries key) alerts else select (carries key) alerts)
          ≡ 0
    impossible e = cc

pub keyed-carries :
    (key other : String) (body : AlertCreate) (id : ℕ)
    → carries other (alert_row (keyed body key) id) ≡ str_eq key other
unfolding carries lookup
keyed-carries key other body id = refl

pub count-cons :
    (key : String) (a : Alert) (alerts : List Alert)
    → count_active key (a ∷ alerts) ≡ weight (carries key a) + count_active key alerts
unfolding select
count-cons key a alerts = elim (Bool-cases (carries key a)) [
  | inl k ↦ rw k (omega arith)
  | inr k ↦ rw k (omega arith)
]

pub count-snoc :
    (key : String) (alerts : List Alert) (a : Alert)
    → count_active key (alerts ++ a ∷ []) ≡ count_active key alerts + weight (carries key a)
count-snoc key [] a = count-cons key a [] ∙ omega arith
count-snoc key (x ∷ alerts) a =
    omega
      (arith, count-cons key x (alerts ++ a ∷ []), count-cons key x alerts, count-snoc key alerts a)

one_more :
    (key other : String) (alerts : List Alert)
    → IsSingle alerts
    → count_active key alerts ≡ 0
    → count_active other alerts + weight (str_eq key other) ≤ 1
one_more key other alerts h none_yet = elim (Bool-cases (str_eq key other)) [
  | inl k ↦
      let free : count_active other alerts ≡ 0 =
        subst (λ s. count_active s alerts ≡ 0) ((eq_iff key other).0 k) none_yet in
      rw k (omega (arith, free))
  | inr k ↦ rw k (omega (arith, h other))
]

pub create_alert_idempotent-IsSingle :
    (body : AlertCreate) (key : String) (id : ℕ) (alerts : List Alert)
    → IsSingle alerts
    → IsSingle (create_alert_idempotent body key id alerts).1
unfolding create_alert_idempotent
create_alert_idempotent-IsSingle body key id alerts h other =
    elim (Option-cases (first_active key alerts)) [
      | inl e ↦
          rw
            (
              e,
              create_alert_idempotent,
              count-snoc other alerts (alert_row (keyed body key) id),
              keyed-carries key other body id,
            )
            (one_more key other alerts h (first_active-none key alerts e))
      | inr (a, e) ↦ rw (e, create_alert_idempotent) (h other)
    ]

carried :
    (key : String) (b : Bool) (o : Option String) → (b && has_value key o) ≡ true → o ≡ some key
carried key b none h = ground arith
carried key b (some v) h = ap some ((eq_iff v key).0 (ground (arith, h)))

escalated-carries :
    (body : AlertCreate) (key other : String) (a : Alert)
    → carries key a ≡ true
    → carries other (escalated body key a) ≡ carries other a
unfolding carries lookup
escalated-carries body key other a h =
    ap (λ o. is_active a && has_value other o)
      (sym (carried key (is_active a) (lookup dedup_field a.metadata_payload) h))

resolved-carries : (key : String) (a : Alert) → a.status ≡ resolved → weight (carries key a) ≡ 0
unfolding carries
resolved-carries key a h = rw h refl

pub escalate_first-count :
    (body : AlertCreate) (key other : String) (alerts : List Alert)
    → count_active other (escalate_first body key alerts) ≡ count_active other alerts
unfolding escalate_first
escalate_first-count body key other [] = refl
escalate_first-count body key other (a ∷ alerts) = elim (Bool-cases (carries key a)) [
  | inl k ↦ rw k (
      count-cons other (escalated body key a) alerts
      ∙ ap (λ b. weight b + count_active other alerts) (escalated-carries body key other a k)
      ∙ sym (count-cons other a alerts))
  | inr k ↦ rw k (
      omega (
        arith,
        count-cons other a (escalate_first body key alerts),
        count-cons other a alerts,
        escalate_first-count body key other alerts,
      ))
]

pub resolve_each-count :
    (key other : String) (remark : Option String) (now : ℕ) (alerts : List Alert)
    → count_active other (resolve_each key remark now alerts) ≤ count_active other alerts
unfolding resolve_each
resolve_each-count key other remark now [] = omega arith
resolve_each-count key other remark now (a ∷ alerts) =
    let done : Alert = record a {
      status = resolved;
      resolved_at = some now;
      resolution_note = remark;
    } in
    let rest = resolve_each-count key other remark now alerts in
    elim (Bool-cases (carries key a)) [
      | inl k ↦ rw k (
          omega (
            arith,
            count-cons other done (resolve_each key remark now alerts),
            resolved-carries other done refl,
            count-cons other a alerts,
            rest,
          ))
      | inr k ↦ rw k (
          omega (
            arith,
            count-cons other a (resolve_each key remark now alerts),
            count-cons other a alerts,
            rest,
          ))
    ]

-- Afterwards no active alert carries the key.
pub resolve_each-none :
    (key : String) (remark : Option String) (now : ℕ) (alerts : List Alert)
    → count_active key (resolve_each key remark now alerts) ≡ 0
unfolding resolve_each select
resolve_each-none key remark now [] = refl
resolve_each-none key remark now (a ∷ alerts) =
    let done : Alert = record a {
      status = resolved;
      resolved_at = some now;
      resolution_note = remark;
    } in
    let rest = resolve_each-none key remark now alerts in
    elim (Bool-cases (carries key a)) [
      | inl k ↦ rw k (
          omega (
            arith,
            count-cons key done (resolve_each key remark now alerts),
            resolved-carries key done refl,
            rest,
          ))
      | inr k ↦ rw k (
          count-cons key a (resolve_each key remark now alerts)
          ∙ ap (λ b. weight b + count_active key (resolve_each key remark now alerts)) k
          ∙ omega (arith, rest))
    ]

pub save_row-count :
    (other : String) (r : Alert) (alerts : List Alert)
    → r.status ≡ resolved
    → count_active other (save_row (λ (x : Alert). x.id) r alerts) ≤ count_active other alerts
unfolding save_row
save_row-count other r [] s = omega arith
save_row-count other r (a ∷ alerts) s = elim (Bool-cases (a.id == r.id)) [
  | inl k ↦ rw k (
      omega
        (arith, count-cons other r alerts, resolved-carries other r s, count-cons other a alerts))
  | inr k ↦ rw k (
      omega (
        arith,
        count-cons other a (save_row (λ (x : Alert). x.id) r alerts),
        count-cons other a alerts,
        save_row-count other r alerts s,
      ))
]
