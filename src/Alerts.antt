-- ===== src/Alerts.antt =====
-- Alerts and their deduplication: backend/src/domains/alerts/service.py (`create_alert`,
-- `create_alert_idempotent`, `escalate_or_create_alert`, `resolve_active_by_dedup`, `resolve_alert`)
-- and the low-stock alerts of backend/src/domains/inventory/service.py. A JSON payload is an
-- association list of texts in which the first entry of a key counts.
pub mod Single
pub mod Watchdog
use text.Mathlib.Text.{◌==◌ as str_eq}
use finguard.Base.{
  ℕ, ◌+◌, ◌==◌, Bool, true, false, ◌&&◌, Option, none, some, List, [], ◌∷◌, ◌++◌, String, ltb,
  length, if◌then◌else◌,
}
use finguard.Base.Table.{find_row, save_row, select}
use finguard.Core.Errors.{Result, ok, err, ◌>>=◌, or_raise}
use finguard.Core.Errors.AppError.{not_found}

pub data AlertStatus : Type 0 where
  active resolved : AlertStatus

pub data AlertSeverity : Type 0 where
  info warning critical : AlertSeverity

-- `_SEVERITY_RANK`
abbrev pub severity_rank : AlertSeverity → ℕ
severity_rank info = 0
severity_rank warning = 1
severity_rank critical = 2

abbrev pub Metadata : Type 0
Metadata = List (String × String)

-- `payload[key]`
unfoldable pub lookup : String → Metadata → Option String
lookup key [] = none
lookup key ((k, v) ∷ rest) = if str_eq k key then some v else lookup key rest

-- `DEDUP_KEY`
abbrev pub dedup_field : String
dedup_field = "dedup_key"

pub data AlertType : Type 0 where
  duplicate_invoice anomaly vendor_activity budget_overspend low_stock : AlertType

pub record AlertCreate : Type 0 where
  pub alert_type : AlertType
  pub severity : AlertSeverity
  pub title : String
  pub body : String
  pub source_agent : String
  pub metadata_payload : Metadata

pub record Alert : Type 0 where
  pub id : ℕ
  pub alert_type : AlertType
  pub severity : AlertSeverity
  pub status : AlertStatus
  pub title : String
  pub body : String
  pub source_agent : String
  pub metadata_payload : Metadata
  pub resolved_by : Option ℕ
  pub resolved_at : Option ℕ
  pub resolution_note : Option String

abbrev pub is_active : Alert → Bool
is_active a = elim a.status [ active ↦ true | resolved ↦ false ]

abbrev pub has_value : String → Option String → Bool
has_value value none = false
has_value value (some v) = str_eq v value

-- `status = ACTIVE AND metadata_payload ->> 'dedup_key' = :dedup_key`
unfoldable pub carries : String → Alert → Bool
unfolding lookup
carries dedup_key a = is_active a && has_value dedup_key (lookup dedup_field a.metadata_payload)

-- `.limit(1)`
unfoldable pub first_active : String → List Alert → Option Alert
unfolding carries
first_active dedup_key [] = none
first_active dedup_key (a ∷ rest) =
    if carries dedup_key a then some a else first_active dedup_key rest

-- `Alert(**data.model_dump())`
abbrev pub alert_row : AlertCreate → ℕ → Alert
alert_row body id = record {
  id = id;
  alert_type = body.alert_type;
  severity = body.severity;
  status = active;
  title = body.title;
  body = body.body;
  source_agent = body.source_agent;
  metadata_payload = body.metadata_payload;
  resolved_by = none;
  resolved_at = none;
  resolution_note = none;
}

unfoldable pub create_alert : AlertCreate → ℕ → List Alert → Alert × List Alert
create_alert body id alerts = (alert_row body id, alerts ++ alert_row body id ∷ [])

-- `payload[DEDUP_KEY] = dedup_key`
abbrev pub keyed : AlertCreate → String → AlertCreate
keyed body dedup_key = record body {
  metadata_payload = (dedup_field, dedup_key) ∷ body.metadata_payload;
}

unfoldable pub create_alert_idempotent :
    AlertCreate → String → ℕ → List Alert → Option Alert × List Alert
unfolding first_active
create_alert_idempotent body dedup_key id alerts = elim (first_active dedup_key alerts) [
  | some existing ↦ (none, alerts)
  | none ↦ (
    some (alert_row (keyed body dedup_key) id),
    alerts ++ alert_row (keyed body dedup_key) id ∷ [],
  )
]

-- The escalation of an existing alert.
abbrev pub escalated : AlertCreate → String → Alert → Alert
escalated body dedup_key a = record a {
  severity = body.severity;
  title = body.title;
  body = body.body;
  metadata_payload = (dedup_field, dedup_key) ∷ body.metadata_payload ++ a.metadata_payload;
}

-- The flush of the escalated alert: it is the first active one of its key.
unfoldable pub escalate_first : AlertCreate → String → List Alert → List Alert
unfolding carries
escalate_first body dedup_key [] = []
escalate_first body dedup_key (a ∷ rest) =
    if carries dedup_key a
    then escalated body dedup_key a ∷ rest
    else a ∷ escalate_first body dedup_key rest

unfoldable pub escalate_or_create_alert :
    AlertCreate → String → ℕ → List Alert → Option Alert × List Alert
unfolding create_alert_idempotent first_active escalate_first
escalate_or_create_alert body dedup_key id alerts = elim (first_active dedup_key alerts) [
  | none ↦ create_alert_idempotent body dedup_key id alerts
  | some a ↦
      if ltb (severity_rank a.severity) (severity_rank body.severity)
      then (some (escalated body dedup_key a), escalate_first body dedup_key alerts)
      else (some a, alerts)
]

-- The loop of `resolve_active_by_dedup`.
unfoldable pub resolve_each : String → Option String → ℕ → List Alert → List Alert
unfolding carries
resolve_each dedup_key remark now [] = []
resolve_each dedup_key remark now (a ∷ rest) =
    (if carries dedup_key a
      then record a { status = resolved; resolved_at = some now; resolution_note = remark }
      else a)
    ∷ resolve_each dedup_key remark now rest

-- `resolve_active_by_dedup`: how many were resolved, and the table.
unfoldable pub resolve_active_by_dedup : String → Option String → ℕ → List Alert → ℕ × List Alert
unfolding resolve_each carries
resolve_active_by_dedup dedup_key remark now alerts =
    (length (select (carries dedup_key) alerts), resolve_each dedup_key remark now alerts)

unfoldable pub resolve_alert : ℕ → ℕ → Option String → ℕ → List Alert → Result (Alert × List Alert)
resolve_alert alert_id user remark now alerts = do
  alert ← or_raise (find_row (λ (x : Alert). x.id) alert_id alerts) not_found
  let done : Alert = record alert {
    status = resolved;
    resolved_by = some user;
    resolved_at = some now;
    resolution_note = remark;
  }
  ok (done, save_row (λ (x : Alert). x.id) done alerts)
