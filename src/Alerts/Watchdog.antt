-- ===== src/Alerts/Watchdog.antt =====
-- `alert_from_watchdog` of backend/src/domains/alerts/service.py. A score is a number of hundredths; the
-- display texts are cut short, and the numbers of the payload are left out.
use finguard.Base.{
  ℕ, ◌≡◌, refl, inl, inr, Bool, true, false, ◌||◌, Option, none, some, [], ◌∷◌, String, leb,
  if◌then◌else◌, Bool-cases,
}
use finguard.Alerts.{AlertCreate, AlertType, AlertSeverity}

-- The fields of the watchdog's result, with their defaults.
pub record WatchdogAnalysis : Type 0 where
  pub is_duplicate : Bool
  pub anomaly_detected : Bool
  pub isolation_score : ℕ
  pub current_state : String
  pub account_id : String

-- `_ISOLATION_ALERT_THRESHOLD`
abbrev pub isolation_alert_threshold : ℕ
isolation_alert_threshold = 70

-- The kind and the title, by precedence.
abbrev pub alert_kind : Bool → Bool → AlertType × String
alert_kind true anomaly = (AlertType.duplicate_invoice, "Possible duplicate invoice detected")
alert_kind false true = (AlertType.budget_overspend, "Budget watchdog: CRITICAL spending state")
alert_kind false false = (AlertType.anomaly, "Anomalous transaction amount detected")

unfoldable pub alert_from_watchdog : WatchdogAnalysis → String → Option AlertCreate
alert_from_watchdog a expense_id =
    if a.is_duplicate || a.anomaly_detected || leb isolation_alert_threshold a.isolation_score
    then some record {
      alert_type = (alert_kind a.is_duplicate a.anomaly_detected).0;
      severity =
          if a.anomaly_detected || leb 85 a.isolation_score
          then AlertSeverity.critical
          else AlertSeverity.warning;
      title = (alert_kind a.is_duplicate a.anomaly_detected).1;
      body = "";
      source_agent = "E";
      metadata_payload =
          ("expense_id", expense_id)
          ∷ ("account_id", a.account_id)
          ∷ ("current_state", a.current_state)
          ∷ [];
    }
    else none

-- A critical budget state is never silent, and its alert is critical.
alert_from_watchdog-critical :
    (a : WatchdogAnalysis) (expense_id : String)
    → a.anomaly_detected ≡ true
    → (body : AlertCreate) × ((alert_from_watchdog a expense_id ≡ some body)
        × (body.severity ≡ AlertSeverity.critical))
unfolding alert_from_watchdog
alert_from_watchdog-critical a expense_id h = elim (Bool-cases a.is_duplicate) [
  | inl k ↦ rw (h, k) (_, (refl, refl))
  | inr k ↦ rw (h, k) (_, (refl, refl))
]
