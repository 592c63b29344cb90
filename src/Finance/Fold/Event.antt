-- ===== src/Finance/Fold/Event.antt =====
-- One row of `invoice_events` (backend/src/domains/finance/models.py, `InvoiceEvent`).
use finguard.Base.{ℕ, Option, String}
use finguard.Base.Int.{ℤ}
use finguard.Finance.Types.{InvoiceEventType, VaultType}

-- The `payload` dictionaries that the service writes, one constructor for each call.
pub data EventPayload : Type 0 where
  issued : String → ℤ → ℤ → String → EventPayload
  manual_settlement : ℕ → VaultType → EventPayload
  cash_payment : ℕ → VaultType → Option String → ℕ → EventPayload
  reconciliation : ℕ → VaultType → Option ℕ → Option ℕ → EventPayload
  reason : String → EventPayload

pub record InvoiceEvent : Type 0 where
  pub invoice_id : ℕ
  pub sequence : ℕ
  pub event_type : InvoiceEventType
  pub amount : ℤ
  pub payload : EventPayload
  pub occurred_at : ℕ
  pub recorded_by : Option ℕ
