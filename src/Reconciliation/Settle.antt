-- ===== src/Reconciliation/Settle.antt =====
-- `apply_confirmed_match` of
-- backend/src/domains/intelligence/services/reconciliation_service.py.
use finguard.Base.{ℕ, Option, none, some}
use finguard.Core.Errors.{Result}
use finguard.Finance.Types.{VaultType}
use finguard.Finance.Rows.{Payment}
use finguard.Finance.Db.{Db}
use finguard.Finance.Invoices.Settle.{Reconciled, apply_reconciled_payment}
use finguard.Reconciliation.Match.{Rail, mpesa, bank, ReconciliationMatch}

-- The arguments of the settlement, by the rail of the match.
abbrev pub settlement_of : Rail → ReconciliationMatch → ℕ → Reconciled
settlement_of bank m occurred_at = record {
  invoice_id = m.invoice_id;
  amount = m.amount;
  vault = VaultType.bank;
  occurred_at = occurred_at;
  mpesa_trans_id = none;
  bank_line_id = some m.transaction_id;
}
settlement_of mpesa m occurred_at = record {
  invoice_id = m.invoice_id;
  amount = m.amount;
  vault = VaultType.mpesa;
  occurred_at = occurred_at;
  mpesa_trans_id = some m.transaction_id;
  bank_line_id = none;
}

-- `apply_confirmed_match`
unfoldable pub apply_confirmed_match :
    ReconciliationMatch → ℕ → ℕ → Db → Result (Option Payment × Db)
apply_confirmed_match m occurred_at payment_id db =
    apply_reconciled_payment (settlement_of m.source m occurred_at) payment_id db
