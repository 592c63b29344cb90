-- ===== src/Finance/Invoices/Backed/Tests.antt =====
-- A settlement that is applied twice.
use finguard.Base.{true, false, none, some, [], ◌∷◌, arith}
use finguard.Base.Int.{pos}
use finguard.Finance.Types.{VaultType}
use finguard.Finance.Rows.{MpesaTransaction}
use finguard.Finance.Db.{Db}
use finguard.Finance.Invoices.Issue.{create_invoice, has_number}
use finguard.Finance.Invoices.Preserve.Commands.{Command, execute, Reach}
use finguard.Finance.Invoices.Backed.{count_backed, IsBackedOnce}
use finguard.Finance.Invoices.Backed.Commands.{Reach-IsBackedOnce}
use finguard.Finance.Invoices.Tests.{issued_db}

abbrev arrived : MpesaTransaction
arrived = record {
  id = 6;
  trans_id = "SFK2";
  amount = pos 700;
  phone = "254700000001";
  bill_ref = some "inv-1";
  vault = VaultType.mpesa;
  is_reconciled = false;
  created_at = 110;
}

abbrev start : Db
start = record issued_db { mpesa = arrived ∷ [] }

abbrev settled : Command
settled =
    Command.reconcile
      (record {
        invoice_id = 1;
        amount = pos 700;
        vault = VaultType.mpesa;
        occurred_at = 110;
        mpesa_trans_id = some 6;
        bank_line_id = none;
      })
      60

start-IsBackedOnce : IsBackedOnce start.payments
unfolding count_backed execute create_invoice has_number
start-IsBackedOnce = record { once_mpesa = λ i. omega arith; once_bank = λ i. omega arith }

twice : Reach true start (execute settled (execute settled start))
twice = Reach.next settled (Reach.next settled Reach.here tt) tt

Reach-IsBackedOnce_example : IsBackedOnce (execute settled (execute settled start)).payments
Reach-IsBackedOnce_example = Reach-IsBackedOnce true start start-IsBackedOnce twice
