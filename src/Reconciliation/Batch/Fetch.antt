-- ===== src/Reconciliation/Batch/Fetch.antt =====
-- The queries of a run, and the two runs
-- (backend/src/domains/intelligence/services/reconciliation_service.py).
use finguard.Base.{ℕ, Bool, true, false, not, ◌&&◌, Option, none, some, List, take, map, leb}
use finguard.Base.Int.{pos, ltb_ℤ}
use finguard.Base.Table.{select}
use finguard.Base.Sort.{sort_by}
use finguard.Core.Errors.{Result}
use finguard.Finance.Types.{InvoiceStatus}
use finguard.Finance.Rows.{Invoice, MpesaTransaction, BankReview, BankStatementLine}
use finguard.Finance.Db.{Db}
use finguard.Proposals.World.{World}
use finguard.Reconciliation.Match.{Transaction, Rail, ReconcilerTuning}
use finguard.Reconciliation.Persist.{Host}
use finguard.Reconciliation.Batch.{ReconciliationReport, run_on}

-- `ORDER BY created_at ASC`
abbrev by_created : MpesaTransaction → MpesaTransaction → Bool
by_created a b = leb a.created_at b.created_at

abbrev mpesa_transaction : MpesaTransaction → Transaction
mpesa_transaction t = record {
  id = t.id;
  amount = t.amount;
  bill_ref = t.bill_ref;
  created_at = t.created_at;
}

-- The M-Pesa transactions that wait.
unfoldable pub fetch_mpesa : ReconcilerTuning → Db → List Transaction
unfolding select sort_by
fetch_mpesa rc db = map mpesa_transaction (
    take rc.txn_batch
      (sort_by by_created (select (λ (t : MpesaTransaction). not t.is_reconciled) db.mpesa)))

abbrev by_date : BankStatementLine → BankStatementLine → Bool
by_date a b = leb a.date b.date

abbrev bank_transaction : BankStatementLine → Transaction
bank_transaction l = record {
  id = l.id;
  amount = l.amount;
  bill_ref = l.reference_text;
  created_at = l.date;
}

-- `review_status = 'approved'`
abbrev is_approved : BankReview → Bool
is_approved BankReview.approved = true
is_approved status = false

-- The bank lines that wait, of those that a reviewer released.
unfoldable pub fetch_bank : ReconcilerTuning → Db → List Transaction
unfolding select sort_by
fetch_bank rc db = map bank_transaction (
    take rc.txn_batch (
      sort_by by_date (
        select (λ (l : BankStatementLine). not l.is_reconciled && is_approved l.review_status)
          db.bank_lines)))

-- `status IN ('SENT', 'OVERDUE')`
abbrev is_payable : InvoiceStatus → Bool
is_payable InvoiceStatus.sent = true
is_payable InvoiceStatus.overdue = true
is_payable status = false

-- `ORDER BY due_date ASC NULLS LAST`
abbrev due_first : Option ℕ → Option ℕ → Bool
due_first (some a) (some b) = leb a b
due_first (some a) none = true
due_first none none = true
due_first none (some b) = false

abbrev by_due : Invoice → Invoice → Bool
by_due a b = due_first a.due_date b.due_date

-- The open invoices.
unfoldable pub fetch_invoices : ReconcilerTuning → Db → List Invoice
unfolding select sort_by
fetch_invoices rc db = take rc.inv_limit (
    sort_by by_due
      (select (λ (i : Invoice). is_payable i.status && ltb_ℤ (pos 0) i.balance_due) db.invoices))

-- `run_reconciliation`
unfoldable pub run_reconciliation :
    Host → ReconcilerTuning → ℕ → (ℕ → ℕ) → (ℕ → ℕ) → World → Result ReconciliationReport × World
unfolding fetch_mpesa fetch_invoices run_on
run_reconciliation host rc now fresh_payment fresh_proposal w =
    run_on host rc Rail.mpesa now fresh_payment fresh_proposal (fetch_mpesa rc w.db)
      (fetch_invoices rc w.db) w

-- `run_bank_reconciliation`
unfoldable pub run_bank_reconciliation :
    Host → ReconcilerTuning → ℕ → (ℕ → ℕ) → (ℕ → ℕ) → World → Result ReconciliationReport × World
unfolding fetch_bank fetch_invoices run_on
run_bank_reconciliation host rc now fresh_payment fresh_proposal w =
    run_on host rc Rail.bank now fresh_payment fresh_proposal (fetch_bank rc w.db)
      (fetch_invoices rc w.db) w
