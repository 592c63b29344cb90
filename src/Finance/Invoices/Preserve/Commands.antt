-- ===== src/Finance/Invoices/Preserve/Commands.antt =====
-- Whatever sequence of requests reaches the invoice service, the invariant holds after it.
use finguard.Base.{ℕ, ◌≡◌, Bool, true, Option, none, String}
use finguard.Base.Int.{ℤ, pos, ◌≤ℤ◌}
use finguard.Core.Errors.{Result, ok, err, Ensures}
use finguard.Finance.Types.{VaultType}
use finguard.Finance.Db.{Db, find_invoice}
use finguard.Finance.Invoices.Issue.{
  InvoiceCreate, create_invoice, send_invoice, resend_invoice, InvoiceUpdate, update_invoice,
}
use finguard.Finance.Invoices.Settle.{
  PaymentCreate, record_cash_payment, mark_invoice_paid, Reconciled, apply_reconciled_payment,
}
use finguard.Finance.Invoices.Adjust.{apply_credit_note, cancel_invoice}
use finguard.Finance.Invoices.Invariant.{Inv}
use finguard.Finance.Invoices.Preserve.Settle.{
  record_cash_payment-Inv, mark_invoice_paid-Inv, apply_reconciled_payment-Inv,
}
use finguard.Finance.Invoices.Preserve.Adjust.{apply_credit_note-Inv, cancel_invoice-Inv}
use finguard.Finance.Invoices.Preserve.Issue.{
  create_invoice-Inv, send_invoice-Inv, resend_invoice-Inv, update_invoice-Inv,
}

-- One call of the service with its arguments.
pub data Command : Type 0 where
  create : InvoiceCreate → ℕ → ℕ → Command
  send : ℕ → Command
  resend : ℕ → ℕ → Command
  update : ℕ → InvoiceUpdate → Command
  settle : ℕ → Option ℕ → VaultType → Option String → ℕ → ℕ → Command
  pay_cash : PaymentCreate → ℕ → ℕ → Command
  reconcile : Reconciled → ℕ → Command
  credit : ℕ → ℤ → Option ℕ → Option String → ℕ → Command
  cancel : ℕ → Option ℕ → Option String → ℕ → Command

-- The session of a call that raises is rolled back.
abbrev pub commit {ℓ} : {A : Type ℓ} → Result (A × Db) → Db → Db
commit (ok r) db = r.1
commit (err e) db = db

unfoldable pub execute : Command → Db → Db
execute (create body id now) db = commit (create_invoice body id now db) db
execute (send i) db = commit (send_invoice i db) db
execute (resend i nonce) db = commit (resend_invoice i nonce db) db
execute (update i body) db = commit (update_invoice i body db) db
execute (settle i user vault note id now) db =
    commit (mark_invoice_paid i user vault note id now db) db
execute (pay_cash body user id) db = commit (record_cash_payment body user id db) db
execute (reconcile m id) db = commit (apply_reconciled_payment m id db) db
execute (credit i amount user why now) db = commit (apply_credit_note i amount user why now db) db
execute (cancel i user why now) db = commit (cancel_invoice i user why now db) db

-- What the request schemas check, and that a new uuid is new. While the status is locked no
-- request edits it.
abbrev pub IsAccepted : Bool → Command → Db → Type 0
IsAccepted locked (create body id now) db =
    (pos 0 ≤ℤ body.subtotal) × (pos 0 ≤ℤ body.tax) × (find_invoice id db ≡ none)
IsAccepted locked (pay_cash body user id) db = pos 0 ≤ℤ body.amount
IsAccepted locked (update i body) db = locked ≡ true → body.status ≡ none
IsAccepted locked c db = Unit

commit-Inv {ℓ} :
    {A : Type ℓ} (locked : Bool) (r : Result (A × Db)) (db : Db)
    → Inv locked db
    → Ensures (λ x. Inv locked x.1) r
    → Inv locked (commit r db)
commit-Inv locked (ok r) db h k = k
commit-Inv locked (err e) db h k = h

-- One request, accepted by its schema, keeps the invariant, whether it raises or not.
pub execute-Inv :
    (locked : Bool) (c : Command) (db : Db)
    → IsAccepted locked c db
    → Inv locked db
    → Inv locked (execute c db)
unfolding execute
execute-Inv locked (create body id now) db a h =
    commit-Inv locked _ db h (create_invoice-Inv locked body id now db a.0 a.1 a.2 h)
execute-Inv locked (send i) db a h = commit-Inv locked _ db h (send_invoice-Inv locked i db h)
execute-Inv locked (resend i nonce) db a h =
    commit-Inv locked _ db h (resend_invoice-Inv locked i nonce db h)
execute-Inv locked (update i body) db a h =
    commit-Inv locked _ db h (update_invoice-Inv locked i body db a h)
execute-Inv locked (settle i user vault note id now) db a h =
    commit-Inv locked _ db h (mark_invoice_paid-Inv locked i user vault note id now db h)
execute-Inv locked (pay_cash body user id) db a h =
    commit-Inv locked _ db h (record_cash_payment-Inv locked body user id db a h)
execute-Inv locked (reconcile m id) db a h =
    commit-Inv locked _ db h (apply_reconciled_payment-Inv locked m id db h)
execute-Inv locked (credit i amount user why now) db a h =
    commit-Inv locked _ db h (apply_credit_note-Inv locked i amount user why now db h)
execute-Inv locked (cancel i user why now) db a h =
    commit-Inv locked _ db h (cancel_invoice-Inv locked i user why now db h)

-- The databases that accepted requests lead to.
pub data Reach (locked : Bool) (start : Db) : Db → Type 0 where
  here : Reach locked start start
  next :
      {db : Db} (c : Command)
      → Reach locked start db
      → IsAccepted locked c db
      → Reach locked start (execute c db)

-- From a database in which the invariant holds, it holds after any sequence of accepted requests
-- (create, send, resend, update, settle, cash payment, reconciliation, credit note,
-- cancellation), whether they return or raise: each invoice row is the projection of its event
-- log, with a balance, receipts and credits not below zero, every snapshot is a fold of a part
-- of the log, and until an invoice is cancelled its payments add up to its paid amount. A
-- request is accepted when its amounts pass the schema, the id of a new invoice is new and, with
-- a locked status, no update sets a status; then the status is the derived one too.
pub Reach-Inv :
    (locked : Bool) (start : Db) {db : Db}
    → Inv locked start
    → Reach locked start db
    → Inv locked db
Reach-Inv locked start h Reach.here = h
Reach-Inv locked start h (Reach.next c r a) = execute-Inv locked c _ a (Reach-Inv locked start h r)
