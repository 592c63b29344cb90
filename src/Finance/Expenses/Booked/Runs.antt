-- ===== src/Finance/Expenses/Booked/Runs.antt =====
-- Runs of the expense calls announce each expense as often as its status asks for.
use mathlib.Core.Path.{subst}
use finguard.Base.{ℕ, ◌≡◌, refl, Option, none}
use finguard.Core.Errors.{ok, Ensures}
use finguard.Finance.Rows.{Expense, ExpenseApprovalStatus}
use finguard.Finance.Db.{Db}
use finguard.Finance.Expenses.{
  find_expense, ExpenseCreate, expense_row, create_expense, ReceiptExpenseCreate, receipt_row,
  create_receipt_expense,
}
use finguard.Finance.Expenses.Payables.{
  PayableCreate, payable_row, create_payable, transition_payable,
}
use finguard.Finance.Expenses.Booked.{
  IsBooked, created-IsBooked, submitted-IsBooked, transition_payable-IsBooked,
}

-- The calls of the service on expenses.
pub data ExpenseStep : Db → Db → Type 0 where
  created :
      (body : ExpenseCreate) (id now : ℕ) (db : Db)
      → find_expense id db ≡ none
      → ExpenseStep db (create_expense body id now db).1
  scanned :
      (body : ReceiptExpenseCreate) (id now : ℕ) (db : Db)
      → find_expense id db ≡ none
      → ExpenseStep db (create_receipt_expense body id now db).1
  submitted :
      (body : PayableCreate) (user id now : ℕ) (db : Db)
      → find_expense id db ≡ none
      → ExpenseStep db (create_payable body user id now db).1
  transitioned :
      (id user : ℕ) (target : ExpenseApprovalStatus) (at : Option ℕ) (now : ℕ) (db : Db)
      (r : Expense × Db)
      → transition_payable id user target at now db ≡ ok r
      → ExpenseStep db r.1

pub data ExpenseReach : Db → Db → Type 0 where
  start : (db : Db) → ExpenseReach db db
  next : {a b c : Db} → ExpenseReach a b → ExpenseStep b c → ExpenseReach a c

step-IsBooked : {a b : Db} → ExpenseStep a b → IsBooked a → IsBooked b
unfolding create_expense create_receipt_expense create_payable
step-IsBooked (ExpenseStep.created body id now db fresh) h =
    created-IsBooked (expense_row body id now) "database.expenses" now db refl fresh h
step-IsBooked (ExpenseStep.scanned body id now db fresh) h =
    created-IsBooked (receipt_row body id now) "receipt.scan" now db refl fresh h
step-IsBooked (ExpenseStep.submitted body user id now db fresh) h =
    submitted-IsBooked (payable_row body user id now) db refl fresh h
step-IsBooked (ExpenseStep.transitioned id user target at now db r e) h =
    subst (Ensures (λ q. IsBooked q.1)) e (transition_payable-IsBooked id user target at now db h)

-- If every expense has as many outbox announcements as its approval status asks for, one when
-- approved or scheduled and none before or when rejected, then this stays so through any
-- sequence of expense creations, receipt scans, payable submissions, each with a fresh id, and
-- approval transitions that return.
pub ExpenseReach-IsBooked : {a b : Db} → ExpenseReach a b → IsBooked a → IsBooked b
ExpenseReach-IsBooked (ExpenseReach.start db) h = h
ExpenseReach-IsBooked (ExpenseReach.next r s) h = step-IsBooked s (ExpenseReach-IsBooked r h)
