-- ===== src/Finance/Expenses/Payables.antt =====
-- The accounts-payable workflow of backend/src/domains/finance/service.py: `create_payable`,
-- `transition_payable`. The clock is the argument `now`, a fresh id an argument.
use text.Mathlib.Text.{◌==◌ as str_eq}
use finguard.Base.{
  ℕ, ◌==◌, Bool, false, not, ◌&&◌, ◌||◌, Option, none, some, List, [], ◌∷◌, String, if◌then◌else◌,
}
use finguard.Base.Int.{ℤ}
use finguard.Core.Errors.{Result, ok, ◌>>=◌, ◌>>◌, raise_if, or_raise}
use finguard.Core.Errors.AppError.{not_found, unprocessable, forbidden}
use finguard.Identity.Permissions.{finance_approve}
use finguard.Notifications.{EmailContext, payable_review}
use finguard.Notifications.Reviewers.{notify_reviewers}
use finguard.Finance.Types.{VaultType}
use finguard.Finance.Rows.{
  Expense, ExpenseApprovalStatus, pending_review, approved, scheduled, rejected, same_approval,
}
use finguard.Finance.Db.{Db}
use finguard.Finance.Expenses.{
  append_expense, find_expense, save_expense, apply_expense_side_effects,
}

-- `_PAYABLE_TRANSITIONS`
unfoldable pub allowed_transitions : ExpenseApprovalStatus → List ExpenseApprovalStatus
allowed_transitions ExpenseApprovalStatus.draft = pending_review ∷ []
allowed_transitions pending_review = approved ∷ rejected ∷ []
allowed_transitions approved = scheduled ∷ []
allowed_transitions status = []

abbrev pub mem_approval : ExpenseApprovalStatus → List ExpenseApprovalStatus → Bool
mem_approval s [] = false
mem_approval s (t ∷ ts) = same_approval t s || mem_approval s ts

-- `_REVIEW_DECISIONS`
abbrev pub review_decisions : List ExpenseApprovalStatus
review_decisions = approved ∷ rejected ∷ []

-- `PayableCreate`
pub record PayableCreate : Type 0 where
  pub category : String
  pub amount : ℤ
  pub vault : VaultType
  pub description : Option String
  pub merchant_name : Option String
  pub expense_ref : Option String
  pub customer_id : Option ℕ

abbrev pub payable_row : PayableCreate → ℕ → ℕ → ℕ → Expense
payable_row body user id now = record {
  id = id;
  expense_ref = body.expense_ref;
  customer_id = body.customer_id;
  category = body.category;
  amount = body.amount;
  vault = body.vault;
  mpesa_trans_id = none;
  invoice_id = none;
  approval_status = pending_review;
  submitted_by = some user;
  reviewed_by = none;
  reviewed_at = none;
  scheduled_for = none;
  merchant_name = body.merchant_name;
  kra_pin = none;
  description = body.description;
  receipt_date = none;
  created_at = now;
}

-- `expense.description or expense.merchant_name or ""`
abbrev pub text_or : Option String → String → String
text_or none rest = rest
text_or (some t) rest = if str_eq t "" then rest else t

unfoldable pub create_payable : PayableCreate → ℕ → ℕ → ℕ → Db → Expense × Db
create_payable body user id now db =
    let expense = payable_row body user id now in
    let saved = append_expense expense db in
    let context =
      EmailContext.approval_needed expense.category
        (text_or expense.description (text_or expense.merchant_name "")) in
    let notified =
      notify_reviewers finance_approve (payable_review id) context (some user) saved.users
        saved.mail in
    (expense, record saved { mail = notified.1 })

-- `expense.submitted_by == current_user.id`
abbrev pub is_submitter : Option ℕ → ℕ → Bool
is_submitter none user = false
is_submitter (some submitter) user = submitter == user

-- The assignments of `transition_payable` to the row.
unfoldable pub moved : ExpenseApprovalStatus → Option ℕ → ℕ → ℕ → Expense → Expense
moved target scheduled_for user now expense =
    let reviewed =
      if mem_approval target review_decisions
      then record expense {
        approval_status = target;
        reviewed_by = some user;
        reviewed_at = some now;
      }
      else record expense { approval_status = target } in
    if same_approval target scheduled
    then record reviewed {
      scheduled_for = elim scheduled_for [ none ↦ some now | some t ↦ some t ];
    }
    else reviewed

-- The flush of the row, and its side effects when it is approved.
unfoldable pub book : ExpenseApprovalStatus → ℕ → Expense → Db → Db
unfolding apply_expense_side_effects
book target now row db =
    let saved = save_expense row db in
    if same_approval target approved
    then apply_expense_side_effects row "payable.approved" now saved
    else saved

unfoldable pub transition_payable :
    ℕ → ℕ → ExpenseApprovalStatus → Option ℕ → ℕ → Db → Result (Expense × Db)
unfolding moved book allowed_transitions
transition_payable expense_id user target scheduled_for now db = do
  expense ← or_raise (find_expense expense_id db) not_found
  raise_if (not (mem_approval target (allowed_transitions expense.approval_status))) unprocessable
  raise_if (mem_approval target review_decisions && is_submitter expense.submitted_by user)
      forbidden
  let row = moved target scheduled_for user now expense
  ok (row, book target now row db)
