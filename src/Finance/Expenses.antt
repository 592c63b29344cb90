-- ===== src/Finance/Expenses.antt =====
-- Expenses and budgets of backend/src/domains/finance/service.py (`create_expense`,
-- `create_receipt_expense`, `_apply_expense_side_effects`, `create_budget`). The clock is the
-- argument `now`, a fresh id an argument.
pub mod Booked
pub mod Payables
pub mod Queue
pub mod Workflow
use text.Mathlib.Text.{◌==◌ as str_eq}
use finguard.Base.{
  ℕ, ◌==◌, Bool, true, false, not, ◌&&◌, ◌||◌, Option, none, some, List, [], ◌∷◌, ◌++◌, String, leb,
  if◌then◌else◌, map,
}
use finguard.Base.Int.{ℤ, ◌+ℤ◌, pos}
use finguard.Base.Table.{find_row, save_row}
use finguard.Core.Errors.{Result, ok, err, ◌>>=◌, ◌>>◌, raise_if, or_raise}
use finguard.Core.Errors.AppError.{not_found, unprocessable, forbidden}
use finguard.Identity.Permissions.{finance_approve}
use finguard.Notifications.{EmailContext, payable_review}
use finguard.Notifications.Reviewers.{notify_reviewers}
use finguard.Finance.Types.{VaultType}
use finguard.Finance.Rows.{
  Expense, ExpenseApprovalStatus, pending_review, approved, scheduled, rejected, same_approval,
  Budget, OutboxPayload,
}
use finguard.Finance.Db.{Db, add_outbox}

-- `ExpenseRepository.create`
abbrev pub append_expense : Expense → Db → Db
append_expense expense db = record db { expenses = db.expenses ++ expense ∷ [] }

abbrev pub find_expense : ℕ → Db → Option Expense
find_expense i db = find_row (λ (e : Expense). e.id) i db.expenses

abbrev pub save_expense : Expense → Db → Db
save_expense expense db = record db {
  expenses = save_row (λ (e : Expense). e.id) expense db.expenses;
}

-- The `WHERE` of the burn-down.
abbrev pub covers : String → ℕ → Budget → Bool
covers category now budget =
    str_eq budget.category category && leb budget.period_start now && leb now budget.period_end

-- `UPDATE budgets SET spent = spent + :amount WHERE …`
unfoldable pub burn : String → ℤ → ℕ → List Budget → List Budget
burn category amount now [] = []
burn category amount now (b ∷ bs) =
    (if covers category now b then record b { spent = b.spent +ℤ amount } else b)
    ∷ burn category amount now bs

-- `_apply_expense_side_effects`
unfoldable pub apply_expense_side_effects : Expense → String → ℕ → Db → Db
unfolding burn
apply_expense_side_effects expense source now db =
    let burnt = record db { budgets = burn expense.category expense.amount now db.budgets } in
    add_outbox
      (record {
        exchange = "finguard.events";
        routing_key = "expenses.created";
        payload =
            OutboxPayload.expense_created expense.id expense.amount expense.category expense.vault
              expense.created_at source;
      })
      burnt

-- `ExpenseCreate`
pub record ExpenseCreate : Type 0 where
  pub expense_ref : Option String
  pub customer_id : Option ℕ
  pub category : String
  pub amount : ℤ
  pub vault : VaultType
  pub mpesa_trans_id : Option ℕ
  pub invoice_id : Option ℕ

-- `Expense(**data.model_dump())`, with the defaults of the model.
abbrev pub expense_row : ExpenseCreate → ℕ → ℕ → Expense
expense_row body id now = record {
  id = id;
  expense_ref = body.expense_ref;
  customer_id = body.customer_id;
  category = body.category;
  amount = body.amount;
  vault = body.vault;
  mpesa_trans_id = body.mpesa_trans_id;
  invoice_id = body.invoice_id;
  approval_status = approved;
  submitted_by = none;
  reviewed_by = none;
  reviewed_at = none;
  scheduled_for = none;
  merchant_name = none;
  kra_pin = none;
  description = none;
  receipt_date = none;
  created_at = now;
}

unfoldable pub create_expense : ExpenseCreate → ℕ → ℕ → Db → Expense × Db
unfolding apply_expense_side_effects
create_expense body id now db =
    let expense = expense_row body id now in
    (
      expense,
      apply_expense_side_effects expense "database.expenses" now (append_expense expense db),
    )

-- `ReceiptExpenseCreate`
pub record ReceiptExpenseCreate : Type 0 where
  pub merchant_name : Option String
  pub category : String
  pub amount : ℤ
  pub vault : VaultType
  pub kra_pin : Option String
  pub receipt_date : Option ℕ
  pub description : Option String
  pub expense_ref : Option String
  pub customer_id : Option ℕ

abbrev pub receipt_row : ReceiptExpenseCreate → ℕ → ℕ → Expense
receipt_row body id now = record {
  id = id;
  expense_ref = body.expense_ref;
  customer_id = body.customer_id;
  category = body.category;
  amount = body.amount;
  vault = body.vault;
  mpesa_trans_id = none;
  invoice_id = none;
  approval_status = approved;
  submitted_by = none;
  reviewed_by = none;
  reviewed_at = none;
  scheduled_for = none;
  merchant_name = body.merchant_name;
  kra_pin = body.kra_pin;
  description = body.description;
  receipt_date = body.receipt_date;
  created_at = now;
}

unfoldable pub create_receipt_expense : ReceiptExpenseCreate → ℕ → ℕ → Db → Expense × Db
unfolding apply_expense_side_effects
create_receipt_expense body id now db =
    let expense = receipt_row body id now in
    (expense, apply_expense_side_effects expense "receipt.scan" now (append_expense expense db))

-- `BudgetCreate`
pub record BudgetCreate : Type 0 where
  pub name : String
  pub category : String
  pub amount : ℤ
  pub period_start : ℕ
  pub period_end : ℕ

unfoldable pub create_budget : BudgetCreate → ℕ → Db → Budget × Db
create_budget body id db =
    let budget : Budget = record {
      id = id;
      name = body.name;
      category = body.category;
      amount = body.amount;
      spent = pos 0;
      period_start = body.period_start;
      period_end = body.period_end;
    } in
    (budget, record db { budgets = db.budgets ++ budget ∷ [] })
