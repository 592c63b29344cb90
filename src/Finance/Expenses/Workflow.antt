-- ===== src/Finance/Expenses/Workflow.antt =====
-- The approval workflow of a payable as a state machine, and its side effects applied once.
use finguard.Base.{
  ℕ, ◌==◌, ◌≡◌, inl, inr, refl, ap, ◌∙◌, Bool, true, false, not, ◌&&◌, Option, some, if◌then◌else◌,
  arith, Bool-cases, if_elim, eq_test_self,
}
use finguard.Base.Table.{find_row, find_row-key, find_row-save_row}
use finguard.Core.Errors.{Ensures, Ensures-raise_if, Ensures-or_raise}
use finguard.Core.Errors.AppError.{not_found, unprocessable, forbidden}
use finguard.Finance.Rows.{
  Expense, ExpenseApprovalStatus, pending_review, approved, scheduled, rejected, same_approval,
}
use finguard.Finance.Db.{Db}
use finguard.Finance.Expenses.{find_expense, save_expense, apply_expense_side_effects, burn}
use finguard.Finance.Expenses.Payables.{
  allowed_transitions, mem_approval, review_decisions, is_submitter, moved, book,
  transition_payable,
}

-- The legal moves.
pub data IsMove : ExpenseApprovalStatus → ExpenseApprovalStatus → Type 0 where
  submit : IsMove ExpenseApprovalStatus.draft pending_review
  approve : IsMove pending_review approved
  reject : IsMove pending_review rejected
  schedule : IsMove approved scheduled

pub allowed-IsMove :
    (from to : ExpenseApprovalStatus)
    → mem_approval to (allowed_transitions from) ≡ true
    → IsMove from to
unfolding allowed_transitions
allowed-IsMove ExpenseApprovalStatus.draft pending_review h = IsMove.submit
allowed-IsMove pending_review approved h = IsMove.approve
allowed-IsMove pending_review rejected h = IsMove.reject
allowed-IsMove approved scheduled h = IsMove.schedule
allowed-IsMove ExpenseApprovalStatus.draft ExpenseApprovalStatus.draft h = ground arith
allowed-IsMove ExpenseApprovalStatus.draft approved h = ground arith
allowed-IsMove ExpenseApprovalStatus.draft scheduled h = ground arith
allowed-IsMove ExpenseApprovalStatus.draft rejected h = ground arith
allowed-IsMove pending_review ExpenseApprovalStatus.draft h = ground arith
allowed-IsMove pending_review pending_review h = ground arith
allowed-IsMove pending_review scheduled h = ground arith
allowed-IsMove approved ExpenseApprovalStatus.draft h = ground arith
allowed-IsMove approved pending_review h = ground arith
allowed-IsMove approved approved h = ground arith
allowed-IsMove approved rejected h = ground arith
allowed-IsMove scheduled to h = ground arith
allowed-IsMove rejected to h = ground arith

-- What a transition that returns has done.
pub record IsMoved (id user now : ℕ) (target : ExpenseApprovalStatus) (db : Db) (r : Expense × Db)
    : Type 0 where
  pub before : Expense
  pub is_before : find_expense id db ≡ some before
  pub legal : IsMove before.approval_status target
  pub is_after : find_expense id r.1 ≡ some r.0
  pub status : r.0.approval_status ≡ target
  pub segregated :
      mem_approval target review_decisions ≡ true
      → (is_submitter before.submitted_by user ≡ false) × (r.0.reviewed_by ≡ some user)
  pub budgets : r.1.budgets ≡ (
      if same_approval target approved
      then burn r.0.category r.0.amount now db.budgets
      else db.budgets)

-- The columns that a transition leaves alone.
abbrev pub Kept : Expense → Expense → Type 0
Kept e e' =
    (e'.id ≡ e.id)
    × (e'.category ≡ e.category)
    × (e'.amount ≡ e.amount)
    × (e'.submitted_by ≡ e.submitted_by)

pub moved-Kept :
    (target : ExpenseApprovalStatus) (at : Option ℕ) (user now : ℕ) (e : Expense)
    → Kept e (moved target at user now e)
unfolding moved
moved-Kept target at user now e = ground arith

pub moved-status :
    (target : ExpenseApprovalStatus) (at : Option ℕ) (user now : ℕ) (e : Expense)
    → (moved target at user now e).approval_status ≡ target
unfolding moved
moved-status target at user now e = ground arith

moved-reviewed_by :
    (target : ExpenseApprovalStatus) (at : Option ℕ) (user now : ℕ) (e : Expense)
    → mem_approval target review_decisions ≡ true
    → (moved target at user now e).reviewed_by ≡ some user
unfolding moved
moved-reviewed_by target at user now e h = ground arith

pub not-false : (b : Bool) → not b ≡ false → b ≡ true
not-false true h = refl
not-false false h = cc

segregates : (d s : Bool) → d && s ≡ false → d ≡ true → s ≡ false
segregates d s h k = ground arith

book-expenses :
    (target : ExpenseApprovalStatus) (now : ℕ) (row : Expense) (db : Db)
    → (book target now row db).expenses ≡ (save_expense row db).expenses
unfolding book apply_expense_side_effects
book-expenses target now row db =
    if_elim (λ (d : Db). d.expenses ≡ (save_expense row db).expenses)
      (same_approval target approved) _ _ refl refl

book-budgets :
    (target : ExpenseApprovalStatus) (now : ℕ) (row : Expense) (db : Db)
    → (book target now row db).budgets ≡ (
        if same_approval target approved
        then burn row.category row.amount now db.budgets
        else db.budgets)
unfolding book apply_expense_side_effects
book-budgets target now row db = elim (Bool-cases (same_approval target approved)) [
  | inl h ↦ rw h refl
  | inr h ↦ rw h refl
]

pub find-book :
    (id : ℕ) (target : ExpenseApprovalStatus) (at : Option ℕ) (user now : ℕ) (e : Expense) (db : Db)
    → find_expense id db ≡ some e
    → (j : ℕ)
    → find_expense j (book target now (moved target at user now e) db)
      ≡ (if id == j then some (moved target at user now e) else find_expense j db)
find-book id target at user now e db found j =
    let row = moved target at user now e in
    let same =
      (moved-Kept target at user now e).0
      ∙ find_row-key (λ (r : Expense). r.id) id db.expenses e found in
    ap (find_row (λ (r : Expense). r.id) j) (book-expenses target now row db)
    ∙ find_row-save_row (λ (r : Expense). r.id) id j row e db.expenses same found

module _ (id user : ℕ) (target : ExpenseApprovalStatus) (at : Option ℕ) (now : ℕ) (db : Db)
    (e : Expense) (found : find_expense id db ≡ some e)
    (legal : not (mem_approval target (allowed_transitions e.approval_status)) ≡ false)
    (apart : mem_approval target review_decisions && is_submitter e.submitted_by user ≡ false) where
  row : Expense
  row = moved target at user now e

  step_lem : IsMoved id user now target db (row, book target now row db)
  unfolding row
  step_lem = record {
    before = e;
    is_before = found;
    legal =
        allowed-IsMove e.approval_status target
          (not-false (mem_approval target (allowed_transitions e.approval_status)) legal);
    is_after = find-book id target at user now e db found id ∙ rw (eq_test_self id) refl;
    status = moved-status target at user now e;
    segregated = λ d. (
      segregates (mem_approval target review_decisions) (is_submitter e.submitted_by user) apart d,
      moved-reviewed_by target at user now e d,
    );
    budgets = book-budgets target now (moved target at user now e) db;
  }

-- A payable transition that returns took one of the four legal edges from the stored status,
-- was, as an approval or a rejection, not made by the submitter and names its reviewer, stores
-- the new status, and burned the budgets of the category exactly when it approved.
pub transition_payable-IsMoved :
    (id user : ℕ) (target : ExpenseApprovalStatus) (at : Option ℕ) (now : ℕ) (db : Db)
    → Ensures (IsMoved id user now target db) (transition_payable id user target at now db)
unfolding transition_payable step_lem row
transition_payable-IsMoved id user target at now db =
    Ensures-or_raise (IsMoved id user now target db) (find_expense id db) not_found _ (λ e found.
      Ensures-raise_if (IsMoved id user now target db) _ unprocessable _ (λ legal.
        Ensures-raise_if (IsMoved id user now target db) _ forbidden _
          (λ apart. step_lem id user target at now db e found legal apart)))
