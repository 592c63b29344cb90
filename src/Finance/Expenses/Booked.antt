-- ===== src/Finance/Expenses/Booked.antt =====
-- The side effects of an expense happen exactly once.
pub mod Runs
use mathlib.Core.Path.{subst}
use finguard.Base.{
  ℕ, ◌+◌, ◌==◌, ◌≡◌, inl, inr, refl, sym, ap, ◌∙◌, Bool, true, false, ◌&&◌, Option, none, some,
  List, [], ◌∷◌, ◌++◌, String, if◌then◌else◌, arith, Bool-cases, length, if_elim, length-snoc,
  eq_of_test,
}
use finguard.Base.Table.{select, select-snoc, find_row-append, find_row-key}
use finguard.Core.Errors.{ok, Ensures, Ensures-raise_if, Ensures-or_raise}
use finguard.Core.Errors.AppError.{not_found, unprocessable, forbidden}
use finguard.Finance.Rows.{
  Expense, ExpenseApprovalStatus, approved, scheduled, same_approval, OutboxPayload, OutboxEvent,
}
use finguard.Finance.Db.{Db}
use finguard.Finance.Expenses.{
  find_expense, save_expense, append_expense, apply_expense_side_effects, ExpenseCreate,
  expense_row, create_expense, ReceiptExpenseCreate, receipt_row, create_receipt_expense,
}
use finguard.Finance.Expenses.Payables.{
  book, allowed_transitions, mem_approval, review_decisions, PayableCreate, payable_row,
  create_payable, is_submitter, moved, transition_payable,
}
use finguard.Finance.Expenses.Workflow.{
  IsMove, moved-Kept, moved-status, find-book, allowed-IsMove, not-false,
}

-- The outbox event that announces the expense.
abbrev announces_payload : ℕ → OutboxPayload → Bool
announces_payload i (OutboxPayload.expense_created id amount category vault created_at source) =
    id == i
announces_payload i payload = false

abbrev announces : ℕ → OutboxEvent → Bool
announces i e = announces_payload i e.payload

abbrev pub announced : ℕ → Db → ℕ
announced i db = length (select (announces i) db.outbox)

-- How often the side effects of an expense have happened.
abbrev pub weight : ExpenseApprovalStatus → ℕ
weight approved = 1
weight scheduled = 1
weight status = 0

abbrev pub bookings : Option Expense → ℕ
bookings none = 0
bookings (some e) = weight e.approval_status

abbrev pub IsBooked : Db → Type 0
IsBooked db = (i : ℕ) → announced i db ≡ bookings (find_expense i db)

count_snoc {ℓ} :
    {A : Type ℓ} (b : Bool) (xs : List A) (x : A)
    → length (if b then xs ++ x ∷ [] else xs) ≡ length xs + (if b then 1 else 0)
count_snoc true xs x = length-snoc xs x
count_snoc false xs x = omega arith

announced-effects :
    (i : ℕ) (e : Expense) (source : String) (now : ℕ) (db : Db)
    → announced i (apply_expense_side_effects e source now db)
      ≡ announced i db + (if e.id == i then 1 else 0)
unfolding apply_expense_side_effects
announced-effects i e source now db =
    let event : OutboxEvent = record {
      exchange = "finguard.events";
      routing_key = "expenses.created";
      payload = OutboxPayload.expense_created e.id e.amount e.category e.vault e.created_at source;
    } in
    ap length (select-snoc (announces i) db.outbox event)
    ∙ count_snoc (e.id == i) (select (announces i) db.outbox) event

insert_count :
    (b : Bool) (n w : ℕ) (e : Expense) (o : Option Expense)
    → w ≡ bookings (some e)
    → (b ≡ true → o ≡ none)
    → n ≡ bookings o
    → n + (if b then w else 0) ≡ bookings (if b then some e else o)
insert_count true n w e o same fresh h =
    let zero_before : n ≡ 0 = h ∙ ap bookings (fresh refl) in
    rw (← same) (omega (arith, zero_before))
insert_count false n w e o same fresh h = omega (arith, h)

fresh_here :
    (e : Expense) (i : ℕ) (db : Db)
    → find_expense e.id db ≡ none
    → (e.id == i) ≡ true
    → find_expense i db ≡ none
fresh_here e i db fresh k = subst (λ j. find_expense j db ≡ none) (eq_of_test e.id i k) fresh

-- A fresh expense that is booked as it is created.
pub created-IsBooked :
    (e : Expense) (source : String) (now : ℕ) (db : Db)
    → 1 ≡ bookings (some e)
    → find_expense e.id db ≡ none
    → IsBooked db
    → IsBooked (apply_expense_side_effects e source now (append_expense e db))
unfolding apply_expense_side_effects
created-IsBooked e source now db w fresh h i =
    announced-effects i e source now (append_expense e db)
    ∙ insert_count (e.id == i) (announced i db) 1 e (find_expense i db) w (fresh_here e i db fresh)
        (h i)
    ∙ ap bookings (sym (find_row-append (λ (r : Expense). r.id) i e db.expenses fresh))

-- A fresh payable.
pub submitted-IsBooked :
    (e : Expense) (db : Db)
    → 0 ≡ bookings (some e)
    → find_expense e.id db ≡ none
    → IsBooked db
    → IsBooked (append_expense e db)
submitted-IsBooked e db w fresh h i =
    let weightless : announced i db ≡ announced i db + (if e.id == i then 0 else 0) =
      if_elim (λ k. announced i db ≡ announced i db + k) (e.id == i) 0 0 (omega arith)
        (omega arith) in
    weightless
    ∙ insert_count (e.id == i) (announced i db) 0 e (find_expense i db) w (fresh_here e i db fresh)
        (h i)
    ∙ ap bookings (sym (find_row-append (λ (r : Expense). r.id) i e db.expenses fresh))

announced-book :
    (i : ℕ) (target : ExpenseApprovalStatus) (now : ℕ) (row : Expense) (db : Db)
    → announced i (book target now row db)
      ≡ announced i db
        + (if row.id == i then (if same_approval target approved then 1 else 0) else 0)
unfolding book
announced-book i target now row db = elim (Bool-cases (same_approval target approved)) [
  | inl k ↦ rw k (announced-effects i row "payable.approved" now (save_expense row db))
  | inr k ↦ rw k (
      if_elim (λ n. announced i db ≡ announced i db + n) (row.id == i) 0 0 (omega arith)
        (omega arith))
]

weight-move :
    {from to : ExpenseApprovalStatus}
    → IsMove from to
    → weight from + (if same_approval to approved then 1 else 0) ≡ weight to
weight-move IsMove.submit = omega arith
weight-move IsMove.approve = omega arith
weight-move IsMove.reject = omega arith
weight-move IsMove.schedule = omega arith

-- A legal move books exactly when it approves.
bookings-move :
    (e e' : Expense) (target : ExpenseApprovalStatus)
    → IsMove e.approval_status target
    → e'.approval_status ≡ target
    → bookings (some e) + (if same_approval target approved then 1 else 0) ≡ bookings (some e')
bookings-move e e' target m s = rw s (weight-move m)

save_count :
    (b : Bool) (n w : ℕ) (e e' : Expense) (o : Option Expense)
    → bookings (some e) + w ≡ bookings (some e')
    → (b ≡ true → o ≡ some e)
    → n ≡ bookings o
    → n + (if b then w else 0) ≡ bookings (if b then some e' else o)
save_count true n w e e' o moves here h =
    let before : n ≡ bookings (some e) = h ∙ ap bookings (here refl) in
    rw (← moves) (omega (arith, before))
save_count false n w e e' o moves here h = omega (arith, h)

moved-IsBooked :
    (id user : ℕ) (target : ExpenseApprovalStatus) (at : Option ℕ) (now : ℕ) (db : Db) (e : Expense)
    → find_expense id db ≡ some e
    → IsMove e.approval_status target
    → IsBooked db
    → IsBooked (book target now (moved target at user now e) db)
moved-IsBooked id user target at now db e found move h i =
    let row = moved target at user now e in
    let same : row.id ≡ id =
      (moved-Kept target at user now e).0
      ∙ find_row-key (λ (r : Expense). r.id) id db.expenses e found in
    let here : (id == i) ≡ true → find_expense i db ≡ some e =
      λ k. subst (λ j. find_expense j db ≡ some e) (eq_of_test id i k) found in
    announced-book i target now row db
    ∙ ap
        (λ j.
          announced i db + (if j == i then (if same_approval target approved then 1 else 0) else 0))
        same
    ∙ save_count (id == i) (announced i db) (if same_approval target approved then 1 else 0) e row
        (find_expense i db) (bookings-move e row target move (moved-status target at user now e))
        here (h i)
    ∙ ap bookings (sym (find-book id target at user now e db found i))

pub transition_payable-IsBooked :
    (id user : ℕ) (target : ExpenseApprovalStatus) (at : Option ℕ) (now : ℕ) (db : Db)
    → IsBooked db
    → Ensures (λ (r : Expense × Db). IsBooked r.1) (transition_payable id user target at now db)
unfolding transition_payable
transition_payable-IsBooked id user target at now db h =
    Ensures-or_raise (λ (r : Expense × Db). IsBooked r.1) (find_expense id db) not_found _
      (λ e found.
        Ensures-raise_if (λ (r : Expense × Db). IsBooked r.1) _ unprocessable _
          (λ legal.
            Ensures-raise_if (λ (r : Expense × Db). IsBooked r.1)
              (mem_approval target review_decisions && is_submitter e.submitted_by user) forbidden
              (ok (moved target at user now e, book target now (moved target at user now e) db))
              (λ apart.
                moved-IsBooked id user target at now db e found
                  (allowed-IsMove e.approval_status target
                    (not-false (mem_approval target (allowed_transitions e.approval_status)) legal))
                  h)))
