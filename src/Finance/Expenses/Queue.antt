-- ===== src/Finance/Expenses/Queue.antt =====
-- The queue of payables: `list_payable_queue` of backend/src/domains/finance/service.py.
use Prim.Native.Nat.{min}
use finguard.Base.{
  weight, ℕ, zero, suc, ◌+◌, ◌≡◌, refl, ap, ◌∙◌, Bool, List, [], ◌∷◌, length, leb, take, arith,
  Bool-cases, inl, inr,
}
use finguard.Base.Int.{ℤ, sum_by}
use finguard.Base.Sort.{sort_by, length-sort_by}
use finguard.Base.Table.{select}
use finguard.Finance.Rows.{
  Expense, ExpenseApprovalStatus, pending_review, approved, scheduled, rejected, same_approval,
}
use finguard.Finance.Db.{Db}
use finguard.Finance.Expenses.Payables.{mem_approval}

-- The states of the queue.
abbrev pub in_flight : List ExpenseApprovalStatus
in_flight = pending_review ∷ approved ∷ scheduled ∷ []

-- `ORDER BY created_at DESC`
abbrev pub newest_first : Expense → Expense → Bool
newest_first a b = leb b.created_at a.created_at

unfoldable pub list_by_approval_statuses : List ExpenseApprovalStatus → ℕ → Db → List Expense
unfolding select sort_by
list_by_approval_statuses statuses limit db = take limit (
    sort_by newest_first
      (select (λ (e : Expense). mem_approval e.approval_status statuses) db.expenses))

-- `approval_status_aggregates`: the count and the sum of one status.
unfoldable pub approval_status_aggregate : ExpenseApprovalStatus → Db → ℕ × ℤ
unfolding select
approval_status_aggregate status db =
    let rows = select (λ (e : Expense). same_approval e.approval_status status) db.expenses in
    (length rows, sum_by (λ (e : Expense). e.amount) rows)

pub record PayableQueueKpis : Type 0 where
  pub pending_count : ℕ
  pub pending_amount : ℤ
  pub approved_count : ℕ
  pub approved_amount : ℤ
  pub scheduled_count : ℕ

pub record PayableQueue : Type 0 where
  pub kpis : PayableQueueKpis
  pub items : List Expense

unfoldable pub list_payable_queue : ℕ → Db → PayableQueue
unfolding list_by_approval_statuses approval_status_aggregate
list_payable_queue limit db =
    let pending = approval_status_aggregate pending_review db in
    let ready = approval_status_aggregate approved db in
    record {
      kpis = record {
        pending_count = pending.0;
        pending_amount = pending.1;
        approved_count = ready.0;
        approved_amount = ready.1;
        scheduled_count = (approval_status_aggregate scheduled db).0;
      };
      items = list_by_approval_statuses in_flight limit db;
    }

length-take {ℓ} : {A : Type ℓ} (n : ℕ) (xs : List A) → length (take n xs) ≡ min n (length xs)
length-take zero xs = omega arith
length-take (suc n) [] = omega arith
length-take (suc n) (x ∷ xs) = omega (arith, length-take n xs)

length-select {ℓ} :
    {A : Type ℓ} (p : A → Bool) (x : A) (xs : List A)
    → length (select p (x ∷ xs)) ≡ weight (p x) + length (select p xs)
unfolding select
length-select p x xs = elim (Bool-cases (p x)) [
  | inl k ↦ rw k (omega arith)
  | inr k ↦ rw k (omega arith)
]

one_state :
    (s : ExpenseApprovalStatus)
    → weight (mem_approval s in_flight)
      ≡ weight (same_approval s pending_review)
        + weight (same_approval s approved)
        + weight (same_approval s scheduled)
one_state ExpenseApprovalStatus.draft = refl
one_state pending_review = refl
one_state approved = refl
one_state scheduled = refl
one_state rejected = refl

-- How many expenses are in a state.
abbrev count_in : ExpenseApprovalStatus → List Expense → ℕ
count_in status rows =
    length (select (λ (e : Expense). same_approval e.approval_status status) rows)

in_flight-count :
    (rows : List Expense)
    → length (select (λ (e : Expense). mem_approval e.approval_status in_flight) rows)
      ≡ count_in pending_review rows + count_in approved rows + count_in scheduled rows
unfolding select
in_flight-count [] = omega arith
in_flight-count (e ∷ rows) = omega (
  arith,
  one_state e.approval_status,
  in_flight-count rows,
  length-select (λ (x : Expense). mem_approval x.approval_status in_flight) e rows,
  length-select (λ (x : Expense). same_approval x.approval_status pending_review) e rows,
  length-select (λ (x : Expense). same_approval x.approval_status approved) e rows,
  length-select (λ (x : Expense). same_approval x.approval_status scheduled) e rows,
)

-- The page holds as many payables as its counts say, up to its limit.
list_payable_queue-length :
    (limit : ℕ) (db : Db)
    → length (list_payable_queue limit db).items
      ≡ min limit (
          (list_payable_queue limit db).kpis.pending_count
          + (list_payable_queue limit db).kpis.approved_count
          + (list_payable_queue limit db).kpis.scheduled_count)
unfolding list_payable_queue list_by_approval_statuses approval_status_aggregate
list_payable_queue-length limit db =
    length-take limit (
      sort_by newest_first
        (select (λ (e : Expense). mem_approval e.approval_status in_flight) db.expenses))
    ∙ ap (min limit) (
        length-sort_by newest_first
          (select (λ (e : Expense). mem_approval e.approval_status in_flight) db.expenses)
        ∙ in_flight-count db.expenses)
