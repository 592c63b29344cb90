-- ===== src/Reconciliation/Exact/Count.antt =====
-- How often a list of matches names an invoice or a transaction.
use finguard.Base.{
  weight, ℕ, ◌+◌, ◌≤◌, ◌≡◌, inl, inr, Bool, false, ◌||◌, ◌==◌, List, [], ◌∷◌, ◌++◌, ltb, eq_of_test,
  Bool-cases, arith,
}
use finguard.Reconciliation.Match.{Transaction, ReconciliationMatch}

-- How many matches an invoice, or a transaction, has.
abbrev pub count_inv : ℕ → List ReconciliationMatch → ℕ
count_inv i [] = 0
count_inv i (m ∷ ms) = weight (m.invoice_id == i) + count_inv i ms

abbrev pub count_txn : ℕ → List ReconciliationMatch → ℕ
count_txn i [] = 0
count_txn i (m ∷ ms) = weight (m.transaction_id == i) + count_txn i ms

-- How many transactions have the id.
abbrev pub occurrences : ℕ → List Transaction → ℕ
occurrences i [] = 0
occurrences i (t ∷ ts) = weight (t.id == i) + occurrences i ts

pub count_inv-append :
    (i : ℕ) (xs ys : List ReconciliationMatch)
    → count_inv i (xs ++ ys) ≡ count_inv i xs + count_inv i ys
count_inv-append i [] ys = omega arith
count_inv-append i (x ∷ xs) ys = omega (arith, count_inv-append i xs ys)

pub count_txn-append :
    (i : ℕ) (xs ys : List ReconciliationMatch)
    → count_txn i (xs ++ ys) ≡ count_txn i xs + count_txn i ys
count_txn-append i [] ys = omega arith
count_txn-append i (x ∷ xs) ys = omega (arith, count_txn-append i xs ys)

pub weight_self : (i : ℕ) → weight (i == i) ≡ 1
weight_self i = ground arith

pub once_step :
    (a i c : ℕ) (taken : Bool)
    → (a ≡ i → taken ≡ false)
    → taken ≡ ltb 0 c
    → c ≤ 1
    → c + (weight (a == i) + 0) ≤ 1
once_step a i c taken free same h = elim (Bool-cases (a == i)) [
  | inl e ↦ ground (arith, free (eq_of_test a i e))
  | inr e ↦ ground (arith, e)
]

pub taken_step :
    (a i c : ℕ) (taken : Bool)
    → taken ≡ ltb 0 c
    → (a == i || taken) ≡ ltb 0 (c + (weight (a == i) + 0))
taken_step a i c taken same = ground arith
