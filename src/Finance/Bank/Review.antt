-- ===== src/Finance/Bank/Review.antt =====
-- The review of a bank statement line is decided once, by somebody else than its importer.
use finguard.Base.{
  ℕ, inl, inr, Bool-cases, ◌==◌, ◌≡◌, refl, ap, ◌∙◌, Bool, true, false, not, some, eq_test_self,
  if◌then◌else◌,
}
use finguard.Base.Table.{find_row-key, find_row-save_row}
use finguard.Core.Errors.{err, Ensures, Ensures-raise_if, Ensures-or_raise, Ensures-map}
use finguard.Core.Errors.AppError.{not_found, unprocessable, forbidden}
use finguard.Finance.Rows.{BankStatementLine, BankReview}
use finguard.Finance.Db.{Db}
use finguard.Finance.Bank.{
  find_line, save_line, is_pending, is_importer, decided, review_bank_statement_line,
}

-- What a review that returns has done.
pub record IsReviewed (id user : ℕ) (verdict : BankReview) (db : Db) (r : BankStatementLine × Db)
    : Type 0 where
  pub before : BankStatementLine
  pub is_before : find_line id db ≡ some before
  pub was_open : (before.is_reconciled ≡ false) × (is_pending before.review_status ≡ true)
  pub segregated : is_importer before.imported_by user ≡ false
  pub is_after : find_line id r.1 ≡ some r.0
  pub decision : (r.0.review_status ≡ verdict) × (r.0.approved_by ≡ some user)
  pub others : (j : ℕ) → (id == j) ≡ false → find_line j r.1 ≡ find_line j db

not-false : (b : Bool) → not b ≡ false → b ≡ true
not-false true h = refl
not-false false h = cc

find-save_line :
    (id j : ℕ) (line row : BankStatementLine) (db : Db)
    → row.id ≡ line.id
    → find_line id db ≡ some line
    → find_line j (save_line row db) ≡ (if id == j then some row else find_line j db)
find-save_line id j line row db same found =
    find_row-save_row (λ (l : BankStatementLine). l.id) id j row line db.bank_lines
      (same ∙ find_row-key (λ (l : BankStatementLine). l.id) id db.bank_lines line found) found

module _ (id user now : ℕ) (verdict : BankReview) (db : Db) (line : BankStatementLine)
    (found : find_line id db ≡ some line) (live : line.is_reconciled ≡ false)
    (opened : not (is_pending line.review_status) ≡ false)
    (apart : is_importer line.imported_by user ≡ false) where
  row : BankStatementLine
  row = decided verdict user now line

  review_lem : IsReviewed id user verdict db (row, save_line row db)
  unfolding row
  review_lem = record {
    before = line;
    is_before = found;
    was_open = (live, not-false (is_pending line.review_status) opened);
    segregated = apart;
    is_after = find-save_line id id line row db refl found ∙ rw (eq_test_self id) refl;
    decision = (refl, refl);
    others = λ j ne. find-save_line id j line row db refl found ∙ rw ne refl;
  }

-- A bank line review that returns found the line pending and unreconciled, was not made by its
-- importer, stores the verdict and the reviewer, and leaves every other line alone.
pub review_bank_statement_line-IsReviewed :
    (id user : ℕ) (verdict : BankReview) (now : ℕ) (db : Db)
    → Ensures (IsReviewed id user verdict db) (review_bank_statement_line id user verdict now db)
unfolding review_bank_statement_line review_lem row
review_bank_statement_line-IsReviewed id user verdict now db =
    Ensures-or_raise (IsReviewed id user verdict db) (find_line id db) not_found _ (λ line found.
      Ensures-raise_if (IsReviewed id user verdict db) _ unprocessable _ (λ live.
        Ensures-raise_if (IsReviewed id user verdict db) _ unprocessable _ (λ opened.
          Ensures-raise_if (IsReviewed id user verdict db) _ forbidden _
            (λ apart. review_lem id user now verdict db line found live opened apart))))

decided_is_refused :
    (id user : ℕ) (verdict : BankReview) (now : ℕ) (db : Db) (line : BankStatementLine)
    → find_line id db ≡ some line
    → is_pending line.review_status ≡ false
    → review_bank_statement_line id user verdict now db ≡ err unprocessable
unfolding review_bank_statement_line
decided_is_refused id user verdict now db line found closed = elim (Bool-cases line.is_reconciled) [
  | inl h ↦ rw (found, h) refl
  | inr h ↦ rw (found, h, closed) refl
]

-- After a review that returns with a verdict other than pending, any further review of the line
-- is refused as unprocessable.
review_bank_statement_line-once :
    (id user later : ℕ) (first second : BankReview) (now after : ℕ) (db : Db)
    → is_pending first ≡ false
    → Ensures
        (λ r. review_bank_statement_line id later second after r.1 ≡ err unprocessable)
        (review_bank_statement_line id user first now db)
review_bank_statement_line-once id user later first second now after db d =
    Ensures-map (IsReviewed id user first db) _ (review_bank_statement_line id user first now db)
      (λ r q.
        decided_is_refused id later second after r.1 r.0 q.is_after
          (ap is_pending q.decision.0 ∙ d))
      (review_bank_statement_line-IsReviewed id user first now db)
