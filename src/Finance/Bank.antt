-- ===== src/Finance/Bank.antt =====
-- Bank statement lines: `import_bank_statement_lines`, `_review_bank_statement_line` and its two
-- callers in backend/src/domains/finance/service.py. The uuids of the rows that one import creates
-- are `fresh 0`, `fresh 1`, …
pub mod Import
pub mod References
pub mod Review
use text.Mathlib.Text.{◌==◌ as str_eq}
use finguard.Base.{
  ℕ, ◌+◌, ◌==◌, Bool, true, false, not, ◌||◌, Option, none, some, List, [], ◌∷◌, ◌++◌, String,
  length, if◌then◌else◌, map,
}
use finguard.Base.Int.{ℤ, sum_by}
use finguard.Base.Table.{find_row, save_row}
use finguard.Core.Errors.{Result, ok, err, ◌>>=◌, ◌>>◌, raise_if, or_raise}
use finguard.Core.Errors.AppError.{not_found, unprocessable, forbidden}
use finguard.Finance.Rows.{
  BankStatementLine, BankReview, pending, approved, rejected, OutboxPayload, OutboxEvent,
}
use finguard.Finance.Db.{Db, add_outbox}

-- `BankStatementLineImport`
pub record BankStatementLineImport : Type 0 where
  pub amount : ℤ
  pub date : ℕ
  pub reference_text : Option String
  pub external_ref : String

-- `ref in refs`
unfoldable pub mem_ref : String → List String → Bool
mem_ref r [] = false
mem_ref r (s ∷ ss) = str_eq s r || mem_ref r ss

abbrev pub refs_of : List BankStatementLine → List String
refs_of [] = []
refs_of (l ∷ ls) = l.external_ref ∷ refs_of ls

abbrev pub import_refs : List BankStatementLineImport → List String
import_refs [] = []
import_refs (l ∷ ls) = l.external_ref ∷ import_refs ls

-- `existing_external_refs`: those of `refs` that are in the table.
unfoldable pub existing_external_refs : List String → List BankStatementLine → List String
unfolding mem_ref
existing_external_refs refs [] = []
existing_external_refs refs (l ∷ ls) =
    let rest = existing_external_refs refs ls in
    if mem_ref l.external_ref refs then l.external_ref ∷ rest else rest

abbrev pub line_row : BankStatementLineImport → Option ℕ → ℕ → BankStatementLine
line_row line imported_by id = record {
  id = id;
  amount = line.amount;
  date = line.date;
  reference_text = line.reference_text;
  external_ref = line.external_ref;
  imported_by = imported_by;
  review_status = pending;
  approved_by = none;
  approved_at = none;
  is_reconciled = false;
}

-- The loop of the import; `seen` is `seen_in_request`.
unfoldable pub new_rows :
    Option ℕ
    → (ℕ → ℕ)
    → List String
    → List BankStatementLineImport
    → List String
    → ℕ
    → List BankStatementLine
unfolding mem_ref
new_rows imported_by fresh already_persisted [] seen n = []
new_rows imported_by fresh already_persisted (line ∷ lines) seen n =
    let skip = new_rows imported_by fresh already_persisted lines seen n in
    let keep =
      new_rows imported_by fresh already_persisted lines (line.external_ref ∷ seen) (n + 1) in
    if mem_ref line.external_ref already_persisted || mem_ref line.external_ref seen
    then skip
    else line_row line imported_by (fresh n) ∷ keep

abbrev pub imported_event : Option ℕ → List BankStatementLine → OutboxEvent
imported_event imported_by rows = record {
  exchange = "finguard.events";
  routing_key = "finance.bank_statement.imported";
  payload =
      OutboxPayload.bank_statement_imported imported_by (length rows) (refs_of rows)
        (sum_by (λ (l : BankStatementLine). l.amount) rows);
}

-- What follows the loop.
unfoldable pub store_rows : Option ℕ → List BankStatementLine → Db → List BankStatementLine × Db
store_rows imported_by [] db = ([], db)
store_rows imported_by (r ∷ rs) db = (
  r ∷ rs,
  add_outbox (imported_event imported_by (r ∷ rs))
      (record db { bank_lines = db.bank_lines ++ r ∷ rs }),
)

unfoldable pub import_bank_statement_lines :
    List BankStatementLineImport → Option ℕ → (ℕ → ℕ) → Db → List BankStatementLine × Db
unfolding existing_external_refs new_rows store_rows
import_bank_statement_lines lines imported_by fresh db =
    let already_persisted = existing_external_refs (import_refs lines) db.bank_lines in
    store_rows imported_by (new_rows imported_by fresh already_persisted lines [] 0) db

abbrev pub find_line : ℕ → Db → Option BankStatementLine
find_line i db = find_row (λ (l : BankStatementLine). l.id) i db.bank_lines

abbrev pub save_line : BankStatementLine → Db → Db
save_line line db = record db {
  bank_lines = save_row (λ (l : BankStatementLine). l.id) line db.bank_lines;
}

abbrev pub is_pending : BankReview → Bool
is_pending pending = true
is_pending status = false

-- `line.imported_by is not None and line.imported_by == current_user.id`
abbrev pub is_importer : Option ℕ → ℕ → Bool
is_importer none user = false
is_importer (some importer) user = importer == user

abbrev pub decided : BankReview → ℕ → ℕ → BankStatementLine → BankStatementLine
decided decision user now line = record line {
  review_status = decision;
  approved_by = some user;
  approved_at = some now;
}

-- `_review_bank_statement_line`
unfoldable pub review_bank_statement_line :
    ℕ → ℕ → BankReview → ℕ → Db → Result (BankStatementLine × Db)
review_bank_statement_line line_id user decision now db = do
  line ← or_raise (find_line line_id db) not_found
  raise_if line.is_reconciled unprocessable
  raise_if (not (is_pending line.review_status)) unprocessable
  raise_if (is_importer line.imported_by user) forbidden
  let row = decided decision user now line
  ok (row, save_line row db)

unfoldable pub approve_bank_statement_line : ℕ → ℕ → ℕ → Db → Result (BankStatementLine × Db)
unfolding review_bank_statement_line
approve_bank_statement_line line_id user now db =
    review_bank_statement_line line_id user approved now db

unfoldable pub reject_bank_statement_line : ℕ → ℕ → ℕ → Db → Result (BankStatementLine × Db)
unfolding review_bank_statement_line
reject_bank_statement_line line_id user now db =
    review_bank_statement_line line_id user rejected now db
