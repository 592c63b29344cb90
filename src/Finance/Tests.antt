-- ===== src/Finance/Tests.antt =====
-- The properties of expenses, vaults and bank statements, each at a small run of the service.
use finguard.Base.{ℕ, ◌≡◌, refl, none, some, List, [], ◌∷◌, arith, String, Option, true}
use finguard.Base.Int.{pos, ◌+ℤ◌, ◌-ℤ◌, ◌≤ℤ◌}
use finguard.Base.Table.{find_row, select}
use finguard.Core.Errors.{ok, Ensures, Returns}
use finguard.Finance.Types.{mpesa, cash, bank}
use finguard.Finance.Rows.{Payment, approved, BankReview, MpesaTransaction}
use finguard.Finance.Db.{Db}
use finguard.Finance.Expenses.{ExpenseCreate, create_expense, find_expense}
use finguard.Finance.Expenses.Payables.{PayableCreate, create_payable, transition_payable}
use finguard.Finance.Expenses.Workflow.{IsMoved, transition_payable-IsMoved}
use finguard.Finance.Expenses.Booked.{IsBooked}
use finguard.Finance.Expenses.Booked.Runs.{ExpenseStep, ExpenseReach, ExpenseReach-IsBooked}
use finguard.Finance.Vaults.{
  VaultTransferCreate, create_vault_transfer, balance_of, payments_in, expenses_out, transfers_in,
  transfers_out,
}
use finguard.Finance.Vaults.Balances.{IsTransferred, create_vault_transfer-IsTransferred}
use finguard.Finance.Mpesa.{
  DecimalValue, ItemValue, MpesaStkCallback, process_mpesa_callback, mpesa_callback,
}
use finguard.Finance.Mpesa.Recorded.{
  IsRecorded, process_mpesa_callback-IsRecorded, process_mpesa_callback-twice,
}
use finguard.Finance.Mpesa.Acked.{IsAnswered, Uncaught, mpesa_callback-IsAcked}
use finguard.Finance.Bank.{
  BankStatementLineImport, import_bank_statement_lines, review_bank_statement_line, refs_of,
}
use finguard.Finance.Bank.Import.{
  import_bank_statement_lines-twice, import_bank_statement_lines-IsUnique, IsUnique, imported,
}
use finguard.Finance.Bank.Review.{IsReviewed, review_bank_statement_line-IsReviewed}

abbrev receipt : Payment
receipt = record {
  id = 1;
  invoice_id = 1;
  amount = pos 5000;
  vault = mpesa;
  reference_note = none;
  payment_date = 10;
  recorded_by = some 9;
  mpesa_trans_id = none;
  bank_line_id = none;
}

abbrev small : Db
small = record {
  invoices = [];
  events = [];
  snapshots = [];
  payments = receipt ∷ [];
  expenses = [];
  budgets = [];
  mpesa = [];
  bank_lines = [];
  transfers = [];
  customers = [];
  users = [];
  outbox = [];
  mail = record { outbox = []; opt_outs = [] };
}

abbrev bill : PayableCreate
bill = record {
  category = "rent";
  amount = pos 900;
  vault = mpesa;
  description = none;
  merchant_name = some "Landlord";
  expense_ref = none;
  customer_id = none;
}

abbrev billed : Db
billed = (create_payable bill 3 40 100 small).1

transition_payable-IsMoved_example :
    Ensures (IsMoved 40 5 120 approved billed) (transition_payable 40 5 approved none 120 billed)
transition_payable-IsMoved_example = transition_payable-IsMoved 40 5 approved none 120 billed

abbrev spent : ExpenseCreate
spent = record {
  expense_ref = none;
  customer_id = none;
  category = "fuel";
  amount = pos 300;
  vault = cash;
  mpesa_trans_id = none;
  invoice_id = none;
}

small-IsBooked : IsBooked small
unfolding find_row select
small-IsBooked = λ i. refl

no_expense : find_expense 40 small ≡ none
unfolding find_row
no_expense = refl

expense_run : ExpenseReach small (create_expense spent 40 100 small).1
expense_run =
    ExpenseReach.next (ExpenseReach.start small) (ExpenseStep.created spent 40 100 small no_expense)

ExpenseReach-IsBooked_example : IsBooked (create_expense spent 40 100 small).1
ExpenseReach-IsBooked_example = ExpenseReach-IsBooked expense_run small-IsBooked

abbrev move : VaultTransferCreate
move = record {
  from_vault = mpesa;
  to_vault = bank;
  amount = pos 4000;
  fee = pos 50;
  occurred_at = 30;
}

covered : move.amount +ℤ move.fee ≤ℤ balance_of mpesa small
unfolding balance_of payments_in expenses_out transfers_in transfers_out select ◌+ℤ◌ ◌-ℤ◌
covered = omega arith

create_vault_transfer-IsTransferred_example :
    Returns (λ r. IsTransferred move small r.1) (create_vault_transfer move 9 60 61 31 small)
create_vault_transfer-IsTransferred_example =
    create_vault_transfer-IsTransferred move 9 60 61 31 small (omega arith) refl covered

abbrev credit_line : BankStatementLineImport
credit_line = record {
  amount = pos 700;
  date = 20;
  reference_text = some "INV-1";
  external_ref = "B-1";
}

-- The second line repeats the reference of the first.
abbrev statement : List BankStatementLineImport
statement = credit_line ∷ record credit_line { amount = pos 800 } ∷ []

abbrev fresh : ℕ → ℕ
fresh n = n

import_bank_statement_lines-twice_example :
    import_bank_statement_lines statement (some 3) fresh (imported statement (some 3) fresh small)
    ≡ ([], imported statement (some 3) fresh small)
import_bank_statement_lines-twice_example =
    import_bank_statement_lines-twice statement (some 3) fresh small fresh

import_bank_statement_lines-IsUnique_example :
    IsUnique (refs_of (import_bank_statement_lines statement (some 3) fresh small).1.bank_lines)
import_bank_statement_lines-IsUnique_example =
    import_bank_statement_lines-IsUnique statement (some 3) fresh small tt

abbrev with_lines : Db
with_lines = imported statement (some 3) fresh small

review_bank_statement_line-IsReviewed_example :
    Ensures
      (IsReviewed 0 5 BankReview.approved with_lines)
      (review_bank_statement_line 0 5 BankReview.approved 40 with_lines)
review_bank_statement_line-IsReviewed_example =
    review_bank_statement_line-IsReviewed 0 5 BankReview.approved 40 with_lines

-- A callback of 50.00 shillings.
abbrev paid_callback : MpesaStkCallback
paid_callback = record {
  checkout_request_id = "ws_CO_1";
  result_code = pos 0;
  items =
      ("Amount", some (ItemValue.number (DecimalValue.finite true (pos 5000)) true "50.0"))
      ∷ ("MpesaReceiptNumber", some (ItemValue.string "QKJ41"))
      ∷ (
        "PhoneNumber",
        some (ItemValue.number (DecimalValue.finite true (pos 25470000)) true "254700"),
      )
      ∷ [];
}

-- No text is a number.
abbrev no_number : String → Option DecimalValue
no_number s = none

process_mpesa_callback-IsRecorded_example :
    Ensures (IsRecorded small) (process_mpesa_callback no_number (some paid_callback) 7 10 small)
process_mpesa_callback-IsRecorded_example =
    process_mpesa_callback-IsRecorded no_number (some paid_callback) 7 10 small

process_mpesa_callback-twice_example :
    Ensures
      (λ (r : Option MpesaTransaction × Db).
        (id now : ℕ) → process_mpesa_callback no_number (some paid_callback) id now r.1 ≡ ok r)
      (process_mpesa_callback no_number (some paid_callback) 7 10 small)
process_mpesa_callback-twice_example =
    process_mpesa_callback-twice no_number (some paid_callback) 7 10 small

mpesa_callback-IsAcked_example :
    IsAnswered
      (Uncaught no_number small (some paid_callback))
      small
      (process_mpesa_callback no_number (some paid_callback) 7 10 small)
      (mpesa_callback no_number (some paid_callback) 7 10 small)
mpesa_callback-IsAcked_example = mpesa_callback-IsAcked no_number (some paid_callback) 7 10 small
