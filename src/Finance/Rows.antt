-- ===== src/Finance/Rows.antt =====
-- The rows of the finance tables: backend/src/domains/finance/models.py. A uuid and a timestamp are
-- numbers, a `Decimal` is a number of cents. The display texts of a row that no code reads are left
-- out.
use finguard.Base.{ℕ, ◌==◌, Bool, Option, String, List, ◌≡◌, true, arith}
use finguard.Base.Int.{ℤ}
use finguard.Finance.Types.{VaultType, InvoiceStatus}
use finguard.Finance.Fold.Snapshot.{SnapshotState}

pub record Invoice : Type 0 where
  pub id : ℕ
  pub customer_id : ℕ
  pub invoice_number : String
  pub status : InvoiceStatus
  pub subtotal : ℤ
  pub tax : ℤ
  pub total : ℤ
  pub amount_paid : ℤ
  pub amount_credited : ℤ
  pub balance_due : ℤ
  pub currency : String
  pub due_date : Option ℕ
  pub paid_at : Option ℕ
  pub notes : Option String
  pub created_at : ℕ

pub record InvoiceSnapshot : Type 0 where
  pub invoice_id : ℕ
  pub sequence : ℕ
  pub state : SnapshotState

pub record Payment : Type 0 where
  pub id : ℕ
  pub invoice_id : ℕ
  pub amount : ℤ
  pub vault : VaultType
  pub reference_note : Option String
  pub payment_date : ℕ
  pub recorded_by : Option ℕ
  pub mpesa_trans_id : Option ℕ
  pub bank_line_id : Option ℕ

-- `ExpenseApprovalStatus`
pub data ExpenseApprovalStatus : Type 0 where
  draft pending_review approved scheduled rejected : ExpenseApprovalStatus

abbrev approval_index : ExpenseApprovalStatus → ℕ
approval_index ExpenseApprovalStatus.draft = 0
approval_index ExpenseApprovalStatus.pending_review = 1
approval_index ExpenseApprovalStatus.approved = 2
approval_index ExpenseApprovalStatus.scheduled = 3
approval_index ExpenseApprovalStatus.rejected = 4

abbrev pub same_approval : ExpenseApprovalStatus → ExpenseApprovalStatus → Bool
same_approval a b = approval_index a == approval_index b

pub same_approval-eq : (a b : ExpenseApprovalStatus) → same_approval a b ≡ true → a ≡ b
same_approval-eq a b h = ground arith

pub record Expense : Type 0 where
  pub id : ℕ
  pub expense_ref : Option String
  pub customer_id : Option ℕ
  pub category : String
  pub amount : ℤ
  pub vault : VaultType
  pub mpesa_trans_id : Option ℕ
  pub invoice_id : Option ℕ
  pub approval_status : ExpenseApprovalStatus
  pub submitted_by : Option ℕ
  pub reviewed_by : Option ℕ
  pub reviewed_at : Option ℕ
  pub scheduled_for : Option ℕ
  pub merchant_name : Option String
  pub kra_pin : Option String
  pub description : Option String
  pub receipt_date : Option ℕ
  pub created_at : ℕ

pub record Budget : Type 0 where
  pub id : ℕ
  pub name : String
  pub category : String
  pub amount : ℤ
  pub spent : ℤ
  pub period_start : ℕ
  pub period_end : ℕ

pub record MpesaTransaction : Type 0 where
  pub id : ℕ
  pub trans_id : String
  pub amount : ℤ
  pub phone : String
  pub bill_ref : Option String
  pub vault : VaultType
  pub is_reconciled : Bool
  pub created_at : ℕ

-- `BANK_REVIEW_PENDING`, `BANK_REVIEW_APPROVED`, `BANK_REVIEW_REJECTED`
pub data BankReview : Type 0 where
  pending approved rejected : BankReview

pub record BankStatementLine : Type 0 where
  pub id : ℕ
  pub amount : ℤ
  pub date : ℕ
  pub reference_text : Option String
  pub external_ref : String
  pub imported_by : Option ℕ
  pub review_status : BankReview
  pub approved_by : Option ℕ
  pub approved_at : Option ℕ
  pub is_reconciled : Bool

pub record VaultTransfer : Type 0 where
  pub id : ℕ
  pub from_vault : VaultType
  pub to_vault : VaultType
  pub amount : ℤ
  pub fee : ℤ
  pub occurred_at : ℕ
  pub recorded_by : Option ℕ
  pub fee_expense_id : Option ℕ

-- The `payload` of an outbox event, one constructor for each call that writes one.
pub data OutboxPayload : Type 0 where
  invoice_created : ℕ → ℕ → OutboxPayload
  payment_recorded : ℕ → ℕ → ℤ → VaultType → Option ℕ → ℤ → OutboxPayload
  expense_created : ℕ → ℤ → String → VaultType → ℕ → String → OutboxPayload
  bank_statement_imported : Option ℕ → ℕ → List String → ℤ → OutboxPayload
  mpesa_reconciled : String → ℤ → String → Option String → VaultType → OutboxPayload
  vault_transfer_recorded : ℕ → VaultType → VaultType → ℤ → ℤ → ℕ → OutboxPayload

pub record OutboxEvent : Type 0 where
  pub exchange : String
  pub routing_key : String
  pub payload : OutboxPayload

-- The columns of `customers` and `users` that the services read.
pub record Customer : Type 0 where
  pub id : ℕ
  pub name : String
  pub email : Option String
