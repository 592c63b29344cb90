-- ===== src/Finance/Vaults.antt =====
-- Vault transfers and balances: `create_vault_transfer` and `get_vault_balances` of
-- backend/src/domains/finance/service.py, with the aggregate queries of repository.py. The amounts
-- are whole cents, so the `quantize` of a balance is the identity.
pub mod Balances
use finguard.Base.{
  ℕ, ◌==◌, Bool, ◌||◌, Option, none, some, List, [], ◌∷◌, ◌++◌, String, if◌then◌else◌,
}
use finguard.Base.Int.{ℤ, pos, ◌+ℤ◌, ◌-ℤ◌, ltb_ℤ, sum_by}
use finguard.Base.Table.{select}
use finguard.Core.Errors.{Result, ok, err, ◌>>=◌, ◌>>◌, raise_if}
use finguard.Core.Errors.AppError.{unprocessable}
use finguard.Finance.Types.{VaultType, mpesa, cash, bank, same_vault}
use finguard.Finance.Rows.{
  Payment, Expense, ExpenseApprovalStatus, same_approval, VaultTransfer, OutboxPayload, OutboxEvent,
}
use finguard.Finance.Db.{Db, add_outbox}

-- `PaymentRepository.totals_by_vault`
unfoldable pub payments_in : VaultType → Db → ℤ
payments_in vault db =
    sum_by (λ (p : Payment). p.amount)
      (select (λ (p : Payment). same_vault p.vault vault) db.payments)

-- `approval_status IN (APPROVED, SCHEDULED)`
abbrev pub is_signed_off : Expense → Bool
is_signed_off e =
    same_approval e.approval_status ExpenseApprovalStatus.approved
    || same_approval e.approval_status ExpenseApprovalStatus.scheduled

-- `ExpenseRepository.totals_by_vault`
unfoldable pub expenses_out : VaultType → Db → ℤ
expenses_out vault db =
    sum_by (λ (e : Expense). e.amount)
      (select (λ (e : Expense). same_vault e.vault vault) (select is_signed_off db.expenses))

-- `VaultTransferRepository.in_totals_by_vault`
unfoldable pub transfers_in : VaultType → Db → ℤ
transfers_in vault db =
    sum_by (λ (t : VaultTransfer). t.amount)
      (select (λ (t : VaultTransfer). same_vault t.to_vault vault) db.transfers)

-- `VaultTransferRepository.out_totals_by_vault`
unfoldable pub transfers_out : VaultType → Db → ℤ
transfers_out vault db =
    sum_by (λ (t : VaultTransfer). t.amount)
      (select (λ (t : VaultTransfer). same_vault t.from_vault vault) db.transfers)

-- The `balance` of the loop in `get_vault_balances`.
unfoldable pub balance_of : VaultType → Db → ℤ
balance_of vault db =
    payments_in vault db +ℤ transfers_in vault db -ℤ expenses_out vault db -ℤ transfers_out vault db

pub record VaultBalance : Type 0 where
  pub vault : VaultType
  pub balance : ℤ

pub record VaultBalances : Type 0 where
  pub balances : List VaultBalance
  pub total : ℤ

-- The body of the loop.
unfoldable pub add_balance : Db → VaultBalances → VaultType → VaultBalances
add_balance db acc vault =
    let balance = balance_of vault db in
    record {
      balances = acc.balances ++ record { vault = vault; balance = balance } ∷ [];
      total = acc.total +ℤ balance;
    }

-- `get_vault_balances`
unfoldable pub get_vault_balances : Db → VaultBalances
unfolding add_balance
get_vault_balances db =
    let empty : VaultBalances = record { balances = []; total = pos 0 } in
    add_balance db (add_balance db (add_balance db empty mpesa) cash) bank

-- `next((b.balance for b in balances if b.vault == vault), Decimal("0"))`
unfoldable pub balance_in : VaultType → List VaultBalance → ℤ
balance_in vault [] = pos 0
balance_in vault (b ∷ bs) = if same_vault b.vault vault then b.balance else balance_in vault bs

-- `VaultTransferCreate`; the schema holds `amount` above zero, `fee` at zero or above, and the two
-- vaults apart.
pub record VaultTransferCreate : Type 0 where
  pub from_vault : VaultType
  pub to_vault : VaultType
  pub amount : ℤ
  pub fee : ℤ
  pub occurred_at : ℕ

abbrev pub transfer_row : VaultTransferCreate → ℕ → ℕ → Option ℕ → VaultTransfer
transfer_row body user id fee_expense_id = record {
  id = id;
  from_vault = body.from_vault;
  to_vault = body.to_vault;
  amount = body.amount;
  fee = body.fee;
  occurred_at = body.occurred_at;
  recorded_by = some user;
  fee_expense_id = fee_expense_id;
}

-- The expense of the fee, signed off as it is created.
abbrev pub fee_expense : VaultTransferCreate → ℕ → ℕ → Expense
fee_expense body id now = record {
  id = id;
  expense_ref = none;
  customer_id = none;
  category = "Transfer fee";
  amount = body.fee;
  vault = body.from_vault;
  mpesa_trans_id = none;
  invoice_id = none;
  approval_status = ExpenseApprovalStatus.approved;
  submitted_by = none;
  reviewed_by = none;
  reviewed_at = none;
  scheduled_for = none;
  merchant_name = none;
  kra_pin = none;
  description = none;
  receipt_date = none;
  created_at = now;
}

-- `if data.fee > 0`: the expense, linked from the transfer.
unfoldable pub store_transfer : VaultTransferCreate → ℕ → ℕ → ℕ → ℕ → Db → VaultTransfer × Db
store_transfer body user id fee_id now db =
    let linked = transfer_row body user id (some fee_id) in
    let bare = transfer_row body user id none in
    if ltb_ℤ (pos 0) body.fee
    then (
      linked,
      record db {
        transfers = db.transfers ++ linked ∷ [];
        expenses = db.expenses ++ fee_expense body fee_id now ∷ [];
      },
    )
    else (bare, record db { transfers = db.transfers ++ bare ∷ [] })

abbrev pub transfer_event : VaultTransferCreate → ℕ → ℕ → OutboxEvent
transfer_event body user id = record {
  exchange = "finguard.events";
  routing_key = "finance.vault_transfer.recorded";
  payload =
      OutboxPayload.vault_transfer_recorded id body.from_vault body.to_vault body.amount body.fee
        user;
}

unfoldable pub create_vault_transfer :
    VaultTransferCreate → ℕ → ℕ → ℕ → ℕ → Db → Result (VaultTransfer × Db)
unfolding store_transfer get_vault_balances balance_in
create_vault_transfer body user id fee_id now db = do
  let from_balance = balance_in body.from_vault (get_vault_balances db).balances
  raise_if (ltb_ℤ from_balance (body.amount +ℤ body.fee)) unprocessable
  let stored = store_transfer body user id fee_id now db
  ok (stored.0, add_outbox (transfer_event body user id) stored.1)
