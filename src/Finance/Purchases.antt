-- ===== src/Finance/Purchases.antt =====
-- `create_stock_purchase` of backend/src/domains/finance/service.py: an expense and the receipt of
-- what it bought, in one commit, and then the low-stock alert. The database and the tables of the
-- inventory are one database in the code.
pub mod Received
pub mod Runs
mod Tests
use finguard.Base.{ℕ, Option, String}
use finguard.Base.Int.{ℤ}
use finguard.Core.Errors.{Result, ok, err, ◌>>=◌}
use finguard.Finance.Rows.{Expense}
use finguard.Finance.Db.{Db}
use finguard.Finance.Expenses.{
  ExpenseCreate, expense_row, append_expense, apply_expense_side_effects,
}
use finguard.Inventory.Rows.{StockMovement, Warehouse}
use finguard.Inventory.Movements.{Applied, record_purchase_receipt}
use finguard.Inventory.LowStock.{Shop, reconcile_low_stock_alert}

pub record Store : Type 0 where
  pub db : Db
  pub shop : Shop

-- `StockPurchaseCreate`; the schema holds `quantity` and `unit_cost` above zero.
pub record StockPurchaseCreate : Type 0 where
  pub expense : ExpenseCreate
  pub product_id : ℕ
  pub quantity : ℤ
  pub unit_cost : ℤ

abbrev pub purchase_made :
    Expense → Db → Shop → Applied × Warehouse → (Expense × StockMovement) × Store
purchase_made expense db shop r =
    ((expense, r.0.movement), record { db = db; shop = record shop { warehouse = r.1 } })

-- The expense, as `create_expense` books it.
unfoldable pub purchase_booked : StockPurchaseCreate → ℕ → ℕ → Db → Expense × Db
unfolding apply_expense_side_effects
purchase_booked body id now db =
    let expense = expense_row body.expense id now in
    (
      expense,
      apply_expense_side_effects expense "inventory.purchase" now (append_expense expense db),
    )

-- What is committed.
unfoldable pub purchase_writes :
    StockPurchaseCreate → ℕ → Option ℕ → ℕ → Store → Result ((Expense × StockMovement) × Store)
unfolding purchase_booked record_purchase_receipt
purchase_writes body id actor_id now store = do
  let booked = purchase_booked body id now store.db
  r ←
      record_purchase_receipt body.product_id body.quantity body.unit_cost booked.0.id actor_id now
        store.shop.warehouse
  ok (purchase_made booked.0 booked.1 store.shop r)

-- The end of the call; what is committed stays.
abbrev pub reconciled :
    Expense × StockMovement → Store → Result Shop → Result (Expense × StockMovement) × Store
reconciled made store (err e) = (err e, store)
reconciled made store (ok shop) = (ok made, record store { shop = shop })

abbrev pub after_purchase :
    (ℕ → String)
    → ℕ
    → ℕ
    → Store
    → Result ((Expense × StockMovement) × Store)
    → Result (Expense × StockMovement) × Store
after_purchase str product_id now store (err e) = (err e, store)
after_purchase str product_id now store (ok r) =
    reconciled r.0 r.1 (reconcile_low_stock_alert str product_id now r.1.shop)

unfoldable pub create_stock_purchase :
    (ℕ → String)
    → StockPurchaseCreate
    → ℕ
    → Option ℕ
    → ℕ
    → Store
    → Result (Expense × StockMovement) × Store
unfolding purchase_writes reconcile_low_stock_alert
create_stock_purchase str body id actor_id now store =
    after_purchase str body.product_id now store (purchase_writes body id actor_id now store)
