-- ===== src/Inventory/LowStock.antt =====
-- The calls of backend/src/domains/inventory/service.py that follow the commit of a movement: the
-- low-stock alert is raised, escalated or resolved. The text of an id is the argument `str`; the
-- display texts of an alert are cut short.
pub mod Signals
pub mod Alerting
pub mod Fresh
pub mod Calls
use Prim.Native.String.{◌++◌ as concat}
use finguard.Base.{
  ℕ, Bool, true, false, ◌&&◌, Option, none, some, List, [], ◌∷◌, String, if◌then◌else◌,
}
use finguard.Base.Int.{ℤ, pos, leb_ℤ, ltb_ℤ}
use finguard.Core.Errors.{Result, ok, err, ◌>>=◌, or_raise}
use finguard.Core.Errors.AppError.{not_found}
use finguard.Alerts.{
  Alert, AlertCreate, AlertType, AlertSeverity, escalate_or_create_alert, resolve_active_by_dedup,
}
use finguard.Inventory.Rows.{
  Product, StockLevel, StockMovement, Warehouse, find_product, find_level,
}
use finguard.Inventory.Movements.{
  LowStockSignal, Applied, InventoryMovementCreate, record_movement, StockAdjustmentCreate,
  adjust_stock,
}

-- The stock and the alerts.
pub record Shop : Type 0 where
  pub warehouse : Warehouse
  pub alerts : List Alert

-- `f"low_stock:{product_id}"`
unfoldable pub low_stock_key : (ℕ → String) → ℕ → String
low_stock_key str product_id = concat "low_stock:" (str product_id)

-- The alert of a signal.
unfoldable pub low_stock_alert : (ℕ → String) → LowStockSignal → AlertCreate
low_stock_alert str signal =
    let stockout = leb_ℤ signal.on_hand (pos 0) in
    record {
      alert_type = AlertType.low_stock;
      severity = if stockout then AlertSeverity.critical else AlertSeverity.warning;
      title = concat (if stockout then "Out of stock: " else "Low stock: ") signal.sku;
      body = "";
      source_agent = "inventory";
      metadata_payload =
          ("kind", "low_stock") ∷ ("product_id", str signal.product_id) ∷ ("sku", signal.sku) ∷ [];
    }

-- `_maybe_raise_low_stock`
unfoldable pub maybe_raise_low_stock :
    (ℕ → String) → Option LowStockSignal → ℕ → List Alert → List Alert
unfolding escalate_or_create_alert low_stock_alert low_stock_key
maybe_raise_low_stock str none id alerts = alerts
maybe_raise_low_stock str (some signal) id alerts =
    (escalate_or_create_alert (low_stock_alert str signal) (low_stock_key str signal.product_id) id
      alerts).1

-- `_maybe_resolve_low_stock`
unfoldable pub maybe_resolve_low_stock : (ℕ → String) → Option ℕ → ℕ → List Alert → List Alert
unfolding resolve_active_by_dedup low_stock_key
maybe_resolve_low_stock str none now alerts = alerts
maybe_resolve_low_stock str (some product_id) now alerts =
    (resolve_active_by_dedup (low_stock_key str product_id)
      (some "Auto-resolved: stock replenished above reorder level.") now alerts).1

-- `product.reorder_level > 0 and level.quantity_on_hand > product.reorder_level`
abbrev pub is_replenished : Product → Option StockLevel → Bool
is_replenished product none = false
is_replenished product (some level) =
    ltb_ℤ (pos 0) product.reorder_level && ltb_ℤ product.reorder_level level.quantity_on_hand

unfoldable pub reconcile_low_stock_alert : (ℕ → String) → ℕ → ℕ → Shop → Result Shop
unfolding maybe_resolve_low_stock
reconcile_low_stock_alert str product_id now shop = do
  product ← or_raise (find_product product_id shop.warehouse) not_found
  ok (
      if is_replenished product (find_level product_id shop.warehouse.levels)
      then record shop { alerts = maybe_resolve_low_stock str (some product_id) now shop.alerts }
      else shop)

-- What follows the commit of a movement.
unfoldable pub after_commit :
    (ℕ → String) → ℕ → ℕ → List Alert → Applied × Warehouse → StockMovement × Shop
unfolding maybe_raise_low_stock maybe_resolve_low_stock
after_commit str id now alerts r = (
  r.0.movement,
  record {
    warehouse = r.1;
    alerts =
        maybe_resolve_low_stock str r.0.recovered now
          (maybe_raise_low_stock str r.0.signal id alerts);
  },
)

-- `record_movement`, to its end.
unfoldable pub run_movement :
    (ℕ → String)
    → ℕ
    → InventoryMovementCreate
    → Option ℕ
    → ℕ
    → ℕ
    → Shop
    → Result (StockMovement × Shop)
unfolding record_movement after_commit
run_movement str product_id body actor_id id now shop = do
  r ← record_movement product_id body actor_id now shop.warehouse
  ok (after_commit str id now shop.alerts r)

-- `adjust_stock`, to its end.
unfoldable pub run_adjustment :
    (ℕ → String)
    → ℕ
    → StockAdjustmentCreate
    → Option ℕ
    → ℕ
    → ℕ
    → Shop
    → Result (StockMovement × Shop)
unfolding adjust_stock after_commit
run_adjustment str product_id body actor_id id now shop = do
  r ← adjust_stock product_id body actor_id now shop.warehouse
  ok (after_commit str id now shop.alerts r)
