-- ===== src/Finance/Purchases/Runs.antt =====
-- Runs of the calls on stock, alerts and purchases keep the alerts with the stock.
use mathlib.Core.Path.{subst}
use finguard.Base.{ℕ, ◌≡◌, ◌≤◌, refl, sym, Option, some, String, List, arith}
use finguard.Base.Table.{find_row}
use finguard.Core.Errors.{Result, ok, err, Ensures, Ensures-or_raise}
use finguard.Core.Errors.AppError.{not_found}
use finguard.Alerts.{Alert, resolve_alert, resolved}
use finguard.Alerts.Single.{count_active, save_row-count}
use finguard.Finance.Rows.{Expense}
use finguard.Finance.Purchases.{Store, StockPurchaseCreate, create_stock_purchase}
use finguard.Finance.Purchases.Received.{IsPurchased, Outcome, create_stock_purchase-IsPurchased}
use finguard.Inventory.Rows.{StockMovement}
use finguard.Inventory.Movements.{
  InventoryMovementCreate, requested, StockAdjustmentCreate, adjusted,
}
use finguard.Inventory.LowStock.{Shop, low_stock_key, run_movement, run_adjustment}
use finguard.Inventory.LowStock.Alerting.{low_stock_alerts}
use finguard.Inventory.LowStock.Fresh.{IsFresh, IsWatched}
use finguard.Inventory.LowStock.Calls.{run_movement-IsWatched, run_adjustment-IsWatched}

-- The calls: a purchase with any outcome, the others when they return.
pub data StoreStep (str : ℕ → String) : Store → Store → Type 0 where
  moved :
      (i : ℕ) (body : InventoryMovementCreate) (actor : Option ℕ) (id now : ℕ) (store : Store)
      (r : StockMovement × Shop)
      → run_movement str i body actor id now store.shop ≡ ok r
      → StoreStep str store (record store { shop = r.1 })
  adjusted_by :
      (i : ℕ) (body : StockAdjustmentCreate) (actor : Option ℕ) (id now : ℕ) (store : Store)
      (r : StockMovement × Shop)
      → run_adjustment str i body actor id now store.shop ≡ ok r
      → StoreStep str store (record store { shop = r.1 })
  bought :
      (body : StockPurchaseCreate) (id : ℕ) (actor : Option ℕ) (now : ℕ) (store : Store)
      → StoreStep str store (create_stock_purchase str body id actor now store).1
  closed :
      (id user : ℕ) (remark : Option String) (now : ℕ) (store : Store) (r : Alert × List Alert)
      → resolve_alert id user remark now store.shop.alerts ≡ ok r
      → StoreStep str store (record store { shop = record store.shop { alerts = r.1 } })

pub data StoreReach (str : ℕ → String) : Store → Store → Type 0 where
  start : (store : Store) → StoreReach str store store
  next : {a b c : Store} → StoreReach str a b → StoreStep str b c → StoreReach str a c

resolve_alert-le :
    (key : String) (id user : ℕ) (remark : Option String) (now : ℕ) (alerts : List Alert)
    → Ensures
        (λ (r : Alert × List Alert). count_active key r.1 ≤ count_active key alerts)
        (resolve_alert id user remark now alerts)
unfolding resolve_alert
resolve_alert-le key id user remark now alerts =
    Ensures-or_raise (λ (r : Alert × List Alert). count_active key r.1 ≤ count_active key alerts)
      (find_row (λ (x : Alert). x.id) id alerts) not_found _
      (λ alert f.
        save_row-count key
          (record alert {
            status = resolved;
            resolved_by = some user;
            resolved_at = some now;
            resolution_note = remark;
          })
          alerts refl)

Outcome-IsFresh :
    (str : ℕ → String) (body : StockPurchaseCreate) (id now : ℕ) (store : Store)
    (x : Result (Expense × StockMovement) × Store)
    → Outcome (IsPurchased str body id now store) store x
    → IsFresh str store.shop
    → IsFresh str x.1.shop
Outcome-IsFresh str body id now store (ok made, after) p h = p.fresh h
Outcome-IsFresh str body id now store (err e, after) same h =
    subst (λ (s : Store). IsFresh str s.shop) (sym same) h

module _ (str : ℕ → String) (str-injective : (i j : ℕ) → str i ≡ str j → i ≡ j) where
  step-IsFresh : {a b : Store} → StoreStep str a b → IsFresh str a.shop → IsFresh str b.shop
  step-IsFresh (StoreStep.moved i body actor id now store r e) h =
      (subst (Ensures (IsWatched str (requested i body actor) store.shop)) e
          (run_movement-IsWatched str str-injective i body actor id now store.shop)).fresh
        h
  step-IsFresh (StoreStep.adjusted_by i body actor id now store r e) h =
      (subst (Ensures (IsWatched str (adjusted i body actor) store.shop)) e
          (run_adjustment-IsWatched str str-injective i body actor id now store.shop)).fresh
        h
  step-IsFresh (StoreStep.bought body id actor now store) h =
      Outcome-IsFresh str body id now store (create_stock_purchase str body id actor now store)
        (create_stock_purchase-IsPurchased str body id actor now store) h
  step-IsFresh (StoreStep.closed id user remark now store r e) h = λ i product f policy above.
      let le =
        subst
          (Ensures (λ (r : Alert × List Alert).
            low_stock_alerts str i r.1 ≤ low_stock_alerts str i store.shop.alerts))
          e (resolve_alert-le (low_stock_key str i) id user remark now store.shop.alerts) in
      omega (arith, le, h i product f policy above)

  -- If different ids have different texts and no product with a positive reorder level that has
  -- more than that in stock has an active low-stock alert, then this stays so through any
  -- sequence of recorded movements, adjustments and alert resolutions that return, and of stock
  -- purchases, whether they return or raise.
  pub StoreReach-IsFresh :
      {a b : Store} → StoreReach str a b → IsFresh str a.shop → IsFresh str b.shop
  StoreReach-IsFresh (StoreReach.start store) h = h
  StoreReach-IsFresh (StoreReach.next r s) h = step-IsFresh s (StoreReach-IsFresh r h)
