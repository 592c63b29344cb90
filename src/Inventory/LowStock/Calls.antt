-- ===== src/Inventory/LowStock/Calls.antt =====
-- The calls of the service keep the alerts with the stock.
use finguard.Base.{ℕ, ◌≡◌, not, Option, String, is_some}
use finguard.Base.Int.{pos, eqb_ℤ}
use finguard.Core.Errors.{
  Result, ok, Ensures, Ensures-raise_if, Ensures-bind, Ensures-both, raise_if, ◌>>◌, ◌>>=◌,
}
use finguard.Core.Errors.AppError.{unprocessable}
use finguard.Inventory.Rows.{Warehouse, is_adjustment}
use finguard.Inventory.Movements.{
  Movement, apply_movement, Applied, InventoryMovementCreate, requested, record_movement,
  StockAdjustmentCreate, adjusted, adjust_stock,
}
use finguard.Inventory.Ledger.{IsDelta}
use finguard.Inventory.Stock.{IsApplied, apply_movement-IsApplied}
use finguard.Inventory.Stock.Runs.{requested-IsDelta, adjusted-IsDelta}
use finguard.Inventory.LowStock.{Shop, run_movement, run_adjustment, after_commit}
use finguard.Inventory.LowStock.Signals.{IsSignalled, apply_movement-IsSignalled}
use finguard.Inventory.LowStock.Fresh.{IsWatched, after_commit-IsWatched}

-- The stock and the signals of a movement.
abbrev pub IsMoved : Movement → Warehouse → Applied × Warehouse → Type 0
IsMoved m w r = IsApplied m w r × IsSignalled m w r

pub apply_movement-IsMoved :
    (m : Movement) (now : ℕ) (w : Warehouse)
    → IsDelta m.movement_type m.quantity m.signed_delta
    → Ensures (IsMoved m w) (apply_movement m now w)
apply_movement-IsMoved m now w d =
    Ensures-both (IsApplied m w) (IsSignalled m w) (apply_movement m now w)
      (apply_movement-IsApplied m now w d) (apply_movement-IsSignalled m now w)

record_movement-IsMoved :
    (i : ℕ) (body : InventoryMovementCreate) (actor : Option ℕ) (now : ℕ) (w : Warehouse)
    → Ensures (IsMoved (requested i body actor) w) (record_movement i body actor now w)
unfolding record_movement
record_movement-IsMoved i body actor now w =
    let m = requested i body actor in
    Ensures-raise_if (IsMoved m w) (is_adjustment body.movement_type) unprocessable
      (apply_movement m now w)
      (λ k. apply_movement-IsMoved m now w (requested-IsDelta body.movement_type body.quantity k))

adjust_stock-IsMoved :
    (i : ℕ) (body : StockAdjustmentCreate) (actor : Option ℕ) (now : ℕ) (w : Warehouse)
    → Ensures (IsMoved (adjusted i body actor) w) (adjust_stock i body actor now w)
unfolding adjust_stock
adjust_stock-IsMoved i body actor now w =
    let m = adjusted i body actor in
    Ensures-raise_if (IsMoved m w) (not (is_some body.reason)) unprocessable
      (raise_if (eqb_ℤ body.quantity (pos 0)) unprocessable >> apply_movement m now w)
      (λ k.
        Ensures-raise_if (IsMoved m w) (eqb_ℤ body.quantity (pos 0)) unprocessable
          (apply_movement m now w)
          (λ j. apply_movement-IsMoved m now w (adjusted-IsDelta body.quantity)))

module _ (str : ℕ → String) (str-injective : (i j : ℕ) → str i ≡ str j → i ≡ j) where
  watched :
      (m : Movement) (shop : Shop) (id now : ℕ) (call : Result (Applied × Warehouse))
      → Ensures (IsMoved m shop.warehouse) call
      → Ensures (IsWatched str m shop) (call >>= λ r. ok (after_commit str id now shop.alerts r))
  watched m shop id now call h =
      Ensures-bind (IsWatched str m shop) (IsMoved m shop.warehouse) call _ h
        (λ r b. after_commit-IsWatched str str-injective m shop id now r b.0 b.1)

  -- If different ids have different texts, then a recorded movement that returns has changed the
  -- stock of its product by the signed quantity; if it went out of stock to the positive reorder
  -- level of the product or below, then the product has an active low-stock alert afterwards;
  -- and if no product had a stale alert before, none has one after.
  pub run_movement-IsWatched :
      (i : ℕ) (body : InventoryMovementCreate) (actor : Option ℕ) (id now : ℕ) (shop : Shop)
      → Ensures
          (IsWatched str (requested i body actor) shop)
          (run_movement str i body actor id now shop)
  unfolding run_movement
  run_movement-IsWatched i body actor id now shop =
      watched (requested i body actor) shop id now _
        (record_movement-IsMoved i body actor now shop.warehouse)

  pub run_adjustment-IsWatched :
      (i : ℕ) (body : StockAdjustmentCreate) (actor : Option ℕ) (id now : ℕ) (shop : Shop)
      → Ensures
          (IsWatched str (adjusted i body actor) shop)
          (run_adjustment str i body actor id now shop)
  unfolding run_adjustment
  run_adjustment-IsWatched i body actor id now shop =
      watched (adjusted i body actor) shop id now _
        (adjust_stock-IsMoved i body actor now shop.warehouse)
