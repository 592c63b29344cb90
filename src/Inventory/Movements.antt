-- ===== src/Inventory/Movements.antt =====
-- `_apply`, `record_movement`, `adjust_stock` and `record_purchase_receipt` of
-- backend/src/domains/inventory/service.py.
use finguard.Base.{
  ℕ, ◌+◌, not, ◌&&◌, Option, none, some, List, [], ◌∷◌, ◌++◌, String, is_some, if◌then◌else◌,
}
use finguard.Base.Int.{ℤ, pos, ◌+ℤ◌, ltb_ℤ, leb_ℤ, eqb_ℤ, neg_ℤ, abs_ℤ}
use finguard.Base.Table.{save_row}
use finguard.Core.Errors.{Result, ok, ◌>>=◌, ◌>>◌, raise_if, or_raise}
use finguard.Core.Errors.AppError.{not_found, unprocessable}
use finguard.Inventory.Cost.{weighted_avg}
use finguard.Inventory.Rows.{
  MovementType, MovementReason, is_inbound, is_adjustment, is_costed, Product, StockLevel,
  StockMovement, Warehouse, find_product, get_or_create_level, last_sequence, receipt, adjustment,
  purchase,
}

-- The keyword arguments of `_apply`.
pub record Movement : Type 0 where
  pub product_id : ℕ
  pub movement_type : MovementType
  pub quantity : ℤ
  pub signed_delta : ℤ
  pub unit_cost : Option ℤ
  pub reason : Option MovementReason
  pub reference : Option (String × ℕ)
  pub actor_id : Option ℕ

-- `_LowStockSignal`
pub record LowStockSignal : Type 0 where
  pub product_id : ℕ
  pub sku : String
  pub on_hand : ℤ
  pub reorder_level : ℤ

-- The average cost after the movement.
unfoldable pub next_average : Movement → StockLevel → ℤ
next_average m level = elim m.unit_cost [
  | none ↦ level.average_cost
  | some cost ↦
      if is_inbound m.movement_type
      then weighted_avg level.quantity_on_hand level.average_cost m.quantity cost
      else level.average_cost
]

-- `effective_unit_cost`
unfoldable pub effective_cost : Movement → ℤ → Option ℤ
effective_cost m average_cost = elim m.unit_cost [
  | none ↦ if is_costed m.movement_type then some average_cost else none
  | some cost ↦ some cost
]

-- The alert that an outflow raises.
unfoldable pub low_stock_signal : Product → Movement → ℤ → Option LowStockSignal
low_stock_signal product m new_on_hand =
    if ltb_ℤ (pos 0) product.reorder_level
      && ltb_ℤ m.signed_delta (pos 0)
      && leb_ℤ new_on_hand product.reorder_level
    then some record {
      product_id = product.id;
      sku = product.sku;
      on_hand = new_on_hand;
      reorder_level = product.reorder_level;
    }
    else none

-- The product whose alert an inflow clears.
unfoldable pub recovered_id : Product → Movement → ℤ → ℤ → Option ℕ
recovered_id product m prev_on_hand new_on_hand =
    if ltb_ℤ (pos 0) product.reorder_level
      && not (ltb_ℤ m.signed_delta (pos 0) && leb_ℤ new_on_hand product.reorder_level)
      && ltb_ℤ (pos 0) m.signed_delta
      && leb_ℤ prev_on_hand product.reorder_level
      && ltb_ℤ product.reorder_level new_on_hand
    then some product.id
    else none

pub record Applied : Type 0 where
  pub movement : StockMovement
  pub signal : Option LowStockSignal
  pub recovered : Option ℕ

-- The level row after the movement.
abbrev pub next_level : Movement → StockLevel → StockLevel
next_level m level = record level {
  quantity_on_hand = level.quantity_on_hand +ℤ m.signed_delta;
  average_cost = next_average m level;
}

abbrev pub movement_row : Movement → StockLevel → ℕ → ℕ → StockMovement
movement_row m level sequence now = record {
  product_id = m.product_id;
  sequence = sequence;
  movement_type = m.movement_type;
  movement_reason = m.reason;
  quantity = m.quantity;
  unit_cost = effective_cost m level.average_cost;
  balance_after = level.quantity_on_hand;
  reference = m.reference;
  occurred_at = now;
  created_by = m.actor_id;
}

-- The writes of `_apply`, after its guards.
unfoldable pub store_movement :
    Movement → StockLevel → List StockLevel → ℕ → Warehouse → StockMovement × Warehouse
unfolding last_sequence
store_movement m level levels now w =
    let next = next_level m level in
    let row = movement_row m next (last_sequence m.product_id w + 1) now in
    (
      row,
      record w {
        levels = save_row (λ (l : StockLevel). l.product_id) next levels;
        movements = w.movements ++ row ∷ [];
      },
    )

-- What follows the lock of the level row: the guards on the new balance, and the writes.
unfoldable pub move_level :
    Movement → Product → StockLevel × List StockLevel → ℕ → Warehouse → Result (Applied × Warehouse)
unfolding store_movement
move_level m product found now w = do
  let new_on_hand = found.0.quantity_on_hand +ℤ m.signed_delta
  raise_if (ltb_ℤ new_on_hand (pos 0) && not (is_adjustment m.movement_type)) unprocessable
  raise_if (ltb_ℤ new_on_hand (pos 0)) unprocessable
  let stored = store_movement m found.0 found.1 now w
  ok (
    record {
      movement = stored.0;
      signal = low_stock_signal product m new_on_hand;
      recovered = recovered_id product m found.0.quantity_on_hand new_on_hand;
    },
    stored.1,
  )

-- `_apply`
unfoldable pub apply_movement : Movement → ℕ → Warehouse → Result (Applied × Warehouse)
unfolding move_level get_or_create_level
apply_movement m now w = do
  product ← or_raise (find_product m.product_id w) not_found
  raise_if (not product.is_active) unprocessable
  move_level m product (get_or_create_level m.product_id w.levels) now w

-- `InventoryMovementCreate`; the schema holds `quantity` above zero.
pub record InventoryMovementCreate : Type 0 where
  pub movement_type : MovementType
  pub quantity : ℤ
  pub unit_cost : Option ℤ
  pub reason : Option MovementReason
  pub reference : Option (String × ℕ)

abbrev pub requested : ℕ → InventoryMovementCreate → Option ℕ → Movement
requested product_id body actor_id = record {
  product_id = product_id;
  movement_type = body.movement_type;
  quantity = body.quantity;
  signed_delta = if is_inbound body.movement_type then body.quantity else neg_ℤ body.quantity;
  unit_cost = body.unit_cost;
  reason = body.reason;
  reference = body.reference;
  actor_id = actor_id;
}

unfoldable pub record_movement :
    ℕ → InventoryMovementCreate → Option ℕ → ℕ → Warehouse → Result (Applied × Warehouse)
unfolding apply_movement
record_movement product_id body actor_id now w =
    raise_if (is_adjustment body.movement_type) unprocessable
    >> apply_movement (requested product_id body actor_id) now w

-- `StockAdjustmentCreate`
pub record StockAdjustmentCreate : Type 0 where
  pub quantity : ℤ
  pub reason : Option MovementReason

abbrev pub adjusted : ℕ → StockAdjustmentCreate → Option ℕ → Movement
adjusted product_id body actor_id = record {
  product_id = product_id;
  movement_type = adjustment;
  quantity = abs_ℤ body.quantity;
  signed_delta = body.quantity;
  unit_cost = none;
  reason = body.reason;
  reference = none;
  actor_id = actor_id;
}

unfoldable pub adjust_stock :
    ℕ → StockAdjustmentCreate → Option ℕ → ℕ → Warehouse → Result (Applied × Warehouse)
unfolding apply_movement
adjust_stock product_id body actor_id now w = do
  raise_if (not (is_some body.reason)) unprocessable
  raise_if (eqb_ℤ body.quantity (pos 0)) unprocessable
  apply_movement (adjusted product_id body actor_id) now w

abbrev pub purchased : ℕ → ℤ → ℤ → ℕ → Option ℕ → Movement
purchased product_id quantity unit_cost reference_id actor_id = record {
  product_id = product_id;
  movement_type = receipt;
  quantity = quantity;
  signed_delta = quantity;
  unit_cost = some unit_cost;
  reason = some purchase;
  reference = some ("expense", reference_id);
  actor_id = actor_id;
}

unfoldable pub record_purchase_receipt :
    ℕ → ℤ → ℤ → ℕ → Option ℕ → ℕ → Warehouse → Result (Applied × Warehouse)
unfolding apply_movement
record_purchase_receipt product_id quantity unit_cost reference_id actor_id now w =
    apply_movement (purchased product_id quantity unit_cost reference_id actor_id) now w
