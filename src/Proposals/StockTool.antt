-- ===== src/Proposals/StockTool.antt =====
-- `propose_stock_movement`, the only path on which an agent's action changes the stock
-- (backend/src/domains/intelligence/tools/inventory_tools.py). `parse_uuid` is `uuid.UUID` on a text.
-- The audit row is left out.
use text.Mathlib.Text.{◌==◌ as str_eq}
use finguard.Base.{
  ℕ, Bool, true, false, not, ◌&&◌, ◌||◌, Option, none, some, List, [], ◌∷◌, String, is_some,
  if◌then◌else◌,
}
use finguard.Base.Int.{ℤ, pos, ◌+ℤ◌, ◌-ℤ◌, ltb_ℤ, leb_ℤ, eqb_ℤ}
use finguard.Core.Errors.{AppError, Result, ok, err, ◌>>=◌, or_raise}
use finguard.Core.Errors.AppError.{not_found}
use finguard.Inventory.Rows.{
  MovementType, MovementReason, is_inbound, is_adjustment, Product, StockLevel, StockMovement,
  Warehouse, find_product, find_level,
}
use finguard.Inventory.Movements.{
  Applied, adjust_stock, record_movement, StockAdjustmentCreate, InventoryMovementCreate,
}

-- The tool's arguments, as a proposal keeps them.
pub record StockArgs : Type 0 where
  pub product_ref : String
  pub movement_type : String
  pub quantity : ℤ
  pub reason : Option String
  pub unit_cost : Option ℤ

pub data ToolStatus : Type 0 where
  rejected proposed applied : ToolStatus

-- `status`, `resulting_on_hand`, and the movement that `detail` names.
pub record ToolResult : Type 0 where
  pub status : ToolStatus
  pub resulting_on_hand : Option ℤ
  pub movement : Option StockMovement

abbrev pub refusal : ToolResult
refusal = record { status = ToolStatus.rejected; resulting_on_hand = none; movement = none }

-- `MovementType(value)`
unfoldable pub movement_type_of : String → Option MovementType
movement_type_of s =
    if str_eq s "receipt"
    then some MovementType.receipt
    else if str_eq s "issue"
    then some MovementType.issue
    else if str_eq s "sale"
    then some MovementType.sale
    else if str_eq s "return_in"
    then some MovementType.return_in
    else if str_eq s "adjustment"
    then some MovementType.adjustment
    else if str_eq s "transfer"
    then some MovementType.transfer
    else none

-- `MovementReason(value)`
unfoldable pub movement_reason_of : String → Option MovementReason
movement_reason_of s =
    if str_eq s "purchase"
    then some MovementReason.purchase
    else if str_eq s "sale"
    then some MovementReason.sold
    else if str_eq s "damage"
    then some MovementReason.damage
    else if str_eq s "theft"
    then some MovementReason.theft
    else if str_eq s "stock_take"
    then some MovementReason.stock_take
    else if str_eq s "expiry"
    then some MovementReason.expiry
    else if str_eq s "correction"
    then some MovementReason.correction
    else if str_eq s "other"
    then some MovementReason.other
    else none

-- `get_by_sku`
unfoldable pub find_sku : String → List Product → Option Product
find_sku sku [] = none
find_sku sku (p ∷ ps) = if str_eq p.sku sku then some p else find_sku sku ps

abbrev pub by_id : Option ℕ → Warehouse → Option Product
by_id none w = none
by_id (some i) w = find_product i w

abbrev pub or_sku : Option Product → String → Warehouse → Option Product
or_sku (some p) sku w = some p
or_sku none sku w = find_sku sku w.products

-- `_resolve_product`, before it raises.
unfoldable pub resolve_product : (String → Option ℕ) → String → Warehouse → Option Product
unfolding find_sku
resolve_product parse_uuid ref w = or_sku (by_id (parse_uuid ref) w) ref w

abbrev is_receipt : MovementType → Bool
is_receipt MovementType.receipt = true
is_receipt kind = false

-- The gates on the parameters.
unfoldable pub is_refused : MovementType → StockArgs → Bool
is_refused mtype args =
    if is_adjustment mtype
    then eqb_ℤ args.quantity (pos 0) || not (is_some args.reason)
    else leb_ℤ args.quantity (pos 0) || is_receipt mtype && not (is_some args.unit_cost)

abbrev on_hand_of : Option StockLevel → ℤ
on_hand_of none = pos 0
on_hand_of (some level) = level.quantity_on_hand

-- `resulting`
unfoldable pub resulting_on_hand : MovementType → StockArgs → Product → Warehouse → ℤ
resulting_on_hand mtype args product w =
    let on_hand = on_hand_of (find_level product.id w.levels) in
    if is_adjustment mtype || is_inbound mtype
    then on_hand +ℤ args.quantity
    else on_hand -ℤ args.quantity

-- `reason` of a movement that is no adjustment: an empty text counts as none; the outer `none` is
-- a text that names no reason.
abbrev pub optional_reason : Option String → Option (Option MovementReason)
optional_reason none = some none
optional_reason (some s) =
    if str_eq s ""
    then some none
    else elim (movement_reason_of s) [ none ↦ none | some r ↦ some (some r) ]

abbrev pub required_reason : Option String → Option (Option MovementReason)
required_reason none = none
required_reason (some s) = elim (movement_reason_of s) [ none ↦ none | some r ↦ some (some r) ]

-- A refusal of the service is a rejection; any other exception goes on.
abbrev pub caught : Result (Applied × Warehouse) → Warehouse → Result (ToolResult × Warehouse)
caught (ok r) w = ok (
  record {
    status = ToolStatus.applied;
    resulting_on_hand = some r.0.movement.balance_after;
    movement = some r.0.movement;
  },
  r.1,
)
caught (err AppError.unprocessable) w = ok (refusal, w)
caught (err e) w = err e

abbrev pub adjustment_body : StockArgs → Option MovementReason → StockAdjustmentCreate
adjustment_body args reason = record { quantity = args.quantity; reason = reason }

abbrev pub movement_body :
    MovementType → StockArgs → Option MovementReason → InventoryMovementCreate
movement_body mtype args reason = record {
  movement_type = mtype;
  quantity = args.quantity;
  unit_cost = args.unit_cost;
  reason = reason;
  reference = none;
}

-- The call of the service, with the reason read.
unfoldable pub call_service :
    MovementType
    → StockArgs
    → Product
    → Option (Option MovementReason)
    → Option ℕ
    → ℕ
    → Warehouse
    → Result (ToolResult × Warehouse)
unfolding adjust_stock record_movement
call_service mtype args product none actor_id now w = ok (refusal, w)
call_service mtype args product (some reason) actor_id now w =
    if is_adjustment mtype
    then caught (adjust_stock product.id (adjustment_body args reason) actor_id now w) w
    else caught (record_movement product.id (movement_body mtype args reason) actor_id now w) w

-- What follows the resolution of the product and the movement type.
unfoldable pub gated_movement :
    MovementType
    → StockArgs
    → Product
    → Bool
    → Option ℕ
    → ℕ
    → Warehouse
    → Result (ToolResult × Warehouse)
unfolding is_refused resulting_on_hand movement_reason_of call_service
gated_movement mtype args product apply actor_id now w =
    let resulting = resulting_on_hand mtype args product w in
    if is_refused mtype args || ltb_ℤ resulting (pos 0)
    then ok (refusal, w)
    else if not apply
    then ok (
      record { status = ToolStatus.proposed; resulting_on_hand = some resulting; movement = none },
      w,
    )
    else call_service mtype args product
        (if is_adjustment mtype then required_reason args.reason else optional_reason args.reason)
        actor_id now w

abbrev pub typed_movement :
    Option MovementType
    → StockArgs
    → Product
    → Bool
    → Option ℕ
    → ℕ
    → Warehouse
    → Result (ToolResult × Warehouse)
typed_movement none args product apply actor_id now w = ok (refusal, w)
typed_movement (some mtype) args product apply actor_id now w =
    gated_movement mtype args product apply actor_id now w

-- `propose_stock_movement`
unfoldable pub propose_stock_movement :
    (String → Option ℕ)
    → StockArgs
    → Bool
    → Option ℕ
    → ℕ
    → Warehouse
    → Result (ToolResult × Warehouse)
unfolding resolve_product movement_type_of gated_movement
propose_stock_movement parse_uuid args apply actor_id now w = do
  product ← or_raise (resolve_product parse_uuid args.product_ref w) not_found
  typed_movement (movement_type_of args.movement_type) args product apply actor_id now w
