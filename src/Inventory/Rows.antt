-- ===== src/Inventory/Rows.antt =====
-- The rows of the stock tables (backend/src/domains/inventory/models.py), the enumerations of types.py
-- and the queries of repository.py. A quantity is a number of thousandths, a cost a number of cents.
use finguard.Base.{ℕ, ◌==◌, max, Bool, true, false, Option, none, some, List, [], ◌∷◌, ◌++◌, String}
use finguard.Base.Int.{ℤ, pos}
use finguard.Base.Table.{find_row, select}

pub data MovementType : Type 0 where
  receipt issue sale return_in adjustment transfer : MovementType

pub data MovementReason : Type 0 where
  purchase sold damage theft stock_take expiry correction other : MovementReason

-- `movement_type in INBOUND`
abbrev pub is_inbound : MovementType → Bool
is_inbound receipt = true
is_inbound return_in = true
is_inbound kind = false

abbrev pub is_adjustment : MovementType → Bool
is_adjustment adjustment = true
is_adjustment kind = false

-- `movement_type in {SALE, ISSUE}`
abbrev pub is_costed : MovementType → Bool
is_costed sale = true
is_costed issue = true
is_costed kind = false

pub record Product : Type 0 where
  pub id : ℕ
  pub sku : String
  pub name : String
  pub category : Option String
  pub reorder_level : ℤ
  pub is_active : Bool

pub record StockLevel : Type 0 where
  pub product_id : ℕ
  pub quantity_on_hand : ℤ
  pub quantity_reserved : ℤ
  pub average_cost : ℤ

pub record StockMovement : Type 0 where
  pub product_id : ℕ
  pub sequence : ℕ
  pub movement_type : MovementType
  pub movement_reason : Option MovementReason
  pub quantity : ℤ
  pub unit_cost : Option ℤ
  pub balance_after : ℤ
  pub reference : Option (String × ℕ)
  pub occurred_at : ℕ
  pub created_by : Option ℕ

pub record Warehouse : Type 0 where
  pub products : List Product
  pub levels : List StockLevel
  pub movements : List StockMovement

abbrev pub find_product : ℕ → Warehouse → Option Product
find_product i w = find_row (λ (p : Product). p.id) i w.products

abbrev pub find_level : ℕ → List StockLevel → Option StockLevel
find_level = find_row (λ (l : StockLevel). l.product_id)

abbrev pub movements_of : ℕ → Warehouse → List StockMovement
movements_of i w = select (λ (m : StockMovement). m.product_id == i) w.movements

-- A level row with the defaults of its columns.
abbrev pub zero_level : ℕ → StockLevel
zero_level product_id = record {
  product_id = product_id;
  quantity_on_hand = pos 0;
  quantity_reserved = pos 0;
  average_cost = pos 0;
}

-- `get_or_create_level`: the row, and the table with it.
abbrev pub created_level : ℕ → List StockLevel → Option StockLevel → StockLevel × List StockLevel
created_level product_id levels (some level) = (level, levels)
created_level product_id levels none = (zero_level product_id, levels ++ zero_level product_id ∷ [])

unfoldable pub get_or_create_level : ℕ → List StockLevel → StockLevel × List StockLevel
get_or_create_level product_id levels =
    created_level product_id levels (find_level product_id levels)

-- The largest sequence number of a ledger.
unfoldable pub max_sequence : List StockMovement → ℕ
max_sequence [] = 0
max_sequence (m ∷ ms) = max m.sequence (max_sequence ms)

-- `last_sequence`
unfoldable pub last_sequence : ℕ → Warehouse → ℕ
unfolding max_sequence
last_sequence product_id w = max_sequence (movements_of product_id w)
