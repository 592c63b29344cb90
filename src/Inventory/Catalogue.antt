-- ===== src/Inventory/Catalogue.antt =====
-- The catalogue, the low-stock report and the cost of goods sold of
-- backend/src/domains/inventory/service.py, with their queries in repository.py. A product has the
-- columns that the services read; the order of SKUs in the database is the argument `before`.
pub mod Skus
use text.Mathlib.Text.{◌==◌ as str_eq}
use finguard.Base.{
  ℕ, ◌==◌, Bool, true, false, not, ◌&&◌, Option, none, some, List, [], ◌∷◌, ◌++◌, String,
  if◌then◌else◌, map,
}
use finguard.Base.Int.{ℤ, pos, ltb_ℤ, leb_ℤ, ◌*ℤ◌, sum_by}
use finguard.Base.Sort.{sort_by}
use finguard.Base.Table.{save_row, select}
use finguard.Core.Errors.{Result, ok, err, ◌>>=◌, ◌>>◌, raise_if, or_raise}
use finguard.Core.Errors.AppError.{conflict, not_found, unprocessable}
use finguard.Inventory.Cost.{quantize}
use finguard.Inventory.Rows.{
  MovementType, sale, Product, StockLevel, StockMovement, Warehouse, find_product, find_level,
  get_or_create_level,
}

-- `get_by_sku`
unfoldable pub has_sku : String → List Product → Bool
has_sku sku [] = false
has_sku sku (p ∷ ps) = if str_eq p.sku sku then true else has_sku sku ps

pub record ProductCreate : Type 0 where
  pub sku : String
  pub name : String
  pub category : Option String
  pub reorder_level : ℤ
  pub is_active : Bool

abbrev pub product_row : ProductCreate → ℕ → Product
product_row body id = record {
  id = id;
  sku = body.sku;
  name = body.name;
  category = body.category;
  reorder_level = body.reorder_level;
  is_active = body.is_active;
}

unfoldable pub create_product : ProductCreate → ℕ → Warehouse → Result (Product × Warehouse)
unfolding has_sku
create_product body id w = do
  raise_if (has_sku body.sku w.products) conflict
  ok (product_row body id, record w { products = w.products ++ product_row body id ∷ [] })

abbrev pub get_product : ℕ → Warehouse → Result Product
get_product product_id w = or_raise (find_product product_id w) not_found

pub record ProductUpdate : Type 0 where
  pub name : Option String
  pub category : Option String
  pub reorder_level : Option ℤ
  pub is_active : Option Bool

-- A field of `model_dump(exclude_none=True)`.
abbrev pub given {ℓ} : {A : Type ℓ} → Option A → A → A
given none old = old
given (some new) old = new

abbrev pub updated : ProductUpdate → Product → Product
updated body p = record p {
  name = given body.name p.name;
  category = elim body.category [ none ↦ p.category | some c ↦ some c ];
  reorder_level = given body.reorder_level p.reorder_level;
  is_active = given body.is_active p.is_active;
}

unfoldable pub update_product : ℕ → ProductUpdate → Warehouse → Result (Product × Warehouse)
update_product product_id body w = do
  p ← get_product product_id w
  ok (
    updated body p,
    record w { products = save_row (λ (x : Product). x.id) (updated body p) w.products },
  )

-- `get_stock_level`: the missing row is flushed.
unfoldable pub get_stock_level : ℕ → Warehouse → Result (StockLevel × Warehouse)
unfolding get_or_create_level
get_stock_level product_id w = do
  p ← get_product product_id w
  raise_if (not p.is_active) unprocessable
  let found = get_or_create_level product_id w.levels
  ok (found.0, record w { levels = found.1 })

-- `coalesce(quantity_on_hand, 0)`
abbrev pub coalesced : Option StockLevel → ℤ
coalesced none = pos 0
coalesced (some level) = level.quantity_on_hand

-- The `WHERE` of `list_low_stock`.
abbrev pub is_low : Warehouse → Product → Bool
is_low w p =
    p.is_active
    && ltb_ℤ (pos 0) p.reorder_level
    && leb_ℤ (coalesced (find_level p.id w.levels)) p.reorder_level

pub record LowStockItem : Type 0 where
  pub product_id : ℕ
  pub sku : String
  pub name : String
  pub quantity_on_hand : ℤ
  pub reorder_level : ℤ

abbrev pub low_stock_item : Warehouse → Product → LowStockItem
low_stock_item w p = record {
  product_id = p.id;
  sku = p.sku;
  name = p.name;
  quantity_on_hand = coalesced (find_level p.id w.levels);
  reorder_level = p.reorder_level;
}

unfoldable pub low_stock_report : (String → String → Bool) → Warehouse → List LowStockItem
unfolding select sort_by
low_stock_report before w =
    map (low_stock_item w)
      (sort_by (λ (p : Product) (q : Product). before p.sku q.sku) (select (is_low w) w.products))

abbrev pub is_sale : MovementType → Bool
is_sale sale = true
is_sale kind = false

abbrev pub refers_to : String → ℕ → Option (String × ℕ) → Bool
refers_to kind id none = false
refers_to kind id (some r) = str_eq r.0 kind && r.1 == id

-- `quantity * coalesce(unit_cost, 0)`
abbrev pub movement_cost : StockMovement → ℤ
movement_cost m = m.quantity *ℤ given m.unit_cost (pos 0)

-- `cogs_for_reference`, to a cent.
unfoldable pub cogs_for_reference : String → ℕ → Warehouse → ℤ
unfolding select quantize
cogs_for_reference kind id w =
    quantize
      (sum_by movement_cost (
        select (λ (m : StockMovement). is_sale m.movement_type && refers_to kind id m.reference)
          w.movements))
      1000

abbrev pub cogs_for_invoice : ℕ → Warehouse → ℤ
cogs_for_invoice invoice_id w = cogs_for_reference "invoice" invoice_id w
