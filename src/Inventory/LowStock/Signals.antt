-- ===== src/Inventory/LowStock/Signals.antt =====
-- What the signals of a movement say of the stock.
use finguard.Base.{
  ℕ, ◌≡◌, refl, Bool, true, false, not, ◌&&◌, Option, none, some, if◌then◌else◌, if_elim, List, [],
  ◌∷◌, ◌++◌,
}
use finguard.Base.Int.{
  ℤ, pos, ◌+ℤ◌, ltb_ℤ, leb_ℤ, ◌<ℤ◌, ◌≤ℤ◌, int_laws, le→leb_ℤ, lt→leb_ℤ, lt→ltb_ℤ, le→ltb_ℤ,
}
use finguard.Core.Errors.{Ensures, Ensures-raise_if, Ensures-or_raise}
use finguard.Core.Errors.AppError.{not_found, unprocessable}
use finguard.Inventory.Rows.{
  Product, StockLevel, Warehouse, find_product, get_or_create_level, is_adjustment,
}
use finguard.Inventory.Movements.{
  Movement, move_level, store_movement, apply_movement, Applied, LowStockSignal, low_stock_signal,
  recovered_id,
}

-- The product stays, and the signals are those of its balances before and after.
pub record IsSignalled (m : Movement) (w : Warehouse) (r : Applied × Warehouse) : Type 0 where
  pub product : Product
  pub before : ℤ
  pub found : find_product m.product_id w ≡ some product
  pub kept : r.1.products ≡ w.products
  pub signal : r.0.signal ≡ low_stock_signal product m (before +ℤ m.signed_delta)
  pub recovered : r.0.recovered ≡ recovered_id product m before (before +ℤ m.signed_delta)
  pub balance : r.0.movement.balance_after ≡ before +ℤ m.signed_delta
  pub reference : r.0.movement.reference ≡ m.reference
  pub logged : r.1.movements ≡ w.movements ++ r.0.movement ∷ []

move_level-IsSignalled :
    (m : Movement) (product : Product) (level : StockLevel × List StockLevel) (now : ℕ)
    (w : Warehouse)
    → find_product m.product_id w ≡ some product
    → Ensures (IsSignalled m w) (move_level m product level now w)
unfolding move_level store_movement
move_level-IsSignalled m product level now w found =
    let after_delta = level.0.quantity_on_hand +ℤ m.signed_delta in
    Ensures-raise_if (IsSignalled m w)
      (ltb_ℤ after_delta (pos 0) && not (is_adjustment m.movement_type)) unprocessable _
      (λ physical.
        Ensures-raise_if (IsSignalled m w) (ltb_ℤ after_delta (pos 0)) unprocessable _ (λ enough.
          record {
            product = product;
            before = level.0.quantity_on_hand;
            found = found;
            kept = refl;
            signal = refl;
            recovered = refl;
            balance = refl;
            reference = refl;
            logged = refl;
          }))

pub apply_movement-IsSignalled :
    (m : Movement) (now : ℕ) (w : Warehouse) → Ensures (IsSignalled m w) (apply_movement m now w)
unfolding apply_movement
apply_movement-IsSignalled m now w =
    let level = get_or_create_level m.product_id w.levels in
    Ensures-or_raise (IsSignalled m w) (find_product m.product_id w) not_found _ (λ product p.
      Ensures-raise_if (IsSignalled m w) (not product.is_active) unprocessable
        (move_level m product level now w)
        (λ active. move_level-IsSignalled m product level now w p))

abbrev pub signal_of : Product → ℤ → LowStockSignal
signal_of product new_on_hand = record {
  product_id = product.id;
  sku = product.sku;
  on_hand = new_on_hand;
  reorder_level = product.reorder_level;
}

-- What a signal can be.
pub low_stock_signal_elim {ℓ} :
    (P : Option LowStockSignal → Type ℓ) (product : Product) (m : Movement) (new_on_hand : ℤ)
    → ((signal : LowStockSignal) → signal.product_id ≡ product.id → P (some signal))
    → P none
    → P (low_stock_signal product m new_on_hand)
unfolding low_stock_signal
low_stock_signal_elim P product m new_on_hand raised quiet =
    if_elim P
      (ltb_ℤ (pos 0) product.reorder_level
        && ltb_ℤ m.signed_delta (pos 0)
        && leb_ℤ new_on_hand product.reorder_level)
      (some (signal_of product new_on_hand)) none (raised (signal_of product new_on_hand) refl)
      quiet

none_of {ℓ} : {A : Type ℓ} (a b : Bool) (x : A) → (if a && b && false then some x else none) ≡ none
none_of true true x = refl
none_of true false x = refl
none_of false b x = refl

module _ (product : Product) (m : Movement) (before : ℤ) (policy : pos 0 <ℤ product.reorder_level)
    (above : product.reorder_level <ℤ before +ℤ m.signed_delta) where
  -- A movement that ends above the reorder level raises nothing.
  pub low_stock_signal-none : low_stock_signal product m (before +ℤ m.signed_delta) ≡ none
  unfolding low_stock_signal
  low_stock_signal-none =
      rw (lt→leb_ℤ (before +ℤ m.signed_delta) product.reorder_level above)
        (none_of _ (ltb_ℤ m.signed_delta (pos 0)) _)

  -- From the level or below, it clears the alert.
  pub recovered_id-some :
      before ≤ℤ product.reorder_level
      → recovered_id product m before (before +ℤ m.signed_delta) ≡ some product.id
  unfolding recovered_id
  recovered_id-some le =
      let inflow : pos 0 <ℤ m.signed_delta = omega (int_laws, above, le) in
      rw
        (
          lt→ltb_ℤ (pos 0) product.reorder_level policy,
          lt→leb_ℤ (before +ℤ m.signed_delta) product.reorder_level above,
          le→ltb_ℤ m.signed_delta (pos 0) (omega (int_laws, inflow)),
          lt→ltb_ℤ (pos 0) m.signed_delta inflow,
          le→leb_ℤ before product.reorder_level le,
          lt→ltb_ℤ product.reorder_level (before +ℤ m.signed_delta) above,
        )
        refl

module _ (product : Product) (m : Movement) (before : ℤ) (policy : pos 0 <ℤ product.reorder_level)
    (outflow : m.signed_delta <ℤ pos 0)
    (low : before +ℤ m.signed_delta ≤ℤ product.reorder_level) where
  -- An outflow that ends at the reorder level or below raises the alert of the product, and clears
  -- none.
  pub low_stock_signal-some :
      low_stock_signal product m (before +ℤ m.signed_delta)
      ≡ some (signal_of product (before +ℤ m.signed_delta))
  unfolding low_stock_signal
  low_stock_signal-some =
      rw
        (
          lt→ltb_ℤ (pos 0) product.reorder_level policy,
          lt→ltb_ℤ m.signed_delta (pos 0) outflow,
          le→leb_ℤ (before +ℤ m.signed_delta) product.reorder_level low,
        )
        refl

  pub recovered_id-none : recovered_id product m before (before +ℤ m.signed_delta) ≡ none
  unfolding recovered_id
  recovered_id-none =
      rw
        (
          lt→ltb_ℤ (pos 0) product.reorder_level policy,
          lt→ltb_ℤ m.signed_delta (pos 0) outflow,
          le→leb_ℤ (before +ℤ m.signed_delta) product.reorder_level low,
        )
        refl
