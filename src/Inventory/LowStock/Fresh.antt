-- ===== src/Inventory/LowStock/Fresh.antt =====
-- The alerts follow the stock.
use mathlib.Core.Path.{subst}
use finguard.Base.{
  ℕ, ◌≡◌, ◌≤◌, refl, ◌∙◌, sym, false, Option, some, Bool-cases, inl, inr, arith, String, ◌==◌,
  eq_of_test, ap,
}
use finguard.Base.Int.{
  ℤ, pos, ◌+ℤ◌, ◌<ℤ◌, ◌≤ℤ◌, leb_ℤ, leb→le_ℤ, leb→lt_ℤ, +ℤ_parts, pos_part, neg_part, eq_of_parts,
}
use finguard.Base.Table.{find_row, find_row-key}
use finguard.Inventory.Rows.{Product, StockMovement, Warehouse, find_product}
use finguard.Inventory.Movements.{Movement, Applied, LowStockSignal}
use finguard.Inventory.Stock.{on_hand, IsApplied}
use finguard.Inventory.LowStock.{Shop, maybe_raise_low_stock, maybe_resolve_low_stock, after_commit}
use finguard.Inventory.LowStock.Signals.{
  IsSignalled, signal_of, low_stock_signal_elim, low_stock_signal-none, recovered_id-some,
  low_stock_signal-some, recovered_id-none,
}
use finguard.Inventory.LowStock.Alerting.{
  low_stock_alerts, maybe_resolve_low_stock-le, maybe_resolve_low_stock-none,
  maybe_raise_low_stock-other, maybe_raise_low_stock-some,
}

-- No alert says that a product is low that has more than its reorder level.
abbrev pub IsFresh : (ℕ → String) → Shop → Type 0
IsFresh str shop =
    (i : ℕ) (product : Product)
    → find_product i shop.warehouse ≡ some product
    → pos 0 <ℤ product.reorder_level
    → product.reorder_level <ℤ on_hand i shop.warehouse
    → low_stock_alerts str i shop.alerts ≡ 0

+ℤ_cancel : (a b d : ℤ) → a +ℤ d ≡ b +ℤ d → a ≡ b
+ℤ_cancel a b d h =
    eq_of_parts a b (omega (arith, +ℤ_parts a d, +ℤ_parts b d, ap pos_part h, ap neg_part h))

some_injective {ℓ} : {A : Type ℓ} (a b : A) → some a ≡ some b → a ≡ b
some_injective a b h = cc

module _ (m : Movement) (w : Warehouse) (r : Applied × Warehouse) (a : IsApplied m w r)
    (s : IsSignalled m w r) where
  -- The balance that the movement started from is the stock of its product.
  before-eq : s.before ≡ on_hand m.product_id w
  before-eq =
      +ℤ_cancel s.before (on_hand m.product_id w) m.signed_delta
        (sym s.balance ∙ a.balance ∙ a.moved)

  after-eq : s.before +ℤ m.signed_delta ≡ on_hand m.product_id r.1
  after-eq = sym s.balance ∙ a.balance

  same_product : s.product.id ≡ m.product_id
  same_product = find_row-key (λ (p : Product). p.id) m.product_id w.products s.product s.found

module _ (str : ℕ → String) (str-injective : (i j : ℕ) → str i ≡ str j → i ≡ j) (m : Movement)
    (shop : Shop) (r : Applied × Warehouse) (a : IsApplied m shop.warehouse r)
    (s : IsSignalled m shop.warehouse r) (id now : ℕ) where
  final : Shop
  final = (after_commit str id now shop.alerts r).1

  -- The product of the movement has no alert if it ends above the reorder level.
  fresh_here :
      IsFresh str shop
      → pos 0 <ℤ s.product.reorder_level
      → s.product.reorder_level <ℤ on_hand m.product_id r.1
      → low_stock_alerts str m.product_id final.alerts ≡ 0
  unfolding final after_commit maybe_raise_low_stock
  fresh_here h policy above =
      let over : s.product.reorder_level <ℤ s.before +ℤ m.signed_delta =
        subst (λ x. s.product.reorder_level <ℤ x) (sym (after-eq m shop.warehouse r a s)) above in
      rw (s.signal ∙ low_stock_signal-none s.product m s.before policy over)
        (elim (Bool-cases (leb_ℤ s.before s.product.reorder_level)) [
          | inl k ↦
              let low : s.before ≤ℤ s.product.reorder_level =
                leb→le_ℤ s.before s.product.reorder_level k in
              rw
                (
                  s.recovered ∙ recovered_id-some s.product m s.before policy over low,
                  same_product m shop.warehouse r a s,
                )
                (maybe_resolve_low_stock-none str m.product_id now shop.alerts)
          | inr k ↦
              let was_over : s.product.reorder_level <ℤ on_hand m.product_id shop.warehouse =
                subst (λ x. s.product.reorder_level <ℤ x) (before-eq m shop.warehouse r a s)
                  (leb→lt_ℤ s.before s.product.reorder_level k) in
              omega (
                arith,
                maybe_resolve_low_stock-le str r.0.recovered now m.product_id shop.alerts,
                h m.product_id s.product s.found policy was_over,
              )
        ])

  -- It has one if it goes out to the reorder level or below.
  alerted_here :
      pos 0 <ℤ s.product.reorder_level
      → m.signed_delta <ℤ pos 0
      → on_hand m.product_id r.1 ≤ℤ s.product.reorder_level
      → 1 ≤ low_stock_alerts str m.product_id final.alerts
  unfolding final after_commit maybe_resolve_low_stock
  alerted_here policy outflow low =
      let under : s.before +ℤ m.signed_delta ≤ℤ s.product.reorder_level =
        subst (λ x. x ≤ℤ s.product.reorder_level) (sym (after-eq m shop.warehouse r a s)) low in
      rw
        (
          s.signal ∙ low_stock_signal-some s.product m s.before policy outflow under,
          s.recovered ∙ recovered_id-none s.product m s.before policy outflow under,
          ← same_product m shop.warehouse r a s,
        )
        (maybe_raise_low_stock-some str (signal_of s.product (s.before +ℤ m.signed_delta)) id
          shop.alerts)

  raise_other :
      (j : ℕ)
      → (m.product_id == j) ≡ false
      → low_stock_alerts str j (maybe_raise_low_stock str r.0.signal id shop.alerts)
        ≡ low_stock_alerts str j shop.alerts
  unfolding maybe_raise_low_stock
  raise_other j ne = rw s.signal (
      low_stock_signal_elim
        (λ (o : Option LowStockSignal).
          low_stock_alerts str j (maybe_raise_low_stock str o id shop.alerts)
          ≡ low_stock_alerts str j shop.alerts)
        s.product m (s.before +ℤ m.signed_delta)
        (λ signal e.
          maybe_raise_low_stock-other str str-injective signal id j shop.alerts
            (ap (λ k. k == j) (e ∙ same_product m shop.warehouse r a s) ∙ ne))
        refl)

  fresh_at :
      (i : ℕ) (product : Product)
      → IsFresh str shop
      → m.product_id ≡ i
      → find_product i shop.warehouse ≡ some product
      → pos 0 <ℤ product.reorder_level
      → product.reorder_level <ℤ on_hand i r.1
      → low_stock_alerts str i final.alerts ≡ 0
  fresh_at i product h e found policy above =
      let found_here = sym s.found ∙ ap (λ j. find_product j shop.warehouse) e ∙ found in
      let same : s.product ≡ product = some_injective s.product product found_here in
      subst (λ j. low_stock_alerts str j final.alerts ≡ 0) e
        (fresh_here h (subst (λ p. pos 0 <ℤ p.reorder_level) (sym same) policy) (
          subst (λ p. p.reorder_level <ℤ on_hand m.product_id r.1) (sym same)
            (subst (λ j. product.reorder_level <ℤ on_hand j r.1) (sym e) above)))

  after_commit-IsFresh : IsFresh str shop → IsFresh str (after_commit str id now shop.alerts r).1
  unfolding after_commit final
  after_commit-IsFresh h i product found policy above =
      let found_before : find_product i shop.warehouse ≡ some product =
        subst (λ ps. find_row (λ (p : Product). p.id) i ps ≡ some product) s.kept found in
      elim (Bool-cases (m.product_id == i)) [
        | inl k ↦ fresh_at i product h (eq_of_test m.product_id i k) found_before policy above
        | inr k ↦ omega (
          arith,
          maybe_resolve_low_stock-le str r.0.recovered now i
              (maybe_raise_low_stock str r.0.signal id shop.alerts),
          raise_other i k,
          h i product found_before policy
              (subst (λ x. product.reorder_level <ℤ x) (a.others i k) above),
        )
      ]

  alerted_at :
      (product : Product)
      → find_product m.product_id shop.warehouse ≡ some product
      → pos 0 <ℤ product.reorder_level
      → m.signed_delta <ℤ pos 0
      → on_hand m.product_id r.1 ≤ℤ product.reorder_level
      → 1 ≤ low_stock_alerts str m.product_id final.alerts
  alerted_at product found policy outflow low =
      let same : s.product ≡ product = some_injective s.product product (sym s.found ∙ found) in
      alerted_here (subst (λ p. pos 0 <ℤ p.reorder_level) (sym same) policy) outflow
        (subst (λ p. on_hand m.product_id r.1 ≤ℤ p.reorder_level) (sym same) low)

-- What a movement does, with the calls that follow it.
pub record IsWatched (str : ℕ → String) (m : Movement) (shop : Shop) (r : StockMovement × Shop)
    : Type 0 where
  pub moved :
      on_hand m.product_id r.1.warehouse ≡ on_hand m.product_id shop.warehouse +ℤ m.signed_delta
  pub fresh : IsFresh str shop → IsFresh str r.1
  pub alerted :
      (product : Product)
      → find_product m.product_id shop.warehouse ≡ some product
      → pos 0 <ℤ product.reorder_level
      → m.signed_delta <ℤ pos 0
      → on_hand m.product_id r.1.warehouse ≤ℤ product.reorder_level
      → 1 ≤ low_stock_alerts str m.product_id r.1.alerts

pub after_commit-IsWatched :
    (str : ℕ → String)
    → ((i j : ℕ) → str i ≡ str j → i ≡ j)
    → (m : Movement) (shop : Shop) (id now : ℕ) (r : Applied × Warehouse)
    → IsApplied m shop.warehouse r
    → IsSignalled m shop.warehouse r
    → IsWatched str m shop (after_commit str id now shop.alerts r)
unfolding after_commit final
after_commit-IsWatched str inj m shop id now r a s = record {
  moved = a.moved;
  fresh = after_commit-IsFresh str inj m shop r a s id now;
  alerted = alerted_at str inj m shop r a s id now;
}
