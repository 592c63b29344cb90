-- ===== src/Inventory/LowStock/Alerting.antt =====
-- What the calls after a movement do to the active alerts of each product.
use text.Mathlib.Text.{◌==◌ as str_eq}
use text.Mathlib.TextEquality.{eq_iff}
use text.Mathlib.TextLemmas.{append_cancel_left}
use finguard.Base.{
  ℕ, ◌≡◌, ◌≤◌, false, Option, none, some, Bool-cases, inl, inr, arith, List, String, ◌==◌,
}
use finguard.Alerts.{Alert, resolve_active_by_dedup}
use finguard.Alerts.Single.{count_active, resolve_each-count, resolve_each-none}
use finguard.Alerts.Single.Keys.{escalate_or_create_alert-other, escalate_or_create_alert-own}
use finguard.Inventory.Movements.{LowStockSignal}
use finguard.Inventory.LowStock.{
  low_stock_key, maybe_raise_low_stock, maybe_resolve_low_stock, low_stock_alert,
}

-- The active low-stock alerts of a product.
abbrev pub low_stock_alerts : (ℕ → String) → ℕ → List Alert → ℕ
low_stock_alerts str i alerts = count_active (low_stock_key str i) alerts

module _ (str : ℕ → String) where
  pub maybe_resolve_low_stock-le :
      (o : Option ℕ) (now j : ℕ) (alerts : List Alert)
      → low_stock_alerts str j (maybe_resolve_low_stock str o now alerts)
        ≤ low_stock_alerts str j alerts
  unfolding maybe_resolve_low_stock resolve_active_by_dedup
  maybe_resolve_low_stock-le none now j alerts = omega arith
  maybe_resolve_low_stock-le (some i) now j alerts =
      resolve_each-count (low_stock_key str i) (low_stock_key str j) _ now alerts

  pub maybe_resolve_low_stock-none :
      (i now : ℕ) (alerts : List Alert)
      → low_stock_alerts str i (maybe_resolve_low_stock str (some i) now alerts) ≡ 0
  unfolding maybe_resolve_low_stock resolve_active_by_dedup
  maybe_resolve_low_stock-none i now alerts = resolve_each-none (low_stock_key str i) _ now alerts

  pub maybe_raise_low_stock-some :
      (signal : LowStockSignal) (id : ℕ) (alerts : List Alert)
      → 1
        ≤ low_stock_alerts str signal.product_id (maybe_raise_low_stock str (some signal) id alerts)
  unfolding maybe_raise_low_stock
  maybe_raise_low_stock-some signal id alerts =
      escalate_or_create_alert-own (low_stock_alert str signal)
        (low_stock_key str signal.product_id) id alerts

  module _ (str-injective : (i j : ℕ) → str i ≡ str j → i ≡ j) where
    keys_differ :
        (i j : ℕ) → (i == j) ≡ false → str_eq (low_stock_key str i) (low_stock_key str j) ≡ false
    unfolding low_stock_key
    keys_differ i j ne = elim (Bool-cases (str_eq (low_stock_key str i) (low_stock_key str j))) [
      | inl k ↦
          let same : i ≡ j = str-injective i j (
            append_cancel_left "low_stock:" (str i) (str j)
              ((eq_iff (low_stock_key str i) (low_stock_key str j)).0 k)) in
          ground (arith, same, ne)
      | inr k ↦ k
    ]

    pub maybe_raise_low_stock-other :
        (signal : LowStockSignal) (id j : ℕ) (alerts : List Alert)
        → (signal.product_id == j) ≡ false
        → low_stock_alerts str j (maybe_raise_low_stock str (some signal) id alerts)
          ≡ low_stock_alerts str j alerts
    unfolding maybe_raise_low_stock
    maybe_raise_low_stock-other signal id j alerts ne =
        escalate_or_create_alert-other (low_stock_alert str signal)
          (low_stock_key str signal.product_id) (low_stock_key str j) id alerts
          (keys_differ signal.product_id j ne)
