-- ===== src/Finance/Purchases/Received.antt =====
-- A purchase books its expense and receives its stock, or does neither.
use mathlib.Core.Path.{subst}
use finguard.Base.{
  ℕ, ◌≡◌, ◌≤◌, refl, sym, ap, ◌∙◌, true, Option, none, some, Bool-cases, inl, inr, arith, [], ◌∷◌,
  ◌++◌, String, ◌==◌, eq_of_test, if_cases,
}
use finguard.Base.Int.{pos, ◌+ℤ◌, ◌<ℤ◌, lt→ltb_ℤ}
use finguard.Base.Table.{find_row}
use finguard.Core.Errors.{Result, ok, err, Ensures, Returns, ◌>>=◌}
use finguard.Finance.Rows.{Expense}
use finguard.Finance.Expenses.{expense_row, apply_expense_side_effects}
use finguard.Finance.Purchases.{
  Store, StockPurchaseCreate, purchase_writes, purchase_made, purchase_booked, reconciled,
  after_purchase, create_stock_purchase,
}
use finguard.Inventory.Rows.{
  Product, StockLevel, StockMovement, Warehouse, find_product, find_level,
}
use finguard.Inventory.Movements.{Movement, Applied, purchased, record_purchase_receipt}
use finguard.Inventory.Stock.{on_hand, on_hand_of, IsApplied}
use finguard.Inventory.LowStock.{Shop, is_replenished, reconcile_low_stock_alert}
use finguard.Inventory.LowStock.Signals.{IsSignalled}
use finguard.Inventory.LowStock.Alerting.{
  low_stock_alerts, maybe_resolve_low_stock-le, maybe_resolve_low_stock-none,
}
use finguard.Inventory.LowStock.Fresh.{IsFresh}
use finguard.Inventory.LowStock.Calls.{IsMoved, apply_movement-IsMoved}

is_replenished-above :
    (product : Product) (o : Option StockLevel)
    → pos 0 <ℤ product.reorder_level
    → product.reorder_level <ℤ on_hand_of o
    → is_replenished product o ≡ true
is_replenished-above product none policy above = ground (arith, policy, above)
is_replenished-above product (some level) policy above =
    rw
      (
        lt→ltb_ℤ (pos 0) product.reorder_level policy,
        lt→ltb_ℤ product.reorder_level level.quantity_on_hand above,
      )
      refl

-- What the last call does to the alerts: it cannot fail, as the product is there.
record IsReconciled (str : ℕ → String) (i : ℕ) (shop : Shop) (after : Shop) : Type 0 where
  same : after.warehouse ≡ shop.warehouse
  fewer : (j : ℕ) → low_stock_alerts str j after.alerts ≤ low_stock_alerts str j shop.alerts
  cleared :
      (product : Product)
      → find_product i shop.warehouse ≡ some product
      → pos 0 <ℤ product.reorder_level
      → product.reorder_level <ℤ on_hand i shop.warehouse
      → low_stock_alerts str i after.alerts ≡ 0

some_injective {ℓ} : {A : Type ℓ} (a b : A) → some a ≡ some b → a ≡ b
some_injective a b h = cc

reconcile-IsReconciled :
    (str : ℕ → String) (i now : ℕ) (shop : Shop) (product : Product)
    → find_product i shop.warehouse ≡ some product
    → Returns (IsReconciled str i shop) (reconcile_low_stock_alert str i now shop)
unfolding reconcile_low_stock_alert
reconcile-IsReconciled str i now shop product found = rw found (
    if_cases (IsReconciled str i shop) (is_replenished product (find_level i shop.warehouse.levels))
      _ _
      (λ k. record {
        same = refl;
        fewer = λ j. maybe_resolve_low_stock-le str (some i) now j shop.alerts;
        cleared = λ p f policy above. maybe_resolve_low_stock-none str i now shop.alerts;
      })
      (λ k. record {
        same = refl;
        fewer = λ j. omega arith;
        cleared = λ p f policy above.
            let same : p ≡ product = some_injective p product (sym f ∙ found) in
            let yes =
              is_replenished-above product (find_level i shop.warehouse.levels)
                (subst (λ q. pos 0 <ℤ q.reorder_level) same policy)
                (subst (λ q. q.reorder_level <ℤ on_hand i shop.warehouse) same above) in
            ground (arith, yes, k);
      }))

-- A purchase that returns: one expense, one receipt that refers to it, the stock with it, and no
-- alert that says that the product is low if it is not.
pub record IsPurchased (str : ℕ → String) (body : StockPurchaseCreate) (id now : ℕ) (store : Store)
    (made : Expense × StockMovement) (after : Store) : Type 0 where
  pub expense : made.0 ≡ expense_row body.expense id now
  pub booked : after.db.expenses ≡ store.db.expenses ++ made.0 ∷ []
  pub linked : made.1.reference ≡ some ("expense", id)
  pub logged : after.shop.warehouse.movements ≡ store.shop.warehouse.movements ++ made.1 ∷ []
  pub moved :
      on_hand body.product_id after.shop.warehouse
      ≡ on_hand body.product_id store.shop.warehouse +ℤ body.quantity
  pub fresh : IsFresh str store.shop → IsFresh str after.shop
  pub cleared :
      (product : Product)
      → find_product body.product_id store.shop.warehouse ≡ some product
      → pos 0 <ℤ product.reorder_level
      → product.reorder_level <ℤ on_hand body.product_id after.shop.warehouse
      → low_stock_alerts str body.product_id after.shop.alerts ≡ 0

-- A call returns what `P` says, or leaves the store as it was.
abbrev pub Outcome {ℓ} : {A : Type ℓ} → (A → Store → Type 0) → Store → Result A × Store → Type 0
Outcome P store (ok a, after) = P a after
Outcome P store (err e, after) = after ≡ store

reconciled-Outcome :
    (Q : Shop → Type 0) (P : Expense × StockMovement → Store → Type 0)
    (made : Expense × StockMovement) (store middle : Store) (x : Result Shop)
    → Returns Q x
    → ((shop : Shop) → Q shop → P made (record middle { shop = shop }))
    → Outcome P store (reconciled made middle x)
reconciled-Outcome Q P made store middle (ok shop) h f = f shop h
reconciled-Outcome Q P made store middle (err e) h f = elim h [ ]

module _ (str : ℕ → String) (body : StockPurchaseCreate) (id : ℕ) (actor : Option ℕ) (now : ℕ)
    (store : Store) where
  m : Movement
  m = purchased body.product_id body.quantity body.unit_cost id actor

  module _ (r : Applied × Warehouse) (a : IsApplied m store.shop.warehouse r)
      (s : IsSignalled m store.shop.warehouse r) (after : Shop)
      (q : IsReconciled str body.product_id
        (record { warehouse = r.1; alerts = store.shop.alerts })
        after) where
    found_before :
        (i : ℕ) (product : Product)
        → find_product i after.warehouse ≡ some product
        → find_product i store.shop.warehouse ≡ some product
    unfolding m
    found_before i product f =
        subst (λ ps. find_row (λ (p : Product). p.id) i ps ≡ some product) s.kept
          (subst (λ w. find_product i w ≡ some product) q.same f)

    found_middle :
        (i : ℕ) (product : Product)
        → find_product i store.shop.warehouse ≡ some product
        → find_product i r.1 ≡ some product
    unfolding m
    found_middle i product f =
        subst (λ ps. find_row (λ (p : Product). p.id) i ps ≡ some product) (sym s.kept) f

    -- The product is no longer low.
    product_cleared :
        (product : Product)
        → find_product body.product_id store.shop.warehouse ≡ some product
        → pos 0 <ℤ product.reorder_level
        → product.reorder_level <ℤ on_hand body.product_id after.warehouse
        → low_stock_alerts str body.product_id after.alerts ≡ 0
    unfolding m
    product_cleared product f policy above =
        q.cleared product (found_middle body.product_id product f) policy
          (subst (λ w. product.reorder_level <ℤ on_hand body.product_id w) q.same above)

    purchased-IsFresh : IsFresh str store.shop → IsFresh str after
    unfolding m
    purchased-IsFresh h i product f policy above = elim (Bool-cases (body.product_id == i)) [
      | inl k ↦
          let e = eq_of_test body.product_id i k in
          subst (λ j. low_stock_alerts str j after.alerts ≡ 0) e
            (product_cleared product
              (subst (λ j. find_product j store.shop.warehouse ≡ some product) (sym e)
                (found_before i product f))
              policy
              (subst (λ j. product.reorder_level <ℤ on_hand j after.warehouse) (sym e) above))
      | inr k ↦
          let above_before =
            subst (λ x. product.reorder_level <ℤ x) (a.others i k)
              (subst (λ w. product.reorder_level <ℤ on_hand i w) q.same above) in
          omega (arith, q.fewer i, h i product (found_before i product f) policy above_before)
    ]

  received :
      (call : Result (Applied × Warehouse))
      → Ensures (IsMoved m store.shop.warehouse) call
      → Outcome (IsPurchased str body id now store) store (
          after_purchase str body.product_id now store (
            call >>= λ r. ok (
              purchase_made
                (purchase_booked body id now store.db).0
                (purchase_booked body id now store.db).1
                store.shop
                r)))
  unfolding m purchase_booked apply_expense_side_effects
  received (err e) h = refl
  received (ok r) (a, s) =
      let middle : Shop = record { warehouse = r.1; alerts = store.shop.alerts } in
      let booked = purchase_booked body id now store.db in
      let found =
        subst (λ ps. find_row (λ (p : Product). p.id) body.product_id ps ≡ some s.product)
          (sym s.kept) s.found in
      reconciled-Outcome (IsReconciled str body.product_id middle)
        (IsPurchased str body id now store) (booked.0, r.0.movement) store
        (purchase_made booked.0 booked.1 store.shop r).1 _
        (reconcile-IsReconciled str body.product_id now middle s.product found)
        (λ after q. record {
          expense = refl;
          booked = refl;
          linked = s.reference;
          logged = ap (λ (w : Warehouse). w.movements) q.same ∙ s.logged;
          moved = ap (on_hand body.product_id) q.same ∙ a.moved;
          fresh = purchased-IsFresh r a s after q;
          cleared = product_cleared r a s after q;
        })

  -- A stock purchase that raises leaves the tables as they were. One that returns has added the
  -- one expense of its request and the one stock movement, which refers to that expense, has
  -- raised the stock of the product by the quantity, and leaves the product without an active
  -- low-stock alert if it has a positive reorder level and more than that in stock; if no
  -- product had a stale alert before, none has one after.
  pub create_stock_purchase-IsPurchased :
      Outcome
        (IsPurchased str body id now store)
        store
        (create_stock_purchase str body id actor now store)
  unfolding m create_stock_purchase purchase_writes record_purchase_receipt purchase_booked
  create_stock_purchase-IsPurchased =
      received _ (apply_movement-IsMoved m now store.shop.warehouse refl)
