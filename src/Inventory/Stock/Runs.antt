-- ===== src/Inventory/Stock/Runs.antt =====
-- Runs of the stock operations keep the warehouse consistent.
use mathlib.Core.Path.{subst}
use finguard.Base.{ℕ, ◌≡◌, inl, inr, refl, false, not, Option, if◌then◌else◌, Bool-cases, is_some}
use finguard.Base.Int.{ℤ, pos, ltb_ℤ, eqb_ℤ, int_laws, neg_ℤ, abs_ℤ}
use finguard.Core.Errors.{Result, ok, Ensures, Ensures-raise_if, Ensures-map, raise_if, ◌>>◌}
use finguard.Core.Errors.AppError.{unprocessable}
use finguard.Inventory.Rows.{
  MovementType, receipt, issue, sale, return_in, adjustment, transfer, is_inbound, is_adjustment,
  Warehouse,
}
use finguard.Inventory.Movements.{
  Movement, apply_movement, Applied, InventoryMovementCreate, requested, record_movement,
  StockAdjustmentCreate, adjusted, adjust_stock, purchased, record_purchase_receipt,
}
use finguard.Inventory.Ledger.{IsDelta}
use finguard.Inventory.Stock.{IsConsistent, IsApplied, apply_movement-IsApplied}

-- The operations of the service on a warehouse.
pub data StockStep : Warehouse → Warehouse → Type 0 where
  recorded :
      (i : ℕ) (body : InventoryMovementCreate) (actor : Option ℕ) (now : ℕ) (w : Warehouse)
      (r : Applied × Warehouse)
      → record_movement i body actor now w ≡ ok r
      → StockStep w r.1
  adjusted_by :
      (i : ℕ) (body : StockAdjustmentCreate) (actor : Option ℕ) (now : ℕ) (w : Warehouse)
      (r : Applied × Warehouse)
      → adjust_stock i body actor now w ≡ ok r
      → StockStep w r.1
  bought :
      (i : ℕ) (quantity unit_cost : ℤ) (expense : ℕ) (actor : Option ℕ) (now : ℕ) (w : Warehouse)
      (r : Applied × Warehouse)
      → record_purchase_receipt i quantity unit_cost expense actor now w ≡ ok r
      → StockStep w r.1

pub data StockReach : Warehouse → Warehouse → Type 0 where
  start : (w : Warehouse) → StockReach w w
  next : {a b c : Warehouse} → StockReach a b → StockStep b c → StockReach a c

pub requested-IsDelta :
    (kind : MovementType) (quantity : ℤ)
    → is_adjustment kind ≡ false
    → IsDelta kind quantity (if is_inbound kind then quantity else neg_ℤ quantity)
requested-IsDelta receipt q h = refl
requested-IsDelta issue q h = refl
requested-IsDelta sale q h = refl
requested-IsDelta return_in q h = refl
requested-IsDelta adjustment q h = cc
requested-IsDelta transfer q h = refl

neg_neg : (x : ℤ) → x ≡ neg_ℤ (neg_ℤ x)
neg_neg x = omega int_laws

pub adjusted-IsDelta : (quantity : ℤ) → IsDelta adjustment (abs_ℤ quantity) quantity
adjusted-IsDelta q = elim (Bool-cases (ltb_ℤ q (pos 0))) [
  | inl k ↦ rw k (inr (neg_neg q))
  | inr k ↦ rw k (inl refl)
]

abbrev pub Keeps : Warehouse → Result (Applied × Warehouse) → Type 0
Keeps w = Ensures (λ (r : Applied × Warehouse). IsConsistent w → IsConsistent r.1)

keeps :
    (m : Movement) (now : ℕ) (w : Warehouse)
    → IsDelta m.movement_type m.quantity m.signed_delta
    → Keeps w (apply_movement m now w)
keeps m now w d =
    Ensures-map (IsApplied m w) _ (apply_movement m now w) (λ r a. a.consistent)
      (apply_movement-IsApplied m now w d)

pub record_movement-Keeps :
    (i : ℕ) (body : InventoryMovementCreate) (actor : Option ℕ) (now : ℕ) (w : Warehouse)
    → Keeps w (record_movement i body actor now w)
unfolding record_movement
record_movement-Keeps i body actor now w =
    Ensures-raise_if (λ (r : Applied × Warehouse). IsConsistent w → IsConsistent r.1)
      (is_adjustment body.movement_type) unprocessable
      (apply_movement (requested i body actor) now w)
      (λ k.
        keeps (requested i body actor) now w (requested-IsDelta body.movement_type body.quantity k))

pub adjust_stock-Keeps :
    (i : ℕ) (body : StockAdjustmentCreate) (actor : Option ℕ) (now : ℕ) (w : Warehouse)
    → Keeps w (adjust_stock i body actor now w)
unfolding adjust_stock
adjust_stock-Keeps i body actor now w =
    let P = λ (r : Applied × Warehouse). IsConsistent w → IsConsistent r.1 in
    let m = adjusted i body actor in
    Ensures-raise_if P (not (is_some body.reason)) unprocessable
      (raise_if (eqb_ℤ body.quantity (pos 0)) unprocessable >> apply_movement m now w)
      (λ k.
        Ensures-raise_if P (eqb_ℤ body.quantity (pos 0)) unprocessable (apply_movement m now w)
          (λ j. keeps m now w (adjusted-IsDelta body.quantity)))

step-IsConsistent : {a b : Warehouse} → StockStep a b → IsConsistent a → IsConsistent b
unfolding record_purchase_receipt
step-IsConsistent (StockStep.recorded i body actor now w r e) h =
    subst (Keeps w) e (record_movement-Keeps i body actor now w) h
step-IsConsistent (StockStep.adjusted_by i body actor now w r e) h =
    subst (Keeps w) e (adjust_stock-Keeps i body actor now w) h
step-IsConsistent (StockStep.bought i quantity unit_cost expense actor now w r e) h =
    subst (Keeps w) e (keeps (purchased i quantity unit_cost expense actor) now w refl) h

-- If the stock of every product is what its movements replay to, numbered from one without a
-- gap, and is not negative, then this stays so through any sequence of recorded movements,
-- adjustments and purchase receipts that return.
pub StockReach-IsConsistent : {a b : Warehouse} → StockReach a b → IsConsistent a → IsConsistent b
StockReach-IsConsistent (StockReach.start w) h = h
StockReach-IsConsistent (StockReach.next r s) h = step-IsConsistent s (StockReach-IsConsistent r h)
