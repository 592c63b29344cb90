-- ===== src/Inventory/Stock.antt =====
-- Every operation keeps the stock levels equal to their ledgers, and none below zero.
pub mod Runs
use mathlib.Core.Path.{subst}
use finguard.Base.{
  ℕ, ◌+◌, ◌==◌, ◌≡◌, inl, inr, refl, sym, ap, ◌∙◌, false, not, ◌&&◌, Option, none, some, List, [],
  ◌∷◌, ◌++◌, arith, if◌then◌else◌, Bool-cases, eq_of_test, eq_test_self, is_some,
}
use finguard.Base.Int.{ℤ, pos, ◌+ℤ◌, ◌≤ℤ◌, ltb_ℤ, eqb_ℤ, ltb→le_ℤ, int_laws, neg_ℤ, abs_ℤ}
use finguard.Base.Table.{select-snoc, find_row-key, find_row-save_row, find_row-append}
use finguard.Core.Errors.{
  Result, ok, Ensures, Ensures-raise_if, Ensures-or_raise, Ensures-map, raise_if, ◌>>◌,
}
use finguard.Core.Errors.AppError.{not_found, unprocessable}
use finguard.Inventory.Rows.{
  MovementType, receipt, issue, sale, return_in, adjustment, transfer, is_inbound, is_adjustment,
  Product, StockLevel, StockMovement, Warehouse, find_product, find_level, movements_of, zero_level,
  created_level, get_or_create_level, last_sequence,
}
use finguard.Inventory.Movements.{
  Movement, next_level, movement_row, store_movement, move_level, apply_movement, Applied,
  InventoryMovementCreate, requested, record_movement, StockAdjustmentCreate, adjusted,
  adjust_stock, purchased, record_purchase_receipt, LowStockSignal, low_stock_signal, recovered_id,
}
use finguard.Inventory.Ledger.{IsDelta, Replays, Replays-snoc, max_sequence-Replays}

abbrev pub on_hand_of : Option StockLevel → ℤ
on_hand_of none = pos 0
on_hand_of (some level) = level.quantity_on_hand

-- `quantity_on_hand` of a product; a missing row counts as zero.
abbrev pub on_hand : ℕ → Warehouse → ℤ
on_hand i w = on_hand_of (find_level i w.levels)

-- The stock of one product: not negative, and what its ledger replays to.
pub record IsStocked (w : Warehouse) (i : ℕ) : Type 0 where
  pub solvent : pos 0 ≤ℤ on_hand i w
  pub ledger : Replays (pos 0) 0 (movements_of i w) (on_hand i w) (last_sequence i w)

IsStocked-of :
    (w : Warehouse) (i : ℕ) (b : ℤ) (s : ℕ)
    → on_hand i w ≡ b
    → pos 0 ≤ℤ b
    → Replays (pos 0) 0 (movements_of i w) b s
    → IsStocked w i
unfolding last_sequence
IsStocked-of w i b s e lo r =
    let last : s ≡ last_sequence i w =
      omega (arith, max_sequence-Replays (pos 0) 0 (movements_of i w) b s r) in
    record { solvent = rw e lo; ledger = rw (e, ← last) r }

abbrev pub IsConsistent : Warehouse → Type 0
IsConsistent w = (i : ℕ) → IsStocked w i

-- The level row that `get_or_create_level` gives back.
pub record IsLevel (i : ℕ) (levels : List StockLevel) (r : StockLevel × List StockLevel)
    : Type 0 where
  pub row : find_level i r.1 ≡ some r.0
  pub key : r.0.product_id ≡ i
  pub same : (j : ℕ) → on_hand_of (find_level j r.1) ≡ on_hand_of (find_level j levels)

append_zero :
    (i : ℕ) (levels : List StockLevel)
    → find_level i levels ≡ none
    → (j : ℕ)
    → find_level j (levels ++ zero_level i ∷ [])
      ≡ (if i == j then some (zero_level i) else find_level j levels)
append_zero i levels h j =
    find_row-append (λ (l : StockLevel). l.product_id) j (zero_level i) levels h

zero_same :
    (i j : ℕ) (levels : List StockLevel)
    → find_level i levels ≡ none
    → on_hand_of (if i == j then some (zero_level i) else find_level j levels)
      ≡ on_hand_of (find_level j levels)
zero_same i j levels h = elim (Bool-cases (i == j)) [
  | inl k ↦ rw (k, ← eq_of_test i j k, h) refl
  | inr k ↦ rw k refl
]

created-IsLevel :
    (i : ℕ) (levels : List StockLevel) (o : Option StockLevel)
    → find_level i levels ≡ o
    → IsLevel i levels (created_level i levels o)
created-IsLevel i levels (some level) h = record {
  row = h;
  key = find_row-key (λ (l : StockLevel). l.product_id) i levels level h;
  same = λ j. refl;
}
created-IsLevel i levels none h = record {
  row = append_zero i levels h i ∙ rw (eq_test_self i) refl;
  key = refl;
  same = λ j. ap on_hand_of (append_zero i levels h j) ∙ zero_same i j levels h;
}

module _ (m : Movement) (now : ℕ) (w : Warehouse) (level : StockLevel) (levels : List StockLevel)
    (found : IsLevel m.product_id w.levels (level, levels)) where
  after : Warehouse
  after = (store_movement m level levels now w).1

  level_after :
      (j : ℕ)
      → on_hand j after
        ≡ (if m.product_id == j then level.quantity_on_hand +ℤ m.signed_delta else on_hand j w)
  unfolding after store_movement
  level_after j =
      ap on_hand_of (
        find_row-save_row (λ (l : StockLevel). l.product_id) m.product_id j (next_level m level)
          level levels found.key found.row)
      ∙ elim (Bool-cases (m.product_id == j)) [ inl k ↦ rw k refl | inr k ↦ rw k (found.same j) ]

  movements_after :
      (j : ℕ)
      → movements_of j after ≡ (
          if m.product_id == j
          then movements_of j w
            ++ movement_row m (next_level m level) (last_sequence m.product_id w + 1) now ∷ []
          else movements_of j w)
  unfolding after store_movement
  movements_after j =
      select-snoc (λ (x : StockMovement). x.product_id == j) w.movements
        (movement_row m (next_level m level) (last_sequence m.product_id w + 1) now)

  level_before : level.quantity_on_hand ≡ on_hand m.product_id w
  level_before = ap on_hand_of (sym found.row) ∙ found.same m.product_id

module _ (m : Movement) (now : ℕ) (w : Warehouse) (level : StockLevel) (levels : List StockLevel)
    (found : IsLevel m.product_id w.levels (level, levels))
    (directed : IsDelta m.movement_type m.quantity m.signed_delta)
    (enough : pos 0 ≤ℤ level.quantity_on_hand +ℤ m.signed_delta) (h : IsConsistent w) where
  row : StockMovement
  row = movement_row m (next_level m level) (last_sequence m.product_id w + 1) now

  moved_ledger :
      Replays
        (pos 0)
        0
        (movements_of m.product_id w ++ row ∷ [])
        row.balance_after
        (last_sequence m.product_id w + 1)
  unfolding row
  moved_ledger =
      Replays-snoc (pos 0) 0 (movements_of m.product_id w) (on_hand m.product_id w)
        (last_sequence m.product_id w) row (h m.product_id).ledger
        (record {
          delta = m.signed_delta;
          directed = directed;
          balance = ap (λ b. b +ℤ m.signed_delta) (level_before m now w level levels found);
        })
        refl

  moved-IsStocked : IsStocked (after m now w level levels found) m.product_id
  unfolding row
  moved-IsStocked =
      IsStocked-of (after m now w level levels found) m.product_id
        (level.quantity_on_hand +ℤ m.signed_delta) (last_sequence m.product_id w + 1)
        (level_after m now w level levels found m.product_id ∙ rw (eq_test_self m.product_id) refl)
        enough
        (subst (λ ms. Replays (pos 0) 0 ms row.balance_after (last_sequence m.product_id w + 1))
          (sym (
            movements_after m now w level levels found m.product_id
            ∙ rw (eq_test_self m.product_id) refl))
          moved_ledger)

  after-IsConsistent : IsConsistent (after m now w level levels found)
  after-IsConsistent j = elim (Bool-cases (m.product_id == j)) [
    | inl k ↦
        subst (IsStocked (after m now w level levels found)) (eq_of_test m.product_id j k)
          moved-IsStocked
    | inr k ↦
        IsStocked-of (after m now w level levels found) j (on_hand j w) (last_sequence j w)
          (level_after m now w level levels found j ∙ rw k refl) (h j).solvent
          (subst (λ ms. Replays (pos 0) 0 ms (on_hand j w) (last_sequence j w))
            (sym (movements_after m now w level levels found j ∙ rw k refl)) (h j).ledger)
  ]

-- What `_apply` has done to the stock of the product, and to nothing else.
pub record IsApplied (m : Movement) (w : Warehouse) (r : Applied × Warehouse) : Type 0 where
  pub moved : on_hand m.product_id r.1 ≡ on_hand m.product_id w +ℤ m.signed_delta
  pub balance : r.0.movement.balance_after ≡ on_hand m.product_id r.1
  pub solvent : pos 0 ≤ℤ on_hand m.product_id r.1
  pub others : (j : ℕ) → (m.product_id == j) ≡ false → on_hand j r.1 ≡ on_hand j w
  pub consistent : IsConsistent w → IsConsistent r.1

stored-IsApplied :
    (m : Movement) (now : ℕ) (w : Warehouse) (level : StockLevel) (levels : List StockLevel)
    (found : IsLevel m.product_id w.levels (level, levels))
    (directed : IsDelta m.movement_type m.quantity m.signed_delta)
    (enough : pos 0 ≤ℤ level.quantity_on_hand +ℤ m.signed_delta) (signal : Option LowStockSignal)
    (recovered : Option ℕ)
    → IsApplied m w (
      record {
        movement = (store_movement m level levels now w).0;
        signal = signal;
        recovered = recovered;
      },
      (store_movement m level levels now w).1,
    )
unfolding after store_movement
stored-IsApplied m now w level levels found directed enough signal recovered =
    let here =
      level_after m now w level levels found m.product_id ∙ rw (eq_test_self m.product_id) refl in
    record {
      moved = here ∙ ap (λ b. b +ℤ m.signed_delta) (level_before m now w level levels found);
      balance = sym here;
      solvent = rw here enough;
      others = λ j k. level_after m now w level levels found j ∙ rw k refl;
      consistent = λ h. after-IsConsistent m now w level levels found directed enough h;
    }

move_level-IsApplied :
    (m : Movement) (product : Product) (level : StockLevel) (levels : List StockLevel) (now : ℕ)
    (w : Warehouse)
    → IsLevel m.product_id w.levels (level, levels)
    → IsDelta m.movement_type m.quantity m.signed_delta
    → Ensures (IsApplied m w) (move_level m product (level, levels) now w)
unfolding move_level
move_level-IsApplied m product level levels now w found directed =
    let after_delta = level.quantity_on_hand +ℤ m.signed_delta in
    Ensures-raise_if (IsApplied m w)
      (ltb_ℤ after_delta (pos 0) && not (is_adjustment m.movement_type)) unprocessable _
      (λ physical.
        Ensures-raise_if (IsApplied m w) (ltb_ℤ after_delta (pos 0)) unprocessable _ (λ enough.
          stored-IsApplied m now w level levels found directed
            (ltb→le_ℤ (level.quantity_on_hand +ℤ m.signed_delta) (pos 0) enough)
            (low_stock_signal product m (level.quantity_on_hand +ℤ m.signed_delta))
            (recovered_id product m level.quantity_on_hand
              (level.quantity_on_hand +ℤ m.signed_delta))))

-- A stock movement whose signed change fits its type, when it returns, changes the stock of its
-- product by that change and of no other product, leaves it not negative, logs the new balance,
-- and keeps a warehouse consistent.
pub apply_movement-IsApplied :
    (m : Movement) (now : ℕ) (w : Warehouse)
    → IsDelta m.movement_type m.quantity m.signed_delta
    → Ensures (IsApplied m w) (apply_movement m now w)
unfolding apply_movement get_or_create_level
apply_movement-IsApplied m now w directed =
    let level = created_level m.product_id w.levels (find_level m.product_id w.levels) in
    Ensures-or_raise (IsApplied m w) (find_product m.product_id w) not_found _ (λ product p.
      Ensures-raise_if (IsApplied m w) (not product.is_active) unprocessable
        (move_level m product level now w)
        (λ active.
          move_level-IsApplied m product level.0 level.1 now w
            (created-IsLevel m.product_id w.levels (find_level m.product_id w.levels) refl)
            directed))
