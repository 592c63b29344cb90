-- ===== src/Base/Table.antt =====
-- A database table as the list of its rows in the order of insertion: lookup by primary key,
-- the flush of a changed row, and `SELECT … WHERE`.
use Prim.Native.Nat.{ℕ}
use mathlib.Core.Path.{◌≡◌, refl}
use mathlib.Core.Bool.{Bool, true}
use mathlib.Core.Option.{Option, none, some}
use mathlib.Core.Logic.{inl, inr}
use mathlib.Core.List.{List, [], ◌∷◌, ◌++◌, Mem, mem-cons_self, mem-cons_of_mem}
use finguard.Base.Lists.{All, All-map}
use native.Mathlib.Omega.{arith}
use finguard.Base.Tests.{Bool-cases, Option-cases, eq_of_test, eq_test_self, ◌==◌, if◌then◌else◌}

module _ {ℓ} {A : Type ℓ} (key : A → ℕ) where
  -- `session.get(Model, id)`
  unfoldable pub find_row : ℕ → List A → Option A
  find_row k [] = none
  find_row k (x ∷ xs) = if key x == k then some x else find_row k xs

  -- The flush of a row that is already in the table.
  unfoldable pub save_row : A → List A → List A
  save_row r [] = []
  save_row r (x ∷ xs) = if key x == key r then r ∷ xs else x ∷ save_row r xs

  pub find_row-key : (k : ℕ) (xs : List A) (r : A) → find_row k xs ≡ some r → key r ≡ k
  unfolding find_row
  find_row-key k [] r h = ground arith
  find_row-key k (x ∷ xs) r h = ground (arith, find_row-key k xs r)

  pub find_row-save_row :
      (k j : ℕ) (r old : A) (xs : List A)
      → key r ≡ k
      → find_row k xs ≡ some old
      → find_row j (save_row r xs) ≡ (if k == j then some r else find_row j xs)
  unfolding find_row save_row
  find_row-save_row k j r old [] e h = ground arith
  find_row-save_row k j r old (x ∷ xs) e h = ground (arith, find_row-save_row k j r old xs)

  -- Of two flushes of one row the later one stands.
  pub save_row-save_row :
      (r r' : A) (xs : List A) → key r' ≡ key r → save_row r (save_row r' xs) ≡ save_row r xs
  unfolding save_row
  save_row-save_row r r' [] e = refl
  save_row-save_row r r' (x ∷ xs) e = ground (arith, save_row-save_row r r' xs e)

  -- The flush of an unchanged row.
  pub save_row-same : (k : ℕ) (r : A) (xs : List A) → find_row k xs ≡ some r → save_row r xs ≡ xs
  unfolding save_row find_row
  save_row-same k r [] h = refl
  save_row-same k r (x ∷ xs) h = elim (Bool-cases (key x == k)) [
    | inl same ↦ let found : x ≡ r = cc (rw same at h) in rw (← found, eq_test_self (key x)) refl
    | inr other ↦
        let rest = rw other at h in
        let named = find_row-key k xs r rest in rw (named, other, save_row-same k r xs rest) refl
  ]

  pub find_row-append :
      (j : ℕ) (r : A) (xs : List A)
      → find_row (key r) xs ≡ none
      → find_row j (xs ++ r ∷ []) ≡ (if key r == j then some r else find_row j xs)
  unfolding find_row
  find_row-append j r [] h = refl
  find_row-append j r (x ∷ xs) h = ground (arith, find_row-append j r xs)

module _ {ℓ} {A : Type ℓ} (key : A → ℕ) where
  -- `{key(x): x for x in xs}.get(k)`: of two rows with one key the later one.
  unfoldable pub last_row : ℕ → List A → Option A
  last_row k [] = none
  last_row k (x ∷ xs) = elim (last_row k xs) [
    | some later ↦ some later
    | none ↦ if key x == k then some x else none
  ]

  pub last_row-Mem : (k : ℕ) (xs : List A) (r : A) → last_row k xs ≡ some r → Mem r xs × (key r ≡ k)
  unfolding last_row
  last_row-Mem k [] r h = cc
  last_row-Mem k (x ∷ xs) r h = elim (Option-cases (last_row k xs)) [
    | inl e ↦ elim (Bool-cases (key x == k)) [
      | inl same ↦
          let found : x ≡ r = cc (rw (e, same) at h) in
          rw (← found) (mem-cons_self, eq_of_test (key x) k same)
      | inr other ↦ cc (rw (e, other) at h)
    ]
    | inr (later, e) ↦
        let found : later ≡ r = cc (rw e at h) in
        let (m, same) = last_row-Mem k xs later e in rw (← found) (mem-cons_of_mem x m, same)
  ]

module _ {ℓ} {A : Type ℓ} where
  -- `SELECT … WHERE p`
  unfoldable pub select : (A → Bool) → List A → List A
  select p [] = []
  select p (x ∷ xs) = let rest = select p xs in if p x then x ∷ rest else rest

  pub select-append :
      (p : A → Bool) (xs ys : List A) → select p (xs ++ ys) ≡ select p xs ++ select p ys
  unfolding select
  select-append p [] ys = refl
  select-append p (x ∷ xs) ys = ground (arith, select-append p xs ys)

  pub select-snoc :
      (p : A → Bool) (xs : List A) (x : A)
      → select p (xs ++ x ∷ []) ≡ (if p x then select p xs ++ x ∷ [] else select p xs)
  unfolding select
  select-snoc p [] x = refl
  select-snoc p (y ∷ ys) x = ground (arith, select-snoc p ys x)

module _ {ℓ κ} {A : Type ℓ} where
  pub select-All :
      (P : A → Type κ) (p : A → Bool) (xs : List A)
      → All P xs
      → All (λ x. P x × (p x ≡ true)) (select p xs)
  unfolding select
  select-All P p [] h = tt
  select-All P p (x ∷ xs) h = elim (Bool-cases (p x)) [
    | inl k ↦ rw (k, select) ((h.0, k), select-All P p xs h.1)
    | inr k ↦ rw (k, select) (select-All P p xs h.1)
  ]

module _ {ℓ} {A : Type ℓ} where
  pub All-Mem : (xs : List A) → All (λ x. Mem x xs) xs
  All-Mem [] = tt
  All-Mem (x ∷ xs) = (
    mem-cons_self,
    All-map (λ y. Mem y xs) (λ y. Mem y (x ∷ xs)) xs (λ y m. mem-cons_of_mem x m) (All-Mem xs),
  )
