-- ===== src/Inventory/Ledger.antt =====
-- A ledger of stock movements that can be replayed.
use finguard.Base.{ℕ, ◌+◌, ◌≡◌, ◌⊎◌, refl, max, List, [], ◌∷◌, ◌++◌, arith}
use finguard.Base.Int.{ℤ, ◌+ℤ◌, neg_ℤ}
use finguard.Inventory.Rows.{
  StockMovement, MovementType, receipt, return_in, adjustment, max_sequence,
}

-- The signed change that a movement type allows for its (positive) quantity.
abbrev pub IsDelta : MovementType → ℤ → ℤ → Type 0
IsDelta receipt quantity delta = delta ≡ quantity
IsDelta return_in quantity delta = delta ≡ quantity
IsDelta adjustment quantity delta = (delta ≡ quantity) ⊎ (delta ≡ neg_ℤ quantity)
IsDelta kind quantity delta = delta ≡ neg_ℤ quantity

-- A movement follows the balance `before`.
pub record Follows (before : ℤ) (m : StockMovement) : Type 0 where
  pub delta : ℤ
  pub directed : IsDelta m.movement_type m.quantity delta
  pub balance : m.balance_after ≡ before +ℤ delta

-- Replaying the movements from one balance and sequence number ends at another.
abbrev pub Replays : ℤ → ℕ → List StockMovement → ℤ → ℕ → Type 0
Replays b s [] b' s' = (b ≡ b') × (s ≡ s')
Replays b s (m ∷ ms) b' s' =
    Follows b m × (m.sequence ≡ s + 1) × Replays m.balance_after (s + 1) ms b' s'

pub Replays-snoc :
    (b : ℤ) (s : ℕ) (ms : List StockMovement) (b' : ℤ) (s' : ℕ) (m : StockMovement)
    → Replays b s ms b' s'
    → Follows b' m
    → m.sequence ≡ s' + 1
    → Replays b s (ms ++ m ∷ []) m.balance_after (s' + 1)
Replays-snoc b s [] b' s' m (e, k) f n = rw (e, k) (f, n, (refl, refl))
Replays-snoc b s (x ∷ ms) b' s' m (g, k, r) f n =
    (g, k, Replays-snoc x.balance_after (s + 1) ms b' s' m r f n)

-- The numbers of a replayed ledger run from one up without a gap.
pub max_sequence-Replays :
    (b : ℤ) (s : ℕ) (ms : List StockMovement) (b' : ℤ) (s' : ℕ)
    → Replays b s ms b' s'
    → max s (max_sequence ms) ≡ s'
unfolding max_sequence
max_sequence-Replays b s [] b' s' (e, k) = omega (arith, k)
max_sequence-Replays b s (m ∷ ms) b' s' (g, k, r) =
    omega (arith, k, max_sequence-Replays m.balance_after (s + 1) ms b' s' r)
