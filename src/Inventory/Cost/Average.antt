-- ===== src/Inventory/Cost/Average.antt =====
-- The weighted average lies between the two costs that it averages.
use native.Mathlib.Nat.{mul-le-mul_left}
use finguard.Base.{ℕ, ◌+◌, ◌*◌, ◌≤◌, ◌<◌, ◌≡◌, refl, ap, ◌∙◌, false, arith}
use finguard.Base.Int.{pos, ◌+ℤ◌, ◌*ℤ◌, leb_ℤ, sub_ℕ}
use finguard.Inventory.Cost.{round_half_even, quantize, weighted_avg}
use finguard.Inventory.Cost.Rounding.{round_half_even-lower, round_half_even-upper}

pos_add : (a b : ℕ) → pos a +ℤ pos b ≡ pos (a + b)
unfolding ◌+ℤ◌
pos_add a b = ground arith

mul_parts : (x y : ℕ) → y ≡ 0 → sub_ℕ x y ≡ pos x
mul_parts x y h = ground arith

pos_mul : (a b : ℕ) → pos a *ℤ pos b ≡ pos (a * b)
unfolding ◌*ℤ◌
pos_mul a b = mul_parts (a * b + 0 * 0) (a * 0 + 0 * b) (omega arith) ∙ ap pos (omega arith)

module _ (q a p c lo hi : ℕ) (stocked : 0 < q + p) where
  average :
      weighted_avg (pos q) (pos a) (pos p) (pos c) ≡ pos (round_half_even (q * a + p * c) (q + p))
  unfolding weighted_avg quantize
  average = rw (pos_mul q a, pos_mul p c, pos_add (q * a) (p * c), pos_add q p, not_empty) refl
    where
      not_empty : leb_ℤ (pos (q + p)) (pos 0) ≡ false
      not_empty = ground (arith, stocked)

  -- For quantities that are not both zero, the weighted average of two costs is at least any
  -- lower bound and at most any upper bound of the two.
  pub weighted_avg-between :
      lo ≤ a
      → lo ≤ c
      → a ≤ hi
      → c ≤ hi
      → (r : ℕ) × (weighted_avg (pos q) (pos a) (pos p) (pos c) ≡ pos r) × (lo ≤ r) × (r ≤ hi)
  weighted_avg-between la lc ah ch = (
    round_half_even (q * a + p * c) (q + p),
    average,
    round_half_even-lower (q * a + p * c) (q + p) stocked lo
        (omega (arith, mul-le-mul_left q la, mul-le-mul_left p lc)),
    round_half_even-upper (q * a + p * c) (q + p) stocked hi
        (omega (arith, mul-le-mul_left q ah, mul-le-mul_left p ch)),
  )
