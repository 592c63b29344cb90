-- ===== src/Inventory/Cost.antt =====
-- `_weighted_avg` (backend/src/domains/inventory/service.py): the exact quotient, rounded to a cent
-- by `Decimal.quantize`, which takes the even neighbour on a tie.
pub mod Rounding
pub mod Average
use finguard.Base.{ℕ, suc, ◌+◌, ◌*◌, ◌/◌, ◌%◌, ltb, Bool, if◌then◌else◌}
use finguard.Base.Int.{ℤ, pos, negsuc, ◌+ℤ◌, ◌-ℤ◌, ◌*ℤ◌, leb_ℤ, pos_part}

-- `ROUND_HALF_EVEN` of `n / d`.
unfoldable pub round_half_even : ℕ → ℕ → ℕ
round_half_even n d =
    let q = n / d in
    let r = n % d in if ltb (2 * r) d then q else if ltb d (2 * r) then q + 1 else q + q % 2

unfoldable pub quantize : ℤ → ℕ → ℤ
unfolding round_half_even
quantize (pos n) d = pos (round_half_even n d)
quantize (negsuc n) d = pos 0 -ℤ pos (round_half_even (suc n) d)

-- `_weighted_avg`
unfoldable pub weighted_avg : ℤ → ℤ → ℤ → ℤ → ℤ
unfolding quantize
weighted_avg qty_before avg_before qty_in cost_in =
    let total_qty = qty_before +ℤ qty_in in
    let total_value = qty_before *ℤ avg_before +ℤ qty_in *ℤ cost_in in
    if leb_ℤ total_qty (pos 0) then cost_in else quantize total_value (pos_part total_qty)
