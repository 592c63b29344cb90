-- ===== src/Inventory/Cost/Rounding.antt =====
-- Rounding to a cent stays between the whole numbers around the quotient, and within half a cent.
use native.Mathlib.Nat.{div-add-mod', mod-lt, mul-le-mul_right}
use finguard.Base.{
  ℕ, ◌+◌, ◌*◌, ◌/◌, ◌%◌, ◌≤◌, ◌<◌, ◌≡◌, ◌⊎◌, inl, inr, refl, ltb, leb, Bool-cases, if◌then◌else◌,
  arith,
}
use finguard.Inventory.Cost.{round_half_even}

le_of_mul : (a b d : ℕ) → a * d < b * d + d → a ≤ b
le_of_mul a b d h = elim (Bool-cases (leb a b)) [
  | inl k ↦ ground (arith, k)
  | inr k ↦ let over : b + 1 ≤ a = ground (arith, k) in ground (arith, mul-le-mul_right d over, h)
]

add_one_mul : (q d : ℕ) → (q + 1) * d ≡ q * d + d
add_one_mul q d = omega arith

up_or_down :
    (q r d : ℕ)
    → (((if ltb (2 * r) d then q else if ltb d (2 * r) then q + 1 else q + q % 2) ≡ q)
        × (2 * r ≤ d))
      ⊎ (((if ltb (2 * r) d then q else if ltb d (2 * r) then q + 1 else q + q % 2) ≡ q + 1)
          × (d ≤ 2 * r))
up_or_down q r d = elim (Bool-cases (ltb (2 * r) d)) [
  | inl k ↦ inl (rw k refl, ground (arith, k))
  | inr k ↦ elim (Bool-cases (ltb d (2 * r))) [
    | inl j ↦ inr (rw (k, j) refl, ground (arith, j))
    | inr j ↦ elim (Bool-cases (ltb (q % 2) 1)) [
      | inl e ↦ inl (rw (k, j) (ground (arith, e)), ground (arith, k, j))
      | inr e ↦ inr (rw (k, j) (ground (arith, e)), ground (arith, k, j))
    ]
  ]
]

module _ (n d : ℕ) (positive : 0 < d) where
  rounded :
      ((round_half_even n d ≡ n / d) × (2 * (n % d) ≤ d))
      ⊎ ((round_half_even n d ≡ n / d + 1) × (d ≤ 2 * (n % d)))
  unfolding round_half_even
  rounded = up_or_down (n / d) (n % d) d

  plus_one : (n / d + 1) * d ≡ n / d * d + d
  plus_one = add_one_mul (n / d) d

  -- Rounding a quotient with a positive divisor is off by at most half a unit.
  pub round_half_even-error :
      (2 * n ≤ 2 * (round_half_even n d * d) + d) × (2 * (round_half_even n d * d) ≤ 2 * n + d)
  round_half_even-error =
      let whole = div-add-mod' n d in
      elim rounded [
        | inl (e, h) ↦ rw e (omega (arith, whole, h), omega (arith, whole, h))
        | inr (e, h) ↦
            rw (e, plus_one)
              (
                omega (arith, whole, h, mod-lt n positive),
                omega (arith, whole, h, mod-lt n positive),
              )
      ]

  pub round_half_even-lower : (lo : ℕ) → lo * d ≤ n → lo ≤ round_half_even n d
  round_half_even-lower lo h =
      let below : lo ≤ n / d =
        le_of_mul lo (n / d) d (omega (arith, h, div-add-mod' n d, mod-lt n positive)) in
      elim rounded [ inl (e, k) ↦ rw e below | inr (e, k) ↦ rw e (omega (arith, below)) ]

  pub round_half_even-upper : (hi : ℕ) → n ≤ hi * d → round_half_even n d ≤ hi
  round_half_even-upper hi h = elim rounded [
    | inl (e, k) ↦ rw e (le_of_mul (n / d) hi d (omega (arith, h, div-add-mod' n d, positive)))
    | inr (e, k) ↦
        rw e (
          le_of_mul (n / d + 1) hi d
            (rw plus_one (omega (arith, h, k, div-add-mod' n d, positive))))
  ]
