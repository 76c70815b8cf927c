-- ===== src/Base/Single.antt =====
-- IEEE 754 single precision on natural numbers: rounding to 24 significant bits, ties to even.
-- A value with a fraction is held as a whole number of its last place, so the same rounding serves.
use Prim.Native.Nat.{ℕ, zero, suc, ◌+◌, ◌-◌, ◌*◌, ◌/◌, ◌%◌, ◌^◌, ◌≤◌, ◌<◌}
use mathlib.Core.Path.{◌≡◌, refl}
use mathlib.Core.Logic.{◌⊎◌, inl, inr}
use native.Mathlib.Omega.{arith}
use native.Mathlib.Nat.{div-add-mod, mod-lt}
use reji_studio.Base.Tests.{ltb, Bool-cases, if◌then◌else◌}

-- The unit in the last place of a number with at most 24 + fuel bits.
pub ulp_fuel : ℕ → ℕ → ℕ
ulp_fuel zero n = 1
ulp_fuel (suc f) n = let rest = 2 * ulp_fuel f (n / 2) in if ltb n (2 ^ 24) then 1 else rest

-- The nearest multiple of `d` to `d * q + r`, counted in `d`; a tie goes to the even one.
nearest : ℕ → ℕ → ℕ → ℕ
nearest q r d = if ltb (2 * r) d then q else if ltb d (2 * r) then q + 1 else q + q % 2

pub round_even : ℕ → ℕ → ℕ
unfolding nearest
round_even n d = nearest (n / d) (n % d) d

parity : (q : ℕ) → (q % 2 ≡ 0) ⊎ (q % 2 ≡ 1)
parity q = omega arith

-- 64 halvings serve every value below 2 ^ 88; the code stays below 2 ^ 57.
unfoldable pub round_single : ℕ → ℕ
unfolding ulp_fuel round_even
round_single n = let d = ulp_fuel 64 n in round_even n d * d

ulp_fuel_pos : (f n : ℕ) → 0 < ulp_fuel f n
unfolding ulp_fuel
ulp_fuel_pos zero n = omega arith
ulp_fuel_pos (suc f) n = ground (arith, ulp_fuel_pos f (n / 2))

-- A number with more than 24 bits has at least 2 ^ 23 units; any other has the unit 1.
ulp_fuel-le : (f n : ℕ) → (ulp_fuel f n ≡ 1) ⊎ (2 ^ 23 * ulp_fuel f n ≤ n)
unfolding ulp_fuel
ulp_fuel-le zero n = inl refl
ulp_fuel-le (suc f) n = ground (arith, ulp_fuel-le f (n / 2))

nearest_bounds :
    (q r d : ℕ)
    → r < d
    → (2 * (nearest q r d * d) ≤ 2 * (d * q + r) + d)
      × (2 * (d * q + r) ≤ 2 * (nearest q r d * d) + d)
unfolding nearest
nearest_bounds q r d h = elim (Bool-cases (ltb (2 * r) d)) [
  | inl low ↦ rw (low) (ground arith)
  | inr notlow ↦ rw (notlow) (elim (Bool-cases (ltb d (2 * r))) [
    | inl high ↦ rw (high) (ground arith)
    | inr even ↦
        rw (even) (elim (parity q) [ inl e ↦ rw e (ground arith) | inr e ↦ rw e (ground arith) ])
  ])
]

-- Rounding moves a value by half a unit at most.
round_even_bounds :
    (n d : ℕ)
    → 0 < d
    → (2 * (round_even n d * d) ≤ 2 * n + d) × (2 * n ≤ 2 * (round_even n d * d) + d)
unfolding round_even
round_even_bounds n d h =
    omega (arith, nearest_bounds (n / d) (n % d) d (mod-lt n h), div-add-mod n d)

scaled_bounds :
    (n d : ℕ)
    → 0 < d
    → (d ≡ 1) ⊎ (2 ^ 23 * d ≤ n)
    → (2 ^ 24 * (round_even n d * d) ≤ (2 ^ 24 + 1) * n)
      × ((2 ^ 24 - 1) * n ≤ 2 ^ 24 * (round_even n d * d))
scaled_bounds n d h (inl e) = omega (arith, round_even_bounds n d h)
scaled_bounds n d h (inr g) = omega (arith, round_even_bounds n d h)

-- The relative error is at most 2 ^ -24.
pub round_single_bounds :
    (n : ℕ)
    → (2 ^ 24 * round_single n ≤ (2 ^ 24 + 1) * n) × ((2 ^ 24 - 1) * n ≤ 2 ^ 24 * round_single n)
unfolding round_single
round_single_bounds n = scaled_bounds n (ulp_fuel 64 n) (ulp_fuel_pos 64 n) (ulp_fuel-le 64 n)

-- A whole number of at most 24 bits is exact.
pub round_single_exact : (n : ℕ) → n < 2 ^ 24 → round_single n ≡ n
round_single_exact n h = omega (arith, round_single_bounds n)
