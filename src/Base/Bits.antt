-- ===== src/Base/Bits.antt =====
-- Masks of low bits: `x & 1`, `x & 3`, … are remainders. Each mask follows from the half as long.
use Prim.Native.Nat.{ℕ, zero, suc, ◌/◌, ◌%◌, ◌≤◌, min, bit_and, digits, bit_and-bitwise}
use mathlib.Core.Path.{◌≡◌, refl}
use native.Mathlib.Omega.{arith}

-- `bit_and` with a given number of digits to go.
abbrev masked : ℕ → ℕ → ℕ → ℕ
masked n a b = digits (λ _. zero) min n a b

masked-zero : (n a : ℕ) → a ≤ n → masked n a 0 ≡ 0
masked-zero zero a h = refl
masked-zero (suc n) zero h = refl
masked-zero (suc n) (suc a) h = omega (arith, masked-zero n (suc a / 2) (omega arith))

masked-one : (n a : ℕ) → a ≤ n → masked n a 1 ≡ a % 2
masked-one zero a h = omega arith
masked-one (suc n) zero h = refl
masked-one (suc n) (suc a) h = omega (arith, masked-zero n (suc a / 2) (omega arith))

masked-three : (n a : ℕ) → a ≤ n → masked n a 3 ≡ a % 4
masked-three zero a h = omega arith
masked-three (suc n) zero h = refl
masked-three (suc n) (suc a) h = omega (arith, masked-one n (suc a / 2) (omega arith))

masked-seven : (n a : ℕ) → a ≤ n → masked n a 7 ≡ a % 8
masked-seven zero a h = omega arith
masked-seven (suc n) zero h = refl
masked-seven (suc n) (suc a) h = omega (arith, masked-three n (suc a / 2) (omega arith))

masked-fifteen : (n a : ℕ) → a ≤ n → masked n a 15 ≡ a % 16
masked-fifteen zero a h = omega arith
masked-fifteen (suc n) zero h = refl
masked-fifteen (suc n) (suc a) h = omega (arith, masked-seven n (suc a / 2) (omega arith))

pub bit_and-one : (a : ℕ) → bit_and a 1 ≡ a % 2
bit_and-one a = omega (arith, bit_and-bitwise a 1, masked-one a a (omega arith))

pub bit_and-fifteen : (a : ℕ) → bit_and a 15 ≡ a % 16
bit_and-fifteen a = omega (arith, bit_and-bitwise a 15, masked-fifteen a a (omega arith))
