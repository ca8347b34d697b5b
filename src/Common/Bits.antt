-- ===== src/Common/Bits.antt =====
-- Masks of ones: a conjunction with `2 ^ k - 1` is a remainder, by the digits that `bit_and` stands for.
use Prim.Native.Nat.{ℕ, zero, suc, ◌/◌, ◌%◌, ◌≤◌, min, bit_and, digits, bit_and-bitwise}
use mathlib.Core.Path.{◌≡◌, refl, ◌∙◌}
use native.Mathlib.Omega.{arith}

-- `rounds` digits of the conjunction of `v` and `mask`.
abbrev masked : (mask rounds v : ℕ) → ℕ
masked mask rounds v = digits (λ _. zero) min rounds v mask

masked-zero : (rounds v : ℕ) → v ≤ rounds → masked 0 rounds v ≡ 0
masked-zero zero zero fuel = refl
masked-zero zero (suc v) fuel = absurd (omega arith)
masked-zero (suc rounds) zero fuel = refl
masked-zero (suc rounds) (suc v) fuel = omega (arith, masked-zero rounds (suc v / 2) (omega arith))

masked-one : (rounds v : ℕ) → v ≤ rounds → masked 1 rounds v ≡ v % 2
masked-one zero zero fuel = refl
masked-one zero (suc v) fuel = absurd (omega arith)
masked-one (suc rounds) zero fuel = refl
masked-one (suc rounds) (suc v) fuel = omega (arith, masked-zero rounds (suc v / 2) (omega arith))

masked-three : (rounds v : ℕ) → v ≤ rounds → masked 3 rounds v ≡ v % 4
masked-three zero zero fuel = refl
masked-three zero (suc v) fuel = absurd (omega arith)
masked-three (suc rounds) zero fuel = refl
masked-three (suc rounds) (suc v) fuel = omega (arith, masked-one rounds (suc v / 2) (omega arith))

masked-seven : (rounds v : ℕ) → v ≤ rounds → masked 7 rounds v ≡ v % 8
masked-seven zero zero fuel = refl
masked-seven zero (suc v) fuel = absurd (omega arith)
masked-seven (suc rounds) zero fuel = refl
masked-seven (suc rounds) (suc v) fuel =
    omega (arith, masked-three rounds (suc v / 2) (omega arith))

-- The alignment test `v & 7`.
pub bit_and-seven : (v : ℕ) → bit_and v 7 ≡ v % 8
bit_and-seven v = bit_and-bitwise v 7 ∙ masked-seven v v (omega arith)
