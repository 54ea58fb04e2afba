-- ===== src/Common/Rounding.antt =====
-- `round(x, 2)` on exact quotients: a number of hundredths, to the nearest, ties to the even one.
use Prim.Native.Nat.{ℕ, ◌+◌, ◌*◌, ◌/◌, ◌%◌, ◌≤◌, ◌<◌}
use mathlib.Core.Path.{◌≡◌, refl}
use mathlib.Core.Bool.{◌&&◌, ◌||◌}
use native.Mathlib.Omega.{arith}
use cks_simulator.Common.Tests.{ltb, ◌==◌, if◌then◌else◌}

unfoldable pub round_div : ℕ → ℕ → ℕ
round_div n d =
    let q = n / d in
    let r = n % d in if ltb (2 * r) d || ((2 * r == d) && (q % 2 == 0)) then q else q + 1

-- The result is at most half a unit away.
round_div_near :
    (n d : ℕ)
    → 0 < d
    → (2 * (d * round_div n d) ≤ 2 * n + d) × (2 * n ≤ 2 * (d * round_div n d) + d)
unfolding round_div
round_div_near n d h = grind arith

-- A whole quotient is not rounded.
pub round_div_exact : (k d : ℕ) → 0 < d → round_div (d * k) d ≡ k
round_div_exact k d h = grind (arith, round_div_near (d * k) d h)

-- A quotient up to a whole number is not rounded beyond it.
pub round_div-le : (n d k : ℕ) → 0 < d → n ≤ d * k → round_div n d ≤ k
round_div-le n d k h le = grind (arith, round_div_near n d h)

rounds_half_to_even : round_div 12345 10 ≡ 1234
unfolding round_div
rounds_half_to_even = refl
