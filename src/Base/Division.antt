-- ===== src/Base/Division.antt =====
-- Floor and ceiling division.
use Prim.Native.Nat.{ℕ, ◌+◌, ◌*◌, ◌/◌, ◌%◌, ◌≤◌, ◌<◌}
use mathlib.Core.Path.{◌≡◌}
use native.Mathlib.Nat.{le-div_iff_mul-le}
use native.Mathlib.Omega.{arith}

pub div-mul-le : (a d : ℕ) → a / d * d ≤ a
div-mul-le a d = omega arith

pub lt-div-mul : (a d : ℕ) → 0 < d → a < (a / d + 1) * d
lt-div-mul a d h = omega arith

pub mul_cancel_lt : (a b d : ℕ) → a * d < b * d → a < b
mul_cancel_lt a b d h = grind arith

pub mul_cancel_le : (a b d : ℕ) → 0 < d → a * d ≤ b * d → a ≤ b
mul_cancel_le a b d p h = grind arith

pub mul_mono : (a b c d : ℕ) → a ≤ b → c ≤ d → a * c ≤ b * d
mul_mono a b c d p q = grind arith

pub div-pos : (a d : ℕ) → 0 < d → d ≤ a → 0 < a / d
div-pos a d p h = (le-div_iff_mul-le p).1 (omega arith)

-- What the tactics need of a quotient `a` that is known by its equation.
pub quotient_bounds :
    (a n d : ℕ) → 0 < d → a ≡ n / d → (a * d ≤ n) × (n < a * d + d) × (a * d + n % d ≡ n)
quotient_bounds a n d pos e = rw e (omega arith)
