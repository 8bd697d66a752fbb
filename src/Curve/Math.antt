-- ===== src/Curve/Math.antt =====
-- programs/cp-swap/src/utils/math.rs: ceiling division of `u128`. The `uint` crate's `U128` and
-- `U256`, which the macro calls construct, are not under the repository.
pub mod Rounding
use solana_dex.Base.{
  ℕ, Result, ok, ◌>>=◌, ltb, leb, ◌==◌, if◌then◌else◌, u128_mod, checked_add, checked_mul,
  checked_div, checked_rem,
}

-- The part of `checked_ceil_div` after the early returns: `q` is the quotient rounded down.
unfoldable pub ceil_remainder : ℕ → ℕ → ℕ → Result (ℕ × ℕ)
unfolding checked_rem checked_add checked_div
ceil_remainder n d q = do
  remainder ← checked_rem n d
  if ltb 0 remainder
      then (do
        quotient ← checked_add u128_mod q 1
        rhs ← checked_div n quotient
        remainder' ← checked_rem n quotient
        if ltb 0 remainder'
            then (do rhs' ← checked_add u128_mod rhs 1; ok (quotient, rhs'))
            else ok (quotient, rhs))
      else ok (q, d)

unfoldable pub checked_ceil_div : ℕ → ℕ → Result (ℕ × ℕ)
unfolding ceil_remainder checked_div checked_mul
checked_ceil_div n d = do
  quotient ← checked_div n d
  if quotient == 0
      then (do twice ← checked_mul u128_mod n 2; if leb d twice then ok (1, 0) else ok (0, 0))
      else ceil_remainder n d quotient
