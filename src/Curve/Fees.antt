-- ===== src/Curve/Fees.antt =====
-- programs/cp-swap/src/curve/fees.rs: the trade fee, its shares for the protocol and the fund, and
-- the gross amount for a net amount. A fee is in `u128`, a rate in `u64`.
pub mod Bounds
use solana_dex.Base.{
  ℕ, ◌+◌, ◌-◌, ◌*◌, ◌/◌, Result, ok, ◌>>=◌, unwrap, ◌==◌, if◌then◌else◌, u128_mod, checked_add,
  checked_sub, checked_mul, checked_div,
}

abbrev pub fee_rate_denominator_value : ℕ
fee_rate_denominator_value = 1_000_000

unfoldable pub ceil_div : ℕ → ℕ → ℕ → Result ℕ
unfolding checked_mul checked_add checked_sub checked_div
ceil_div token_amount fee_numerator fee_denominator = do
  product ← unwrap (checked_mul u128_mod token_amount fee_numerator)
  sum ← checked_add u128_mod product fee_denominator
  less ← checked_sub sum 1
  checked_div less fee_denominator

unfoldable pub floor_div : ℕ → ℕ → ℕ → Result ℕ
unfolding checked_mul checked_div
floor_div token_amount fee_numerator fee_denominator = do
  product ← checked_mul u128_mod token_amount fee_numerator
  checked_div product fee_denominator

unfoldable pub trading_fee : ℕ → ℕ → Result ℕ
unfolding ceil_div
trading_fee amount trade_fee_rate = ceil_div amount trade_fee_rate fee_rate_denominator_value

unfoldable pub protocol_fee : ℕ → ℕ → Result ℕ
unfolding floor_div
protocol_fee amount protocol_fee_rate =
    floor_div amount protocol_fee_rate fee_rate_denominator_value

unfoldable pub fund_fee : ℕ → ℕ → Result ℕ
unfolding floor_div
fund_fee amount fund_fee_rate = floor_div amount fund_fee_rate fee_rate_denominator_value

unfoldable pub calculate_pre_fee_amount : ℕ → ℕ → Result ℕ
unfolding checked_mul checked_add checked_sub checked_div
calculate_pre_fee_amount post_fee_amount trade_fee_rate =
    if trade_fee_rate == 0 then ok post_fee_amount else (do
      numerator ← checked_mul u128_mod post_fee_amount fee_rate_denominator_value
      denominator ← checked_sub fee_rate_denominator_value trade_fee_rate
      sum ← checked_add u128_mod numerator denominator
      less ← checked_sub sum 1
      checked_div less denominator)
