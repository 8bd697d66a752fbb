-- ===== src/Curve/ConstantProduct.antt =====
-- programs/cp-swap/src/curve/constant_product.rs and the types of curve/calculator.rs that it uses.
-- Amounts are `u128`. The `msg!` calls only write to the log.
pub mod Swaps
pub mod Shares
pub mod Checks
use solana_dex.Base.{
  ℕ, Bool, ◌&&◌, Result, ok, ◌>>=◌, unwrap, ltb, if◌then◌else◌, u128_mod, checked_add, checked_sub,
  checked_mul, checked_div, checked_rem, plus,
}
use solana_dex.Curve.Math.{checked_ceil_div}

pub data RoundDirection : Type 0 where
  floor ceiling : RoundDirection

pub record TradingTokenResult : Type 0 where
  pub token_0_amount : ℕ
  pub token_1_amount : ℕ

unfoldable pub swap_base_input_without_fees : ℕ → ℕ → ℕ → Result ℕ
unfolding checked_mul checked_add checked_div
swap_base_input_without_fees source_amount swap_source_amount swap_destination_amount = do
  numerator ← unwrap (checked_mul u128_mod source_amount swap_destination_amount)
  denominator ← unwrap (checked_add u128_mod swap_source_amount source_amount)
  unwrap (checked_div numerator denominator)

unfoldable pub swap_base_output_without_fees : ℕ → ℕ → ℕ → Result ℕ
unfolding checked_mul checked_sub
swap_base_output_without_fees destination_amount swap_source_amount swap_destination_amount = do
  numerator ← unwrap (checked_mul u128_mod swap_source_amount destination_amount)
  denominator ← unwrap (checked_sub swap_destination_amount destination_amount)
  (source_amount_swapped, _) ← unwrap (checked_ceil_div numerator denominator)
  ok source_amount_swapped

-- The amount of one trading token, rounded down.
unfoldable pub share : ℕ → ℕ → ℕ → Result ℕ
unfolding checked_mul checked_div
share lp_token_amount lp_token_supply swap_token_amount = do
  product ← checked_mul u128_mod lp_token_amount swap_token_amount
  checked_div product lp_token_supply

-- The ceiling of one trading token: nothing is added to an amount of zero.
unfoldable pub round_up : ℕ → ℕ → ℕ → ℕ → Result ℕ
unfolding checked_mul checked_rem plus
round_up lp_token_amount lp_token_supply swap_token_amount token_amount = do
  product ← checked_mul u128_mod lp_token_amount swap_token_amount
  remainder ← checked_rem product lp_token_supply
  if ltb 0 remainder && ltb 0 token_amount then plus u128_mod token_amount 1 else ok token_amount

-- The `match` on the direction, over the two amounts that were rounded down.
unfoldable pub round_amounts : RoundDirection → ℕ → ℕ → ℕ → ℕ → ℕ → ℕ → Result TradingTokenResult
round_amounts floor lp supply x y a b = ok (record { token_0_amount = a; token_1_amount = b })
round_amounts ceiling lp supply x y a b = do
  a' ← round_up lp supply x a
  b' ← round_up lp supply y b
  ok (record { token_0_amount = a'; token_1_amount = b' })

unfoldable pub lp_tokens_to_trading_tokens :
    ℕ → ℕ → ℕ → ℕ → RoundDirection → Result TradingTokenResult
unfolding round_amounts
lp_tokens_to_trading_tokens lp_token_amount lp_token_supply x y round_direction = do
  token_0_amount ← share lp_token_amount lp_token_supply x
  token_1_amount ← share lp_token_amount lp_token_supply y
  round_amounts round_direction lp_token_amount lp_token_supply x y token_0_amount token_1_amount
