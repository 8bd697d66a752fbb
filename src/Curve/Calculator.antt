-- ===== src/Curve/Calculator.antt =====
-- `CurveCalculator` of programs/cp-swap/src/curve/calculator.rs: swaps with their fees.
pub mod Input
pub mod Output
pub mod Checks
use solana_dex.Base.{
  ℕ, Result, ok, err, code, empty_supply, ◌>>=◌, ◌>>◌, guard, not, unwrap, ◌==◌, if◌then◌else◌,
  u128_mod, checked_add, checked_sub, Bool,
}
use solana_dex.Curve.Fees.{trading_fee, protocol_fee, fund_fee, calculate_pre_fee_amount}
use solana_dex.Curve.ConstantProduct.{
  RoundDirection, TradingTokenResult, swap_base_input_without_fees, swap_base_output_without_fees,
}
use solana_dex.Curve.ConstantProduct as ConstantProduct

pub data TradeDirection : Type 0 where
  zero_for_one one_for_zero : TradeDirection

unfoldable pub opposite : TradeDirection → TradeDirection
opposite zero_for_one = one_for_zero
opposite one_for_zero = zero_for_one

pub record SwapResult : Type 0 where
  pub new_swap_source_amount : ℕ
  pub new_swap_destination_amount : ℕ
  pub source_amount_swapped : ℕ
  pub destination_amount_swapped : ℕ
  pub trade_fee : ℕ
  pub protocol_fee : ℕ
  pub fund_fee : ℕ

unfoldable pub validate_supply : ℕ → ℕ → Result (Unit {0})
validate_supply token_0_amount token_1_amount = do
  guard (not (token_0_amount == 0)) (code empty_supply)
  guard (not (token_1_amount == 0)) (code empty_supply)

unfoldable pub swap_base_input : ℕ → ℕ → ℕ → ℕ → ℕ → ℕ → Result SwapResult
swap_base_input source_amount swap_source_amount swap_destination_amount trade_fee_rate
      protocol_fee_rate fund_fee_rate =
    do
      trade_fee ← trading_fee source_amount trade_fee_rate
      protocol_fee ← protocol_fee trade_fee protocol_fee_rate
      fund_fee ← fund_fee trade_fee fund_fee_rate
      source_amount_less_fees ← checked_sub source_amount trade_fee
      destination_amount_swapped ←
          swap_base_input_without_fees source_amount_less_fees swap_source_amount
            swap_destination_amount
      new_swap_source_amount ← checked_add u128_mod swap_source_amount source_amount
      new_swap_destination_amount ← checked_sub swap_destination_amount destination_amount_swapped
      ok (record {
        new_swap_source_amount = new_swap_source_amount;
        new_swap_destination_amount = new_swap_destination_amount;
        source_amount_swapped = source_amount;
        destination_amount_swapped = destination_amount_swapped;
        trade_fee = trade_fee;
        protocol_fee = protocol_fee;
        fund_fee = fund_fee;
      })

unfoldable pub swap_base_output : ℕ → ℕ → ℕ → ℕ → ℕ → ℕ → Result SwapResult
swap_base_output destination_amount swap_source_amount swap_destination_amount trade_fee_rate
      protocol_fee_rate fund_fee_rate =
    do
      source_amount_swapped ←
          swap_base_output_without_fees destination_amount swap_source_amount
            swap_destination_amount
      source_amount ← unwrap (calculate_pre_fee_amount source_amount_swapped trade_fee_rate)
      trade_fee ← trading_fee source_amount trade_fee_rate
      protocol_fee ← protocol_fee trade_fee protocol_fee_rate
      fund_fee ← fund_fee trade_fee fund_fee_rate
      new_swap_source_amount ← checked_add u128_mod swap_source_amount source_amount
      new_swap_destination_amount ← checked_sub swap_destination_amount destination_amount
      ok (record {
        new_swap_source_amount = new_swap_source_amount;
        new_swap_destination_amount = new_swap_destination_amount;
        source_amount_swapped = source_amount;
        destination_amount_swapped = destination_amount;
        trade_fee = trade_fee;
        protocol_fee = protocol_fee;
        fund_fee = fund_fee;
      })

unfoldable pub lp_tokens_to_trading_tokens :
    ℕ → ℕ → ℕ → ℕ → RoundDirection → Result TradingTokenResult
lp_tokens_to_trading_tokens lp_token_amount lp_token_supply swap_token_0_amount swap_token_1_amount
      round_direction =
    ConstantProduct.lp_tokens_to_trading_tokens lp_token_amount lp_token_supply swap_token_0_amount
      swap_token_1_amount round_direction
