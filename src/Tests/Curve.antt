-- ===== src/Tests/Curve.antt =====
-- The curve at concrete reserves.
use solana_dex.Base.{
  ℕ, ◌+◌, ◌-◌, ◌*◌, ◌≤◌, ◌<◌, ◌≡◌, ok, arith, refl, checked_add, checked_sub, checked_mul,
  checked_div, checked_rem,
}
use solana_dex.Curve.Fees.{
  ceil_div, floor_div, trading_fee, protocol_fee, fund_fee, calculate_pre_fee_amount,
}
use solana_dex.Curve.Fees.Bounds.{pre_fee_round_trip}
use solana_dex.Curve.Math.{ceil_remainder, checked_ceil_div}
use solana_dex.Curve.Math.Rounding.{IsCeil, checked_ceil_div-IsCeil}
use solana_dex.Curve.ConstantProduct.{
  swap_base_input_without_fees, swap_base_output_without_fees, share, round_up, round_amounts,
  floor, ceiling, lp_tokens_to_trading_tokens,
}
use solana_dex.Curve.ConstantProduct.Swaps.{
  KeepsConstant, swap_input_is_best, swap_output_is_best, swap_output_loses,
}
use solana_dex.Curve.ConstantProduct.Shares.{
  KeepsShareIn, KeepsShareOut, withdrawal_keeps_share, deposit_keeps_share, deposit_then_withdrawal,
}
use solana_dex.Curve.Calculator.{SwapResult, swap_base_input, swap_base_output}
use solana_dex.Curve.Calculator.Input.{KeepsValue, swap_base_input_sound, swap_base_input_total}
use solana_dex.Curve.Calculator.Output.{swap_base_output_sound, swap_output_then_input}

input_run :
    (r : SwapResult) × (swap_base_input 10_000 1_000_000 2_000_000 2_500 120_000 40_000 ≡ ok r)
unfolding swap_base_input trading_fee ceil_div protocol_fee fund_fee floor_div
    swap_base_input_without_fees checked_add checked_sub checked_mul checked_div
input_run = (_, refl)

swap_base_input_sound_example :
    KeepsConstant 1_000_000 2_000_000
      (10_000 - input_run.0.trade_fee)
      input_run.0.destination_amount_swapped
    × KeepsValue 1_000_000 2_000_000 input_run.0
    × ((b' : ℕ)
        → KeepsConstant 1_000_000 2_000_000 (10_000 - input_run.0.trade_fee) b'
        → b' ≤ input_run.0.destination_amount_swapped)
swap_base_input_sound_example =
    swap_base_input_sound 10_000 1_000_000 2_000_000 2_500 120_000 40_000 input_run.1 (omega arith)

swap_base_input_total_example :
    (r : SwapResult) × (swap_base_input 10_000 1_000_000 2_000_000 2_500 120_000 40_000 ≡ ok r)
swap_base_input_total_example =
    swap_base_input_total 10_000 1_000_000 2_000_000 2_500 120_000 40_000 (omega arith)
      (omega arith) (omega arith) (omega arith) (omega arith) (omega arith) (omega arith)

output_run :
    (r : SwapResult) × (swap_base_output 19_000 1_000_000 2_000_000 2_500 120_000 40_000 ≡ ok r)
unfolding swap_base_output swap_base_output_without_fees checked_ceil_div ceil_remainder
    calculate_pre_fee_amount trading_fee ceil_div protocol_fee fund_fee floor_div checked_add
    checked_sub checked_mul checked_div checked_rem
output_run = (_, refl)

output_positive : 0 < output_run.0.source_amount_swapped
unfolding output_run
output_positive = omega arith

swap_base_output_sound_example : KeepsValue 1_000_000 2_000_000 output_run.0
swap_base_output_sound_example =
    swap_base_output_sound 19_000 1_000_000 2_000_000 2_500 120_000 40_000 output_run.1
      (omega arith) (omega arith) output_positive

back_run :
    (q : SwapResult) × (swap_base_input output_run.0.source_amount_swapped 1_000_000 2_000_000 2_500
        120_000 40_000
      ≡ ok q)
unfolding output_run swap_base_input trading_fee ceil_div protocol_fee fund_fee floor_div
    swap_base_input_without_fees checked_add checked_sub checked_mul checked_div
back_run = (_, refl)

swap_output_then_input_example : 19_000 ≤ back_run.0.destination_amount_swapped
swap_output_then_input_example =
    swap_output_then_input 19_000 1_000_000 2_000_000 2_500 120_000 40_000 output_run.1 back_run.1
      (omega arith) (omega arith) output_positive

curve_run : swap_base_input_without_fees 10_000 1_000_000 2_000_000 ≡ ok 19_801
unfolding swap_base_input_without_fees checked_mul checked_add checked_div
curve_run = refl

swap_input_is_best_example :
    KeepsConstant 1_000_000 2_000_000 10_000 19_801
    × ((b' : ℕ) → KeepsConstant 1_000_000 2_000_000 10_000 b' → b' ≤ 19_801)
swap_input_is_best_example = swap_input_is_best 10_000 1_000_000 2_000_000 curve_run

curve_output_run : swap_base_output_without_fees 19_801 1_000_000 2_000_000 ≡ ok 10_000
unfolding swap_base_output_without_fees checked_ceil_div ceil_remainder checked_mul checked_sub
    checked_div checked_rem checked_add
curve_output_run = refl

swap_output_is_best_example :
    KeepsConstant 1_000_000 2_000_000 10_000 19_801
    × ((a' : ℕ) → KeepsConstant 1_000_000 2_000_000 a' 19_801 → 10_000 ≤ a')
swap_output_is_best_example =
    swap_output_is_best 19_801 1_000_000 2_000_000 curve_output_run (omega arith)

-- Two units of a destination of ten thousand, against a source of one thousand.
swap_output_loses_example :
    (swap_base_output_without_fees 2 1_000 10_000 ≡ ok 0) × ¬ KeepsConstant 1_000 10_000 0 2
swap_output_loses_example =
    swap_output_loses 2 1_000 10_000 (omega arith) (omega arith) (omega arith) (omega arith)
      (omega arith)

withdrawal_run :
    lp_tokens_to_trading_tokens 333 1_000 5_001 7_003 floor
    ≡ ok (record { token_0_amount = 1_665; token_1_amount = 2_331 })
unfolding lp_tokens_to_trading_tokens round_amounts share checked_mul checked_div
withdrawal_run = refl

withdrawal_keeps_share_example :
    ((1_665 ≤ 5_001) × KeepsShareOut 333 1_000 5_001 1_665)
    × ((2_331 ≤ 7_003) × KeepsShareOut 333 1_000 7_003 2_331)
withdrawal_keeps_share_example =
    withdrawal_keeps_share 333 1_000 5_001 7_003 withdrawal_run (omega arith)

deposit_run :
    lp_tokens_to_trading_tokens 333 1_000 5_001 7_003 ceiling
    ≡ ok (record { token_0_amount = 1_666; token_1_amount = 2_332 })
unfolding lp_tokens_to_trading_tokens round_amounts round_up share checked_mul checked_div
    checked_rem
deposit_run = refl

deposit_keeps_share_example :
    (KeepsShareIn 333 1_000 5_001 1_666 × (1_666 * 1_000 < 333 * 5_001 + 1_000))
    × (KeepsShareIn 333 1_000 7_003 2_332 × (2_332 * 1_000 < 333 * 7_003 + 1_000))
deposit_keeps_share_example =
    deposit_keeps_share 333 1_000 5_001 7_003 deposit_run (omega arith) (omega arith)

sale_run :
    lp_tokens_to_trading_tokens 333 1_333 6_667 9_335 floor
    ≡ ok (record { token_0_amount = 1_665; token_1_amount = 2_331 })
unfolding lp_tokens_to_trading_tokens round_amounts share checked_mul checked_div
sale_run = refl

deposit_then_withdrawal_example : (1_665 ≤ 1_666) × (2_331 ≤ 2_332)
deposit_then_withdrawal_example =
    deposit_then_withdrawal 333 1_000 5_001 7_003 deposit_run (omega arith) (omega arith) sale_run

gross_run : calculate_pre_fee_amount 9_975 2_500 ≡ ok 10_000
unfolding calculate_pre_fee_amount checked_mul checked_sub checked_add checked_div
gross_run = refl

fee_run : trading_fee 10_000 2_500 ≡ ok 25
unfolding trading_fee ceil_div checked_mul checked_sub checked_add checked_div
fee_run = refl

pre_fee_round_trip_example : 10_000 ≡ 9_975 + 25
pre_fee_round_trip_example = pre_fee_round_trip 9_975 2_500 (omega arith) gross_run fee_run

ceil_run : checked_ceil_div 100 7 ≡ ok (15, 7)
unfolding checked_ceil_div ceil_remainder checked_mul checked_div checked_rem checked_add
ceil_run = refl

checked_ceil_div-IsCeil_example : IsCeil 100 7 15 7
checked_ceil_div-IsCeil_example = checked_ceil_div-IsCeil 100 7 (omega arith) ceil_run
