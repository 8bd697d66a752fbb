-- ===== src/Tests/Trades.antt =====
-- Swaps of a pool whose first token is of the first token program, and whose second token is of
-- token-2022 with a transfer fee of 3.
use solana_dex.Base.{
  ℕ, ◌+◌, ◌≤◌, ◌≡◌, inl, ok, arith, refl, replicate, ◌==◌, if◌then◌else◌, checked_add, checked_sub,
  checked_mul, checked_div, checked_rem, plus, times, over, try_u64,
}
use solana_dex.Keys.{Pubkey}
use solana_dex.Curve.Fees.{
  ceil_div, floor_div, trading_fee, protocol_fee, fund_fee, calculate_pre_fee_amount,
}
use solana_dex.Curve.Math.{ceil_remainder, checked_ceil_div}
use solana_dex.Curve.ConstantProduct.{swap_base_input_without_fees, swap_base_output_without_fees}
use solana_dex.Curve.Calculator as Calculator
use solana_dex.States.Config.{AmmConfig, default_config, IsValid}
use solana_dex.States.Pool.{PoolState, get_status_by_bit, vault_amount_without_fee, token_price_x32}
use solana_dex.States.Oracle.{
  default_state, read, write, next_index, append, update_initialized, update_first, update,
}
use solana_dex.Token.Interface.{Clock, MintAccount}
use solana_dex.Token.{
  get_transfer_fee, get_transfer_inverse_fee, inverse_fee, transfer_from_user_to_pool_vault,
  transfer_from_pool_vault_to_user,
}
use solana_dex.Instructions.Reserves.{Exchanged}
use solana_dex.Instructions.Swap.{
  SwapAccounts, SwapOutcome, check_swap_accounts, check_open, trade_amounts, accrue_fees,
  vault_prices, settle,
}
use solana_dex.Instructions.Swap.BaseInput.{receive, quote_base_input, swap_base_input}
use solana_dex.Instructions.Swap.BaseOutput.{send, quote_base_output, swap_base_output}
use solana_dex.Instructions.Swap.Gate.{IsOpen, swaps-IsOpen}
use solana_dex.Instructions.Swap.Settlement.{Separate}
use solana_dex.Instructions.Swap.InputValue.{swap_base_input_keeps_value, swap_base_input_limits}
use solana_dex.Instructions.Swap.OutputValue.{swap_base_output_keeps_value, swap_base_output_limits}
use solana_dex.Tests.Ledger.{Ledger, ledger, ledger-Laws}

abbrev pub now : Clock
now = record { unix_timestamp = 1_700_000_000; epoch = 600 }

abbrev pub mint_0 : MintAccount ℕ
mint_0 = record { key = 40; owner = 1; decimals = 6; content = 0 }

abbrev pub mint_1 : MintAccount ℕ
mint_1 = record { key = 41; owner = 2; decimals = 9; content = 3 }

abbrev pub rates : AmmConfig
rates = record default_config {
  trade_fee_rate = 2_500;
  protocol_fee_rate = 120_000;
  fund_fee_rate = 40_000;
  protocol_owner = 14;
  fund_owner = 15;
}

pub rates-IsValid : IsValid rates
rates-IsValid = record { trade_below_one = omega arith; shares_at_most_one = omega arith }

abbrev pub pool : PoolState
pool = record {
  amm_config = 12;
  pool_creator = 10;
  token_0_vault = 30;
  token_1_vault = 31;
  lp_mint = 42;
  token_0_mint = 40;
  token_1_mint = 41;
  token_0_program = 1;
  token_1_program = 2;
  observation_key = 50;
  auth_bump = 255;
  status = 0;
  lp_mint_decimals = 9;
  mint_0_decimals = 6;
  mint_1_decimals = 9;
  lp_supply = 1_000_000;
  protocol_fees_token_0 = 20;
  protocol_fees_token_1 = 30;
  fund_fees_token_0 = 10;
  fund_fees_token_1 = 20;
  open_time = 1_600_000_000;
  padding = replicate 32 0;
}

-- The user's accounts 20, 21 and 22 for the two tokens and the pool tokens, and the vaults.
abbrev pub balances : Pubkey → ℕ
balances k =
    if k == 20
    then 500_000
    else if k == 21
    then 400_000
    else if k == 22
    then 300_000
    else if k == 30
    then 1_000_030
    else if k == 31
    then 2_000_050
    else 0

abbrev pub bank : Ledger
bank = record { amounts = balances; supplies = λ m. if m == 42 then 999_900 else 0 }

-- From the first token to the second.
abbrev pub trade : SwapAccounts ℕ
trade = record {
  payer = 10;
  authority = 11;
  amm_config_key = 12;
  amm_config = rates;
  pool_id = 13;
  pool_state = pool;
  input_token_account = 20;
  output_token_account = 21;
  input_vault = 30;
  input_vault_mint = 40;
  output_vault = 31;
  output_vault_mint = 41;
  input_token_program = 1;
  output_token_program = 2;
  input_token_mint = mint_0;
  output_token_mint = mint_1;
  observation_key = 50;
  observation_state = default_state;
}

pub trade-Separate : Separate trade
trade-Separate = record {
  vaults = λ e. omega arith;
  input_input = λ e. omega arith;
  input_output = λ e. omega arith;
  output_input = λ e. omega arith;
  output_output = λ e. omega arith;
}

pub input_run :
    (s : SwapOutcome Ledger) × (swap_base_input ledger 11 now trade bank 10_000 19_000 ≡ ok s)
unfolding swap_base_input check_swap_accounts quote_base_input check_open get_status_by_bit receive
    get_transfer_fee trade_amounts vault_amount_without_fee plus times over checked_add checked_sub
    checked_mul checked_div try_u64 Calculator.swap_base_input trading_fee ceil_div protocol_fee
    fund_fee floor_div swap_base_input_without_fees settle accrue_fees
    transfer_from_user_to_pool_vault transfer_from_pool_vault_to_user vault_prices token_price_x32
    update update_first update_initialized read write next_index append
input_run = (_, refl)

swap_base_input_keeps_value_example :
    (k k' : ℕ) × Exchanged ledger pool input_run.0.pool_state bank input_run.0.bank k k' × (k ≤ k')
swap_base_input_keeps_value_example =
    swap_base_input_keeps_value ledger ledger-Laws 11 now trade bank 10_000 19_000 trade-Separate
      rates-IsValid input_run.1

swap_base_input_limits_example :
    (500_000 ≡ input_run.0.bank.amounts 20 + 10_000)
    × (400_000 + 19_000 ≤ input_run.0.bank.amounts 21)
swap_base_input_limits_example =
    swap_base_input_limits ledger ledger-Laws 11 now trade bank 10_000 19_000 trade-Separate
      (λ e. omega arith) input_run.1

-- The same output by the other instruction, which asks for at most 11000.
output_run :
    (s : SwapOutcome Ledger) × (swap_base_output ledger 11 now trade bank 11_000 19_000 ≡ ok s)
unfolding swap_base_output check_swap_accounts quote_base_output check_open get_status_by_bit send
    get_transfer_inverse_fee inverse_fee trade_amounts vault_amount_without_fee plus times over
    checked_add checked_sub checked_mul checked_div checked_rem try_u64 Calculator.swap_base_output
    trading_fee ceil_div protocol_fee fund_fee floor_div calculate_pre_fee_amount checked_ceil_div
    ceil_remainder swap_base_output_without_fees settle accrue_fees transfer_from_user_to_pool_vault
    transfer_from_pool_vault_to_user vault_prices token_price_x32 update update_first write
output_run = (_, refl)

swap_base_output_keeps_value_example :
    (k k' : ℕ) × Exchanged ledger pool output_run.0.pool_state bank output_run.0.bank k k'
    × (k ≤ k')
swap_base_output_keeps_value_example =
    swap_base_output_keeps_value ledger ledger-Laws 11 now trade bank 11_000 19_000 trade-Separate
      rates-IsValid output_run.1

swap_base_output_limits_example :
    (500_000 ≤ output_run.0.bank.amounts 20 + 11_000)
    × (400_000 + 19_000 ≤ output_run.0.bank.amounts 21)
swap_base_output_limits_example =
    swap_base_output_limits ledger ledger-Laws 11 now trade bank 11_000 19_000 trade-Separate
      (λ e. omega arith) output_run.1

swaps-IsOpen_example : IsOpen pool 1_700_000_000 × (trade.authority ≡ 11)
swaps-IsOpen_example = swaps-IsOpen ledger 11 now trade bank 10_000 19_000 (inl input_run.1)
