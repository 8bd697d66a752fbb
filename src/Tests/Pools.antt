-- ===== src/Tests/Pools.antt =====
-- A deposit, a deposit for nothing, and a withdrawal.
use solana_dex.Base.{
  ℕ, ◌+◌, ◌*◌, ◌≤◌, ◌≡◌, ok, arith, refl, checked_add, checked_sub, checked_mul, checked_div,
  checked_rem, plus, try_u64,
}
use solana_dex.Curve.ConstantProduct.{share, round_up, round_amounts, lp_tokens_to_trading_tokens}
use solana_dex.Curve.Calculator.{validate_supply}
use solana_dex.Curve.Calculator as Calculator
use solana_dex.States.Pool.{PoolState, get_status_by_bit, vault_amount_without_fee}
use solana_dex.Token.{
  get_transfer_fee, get_transfer_inverse_fee, inverse_fee, transfer_from_user_to_pool_vault,
  transfer_from_pool_vault_to_user, token_mint_to, token_burn,
}
use solana_dex.Instructions.Reserves.{Holds}
use solana_dex.Instructions.Liquidity.{LpAccounts, LpOutcome, check_lp_accounts, program_of}
use solana_dex.Instructions.Liquidity.Accounts.{SeparateLp, SeparateOwner}
use solana_dex.Instructions.Liquidity.Deposit.{with_inverse_fee, quote_deposit, deposit}
use solana_dex.Instructions.Liquidity.Withdraw.{less_fee, quote_withdrawal, withdraw}
use solana_dex.Instructions.Liquidity.DepositValue.{
  deposit_keeps_value, deposit_issues, deposit_limits, deposit_for_nothing,
}
use solana_dex.Instructions.Liquidity.WithdrawValue.{withdraw_keeps_value, withdraw_limits}
use solana_dex.Tests.Ledger.{Ledger, ledger, ledger-Laws}
use solana_dex.Tests.Trades.{now, mint_0, mint_1, pool, bank}

abbrev pub lp_accounts : LpAccounts ℕ
lp_accounts = record {
  owner = 10;
  authority = 11;
  pool_id = 13;
  pool_state = pool;
  owner_lp_token = record { key = 22; mint = 42; owner = 10 };
  token_0_account = record { key = 20; mint = 40; owner = 10 };
  token_1_account = record { key = 21; mint = 41; owner = 10 };
  token_0_vault = record { key = 30; mint = 40; owner = 11 };
  token_1_vault = record { key = 31; mint = 41; owner = 11 };
  token_program = 1;
  token_program_2022 = 2;
  vault_0_mint = mint_0;
  vault_1_mint = mint_1;
  lp_mint = 42;
}

pub lp_accounts-SeparateLp : SeparateLp lp_accounts
lp_accounts-SeparateLp = record {
  vaults = λ e. omega arith;
  account_0_vault_0 = λ e. omega arith;
  account_0_vault_1 = λ e. omega arith;
  account_1_vault_0 = λ e. omega arith;
  account_1_vault_1 = λ e. omega arith;
  lp_vault_0 = λ e. omega arith;
  lp_vault_1 = λ e. omega arith;
}

pub lp_accounts-SeparateOwner : SeparateOwner lp_accounts
lp_accounts-SeparateOwner = record {
  accounts = λ e. omega arith;
  lp_account_0 = λ e. omega arith;
  lp_account_1 = λ e. omega arith;
}

pub pool-Holds : Holds ledger pool bank 1_000_000 2_000_000
pool-Holds = record { vault_0 = refl; vault_1 = refl }

unfoldable pub deposit_run :
    (s : LpOutcome Ledger) × (deposit ledger 11 now lp_accounts bank 5_000 6_000 12_000 ≡ ok s)
unfolding deposit quote_deposit check_lp_accounts get_status_by_bit vault_amount_without_fee plus
    checked_sub Calculator.lp_tokens_to_trading_tokens lp_tokens_to_trading_tokens share
    round_amounts round_up checked_mul checked_div checked_rem try_u64 with_inverse_fee
    get_transfer_inverse_fee inverse_fee checked_add transfer_from_user_to_pool_vault program_of
    token_mint_to
deposit_run = (_, refl)

deposit_keeps_value_example :
    (x' : ℕ) × (y' : ℕ) × Holds ledger deposit_run.0.pool_state deposit_run.0.bank x' y'
    × (1_000_000 * deposit_run.0.pool_state.lp_supply ≤ x' * 1_000_000)
    × (2_000_000 * deposit_run.0.pool_state.lp_supply ≤ y' * 1_000_000)
deposit_keeps_value_example =
    deposit_keeps_value ledger ledger-Laws 11 now lp_accounts bank 5_000 6_000 12_000 1_000_000
      2_000_000 lp_accounts-SeparateLp pool-Holds (omega arith) (omega arith) deposit_run.1

deposit_issues_example :
    (deposit_run.0.pool_state.lp_supply ≡ 1_005_000)
    × (deposit_run.0.bank.supplies 42 ≡ 1_004_900)
    × (deposit_run.0.bank.amounts 22 ≡ 305_000)
deposit_issues_example =
    deposit_issues ledger ledger-Laws 11 now lp_accounts bank 5_000 6_000 12_000
      lp_accounts-SeparateLp lp_accounts-SeparateOwner deposit_run.1

deposit_limits_example :
    (500_000 ≤ deposit_run.0.bank.amounts 20 + 6_000)
    × (400_000 ≤ deposit_run.0.bank.amounts 21 + 12_000)
deposit_limits_example =
    deposit_limits ledger ledger-Laws 11 now lp_accounts bank 5_000 6_000 12_000
      lp_accounts-SeparateLp lp_accounts-SeparateOwner deposit_run.1

-- A pool of two mints of the first token program with few tokens in it.
abbrev thin_pool : PoolState
thin_pool = record pool {
  lp_supply = 2_000_000;
  protocol_fees_token_0 = 999_000;
  protocol_fees_token_1 = 1_999_000;
}

abbrev thin_accounts : LpAccounts ℕ
thin_accounts = record lp_accounts {
  pool_state = thin_pool;
  vault_1_mint = record { key = 41; owner = 1; decimals = 9; content = 0 };
}

thin-SeparateLp : SeparateLp thin_accounts
thin-SeparateLp = record {
  vaults = λ e. omega arith;
  account_0_vault_0 = λ e. omega arith;
  account_0_vault_1 = λ e. omega arith;
  account_1_vault_0 = λ e. omega arith;
  account_1_vault_1 = λ e. omega arith;
  lp_vault_0 = λ e. omega arith;
  lp_vault_1 = λ e. omega arith;
}

thin-Holds : Holds ledger thin_pool bank 1_020 1_030
thin-Holds = record { vault_0 = refl; vault_1 = refl }

nothing_run : (s : LpOutcome Ledger) × (deposit ledger 11 now thin_accounts bank 1_900 0 0 ≡ ok s)
unfolding deposit quote_deposit check_lp_accounts get_status_by_bit vault_amount_without_fee plus
    checked_sub Calculator.lp_tokens_to_trading_tokens lp_tokens_to_trading_tokens share
    round_amounts round_up checked_mul checked_div checked_rem try_u64 with_inverse_fee
    get_transfer_inverse_fee inverse_fee checked_add transfer_from_user_to_pool_vault program_of
    token_mint_to
nothing_run = (_, refl)

deposit_for_nothing_example :
    Holds ledger nothing_run.0.pool_state nothing_run.0.bank 1_020 1_030
    × (nothing_run.0.pool_state.lp_supply ≡ 2_001_900)
    × (nothing_run.0.bank.supplies 42 ≡ 1_001_800)
deposit_for_nothing_example =
    deposit_for_nothing ledger ledger-Laws 11 now thin_accounts bank 1_900 0 0 1_020 1_030
      thin-SeparateLp thin-Holds (omega arith) (omega arith) nothing_run.1

withdraw_run :
    (s : LpOutcome Ledger) × (withdraw ledger 11 99 now lp_accounts 99 bank 250_000 249_000 499_000
      ≡ ok s)
unfolding withdraw quote_withdrawal check_lp_accounts get_status_by_bit vault_amount_without_fee
    plus checked_sub Calculator.lp_tokens_to_trading_tokens lp_tokens_to_trading_tokens share
    round_amounts checked_mul checked_div try_u64 less_fee get_transfer_fee
    transfer_from_pool_vault_to_user program_of token_burn
withdraw_run = (_, refl)

withdraw_keeps_value_example :
    (x' : ℕ) × (y' : ℕ) × Holds ledger withdraw_run.0.pool_state withdraw_run.0.bank x' y'
    × (1_000_000 * withdraw_run.0.pool_state.lp_supply ≤ x' * 1_000_000)
    × (2_000_000 * withdraw_run.0.pool_state.lp_supply ≤ y' * 1_000_000)
    × (1_000_000 ≡ withdraw_run.0.pool_state.lp_supply + 250_000)
withdraw_keeps_value_example =
    withdraw_keeps_value ledger ledger-Laws 11 99 now lp_accounts 99 bank 250_000 249_000 499_000
      1_000_000 2_000_000 lp_accounts-SeparateLp pool-Holds withdraw_run.1

withdraw_limits_example :
    (300_000 ≡ withdraw_run.0.bank.amounts 22 + 250_000)
    × (999_900 ≡ withdraw_run.0.bank.supplies 42 + 250_000)
    × (500_000 + 249_000 ≤ withdraw_run.0.bank.amounts 20)
    × (400_000 + 499_000 ≤ withdraw_run.0.bank.amounts 21)
withdraw_limits_example =
    withdraw_limits ledger ledger-Laws 11 99 now lp_accounts 99 bank 250_000 249_000 499_000
      lp_accounts-SeparateLp lp_accounts-SeparateOwner withdraw_run.1
