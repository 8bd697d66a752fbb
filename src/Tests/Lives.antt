-- ===== src/Tests/Lives.antt =====
-- A pool that trades and is then closed for deposits, and one that is created and closed.
use solana_dex.Base.{
  ℕ, ◌*◌, ◌≤◌, ◌≡◌, ok, refl, arith, plus, checked_sub, checked_mul, checked_div, try_u64,
  checked_rem, checked_add,
}
use solana_dex.Curve.ConstantProduct.{share, round_amounts, round_up, lp_tokens_to_trading_tokens}
use solana_dex.Curve.Calculator as Calculator
use solana_dex.Keys.{admin}
use solana_dex.States.Pool.{PoolState, get_status_by_bit, vault_amount_without_fee}
use solana_dex.Token.{
  get_transfer_fee, transfer_from_pool_vault_to_user, token_burn, get_transfer_inverse_fee,
  inverse_fee, transfer_from_user_to_pool_vault, token_mint_to,
}
use solana_dex.Instructions.Liquidity.{LpAccounts, LpOutcome, check_lp_accounts, program_of}
use solana_dex.Instructions.Liquidity.Accounts.{SeparateLp, SeparateOwner}
use solana_dex.Instructions.Liquidity.Deposit.{with_inverse_fee, quote_deposit, deposit}
use solana_dex.Instructions.Liquidity.Withdraw.{less_fee, quote_withdrawal, withdraw}
use solana_dex.Instructions.Admin.{update_pool_status}
use solana_dex.Life.{Step, Run}
use solana_dex.Life.Solvency.{IsSolvent, Run-IsSolvent}
use solana_dex.Life.Opening.{life-backed}
use solana_dex.Life.Book.{KeepsWorth}
use solana_dex.Life.Updates.{SameAccounts, IsSized}
use solana_dex.Life.Sizes.{Run-IsSized}
use solana_dex.Life.Refine.{book, Follows, Run-refines, Run-KeepsWorth}
use solana_dex.Tests.Ledger.{
  Ledger, ledger, ledger-Laws, creation, creation-Laws, isqrt, isqrt-IsSqrt,
}
use solana_dex.Tests.Trades.{now, pool, bank, trade, trade-Separate, rates-IsValid, input_run}
use solana_dex.Tests.Pools.{
  lp_accounts, lp_accounts-SeparateLp, lp_accounts-SeparateOwner, deposit_run,
}
use solana_dex.Tests.Creations.{seeds, creation_accounts, first_bank, creation_run}

closing : (p : PoolState) × (update_pool_status admin input_run.0.pool_state 1 ≡ ok p)
unfolding update_pool_status
closing = (_, refl)

trading : Run ledger pool bank closing.0 input_run.0.bank
trading =
    Run.more
      (Step.swapped_input 11 now trade bank 10_000 19_000 input_run.0 trade-Separate rates-IsValid
        input_run.1)
      (Run.more
        (Step.status_set admin input_run.0.pool_state closing.0 input_run.0.bank 1 closing.1)
        (Run.stop closing.0 input_run.0.bank))

pool-IsSolvent : IsSolvent ledger pool bank
pool-IsSolvent = record {
  reserve_0 = 1_000_000;
  reserve_1 = 2_000_000;
  held = record { vault_0 = refl; vault_1 = refl };
  counted = omega arith;
}

Run-IsSolvent_example : IsSolvent ledger closing.0 input_run.0.bank
Run-IsSolvent_example = Run-IsSolvent ledger ledger-Laws trading pool-IsSolvent

pub paused : (p : PoolState) × (update_pool_status admin creation_run.0.pool_state 7 ≡ ok p)
unfolding update_pool_status
paused = (_, refl)

abbrev pausing :
    Run ledger creation_run.0.pool_state creation_run.0.bank paused.0 creation_run.0.bank
pausing =
    Run.more
      (Step.outside creation_run.0.pool_state creation_run.0.bank creation_run.0.bank (omega arith)
        (omega arith) (omega arith))
      (Run.more
        (Step.status_set admin creation_run.0.pool_state paused.0 creation_run.0.bank 7 paused.1)
        (Run.stop paused.0 creation_run.0.bank))

-- A deposit, and the withdrawal of what it has bought.
abbrev leaving_accounts : LpAccounts ℕ
leaving_accounts = record lp_accounts { pool_state = deposit_run.0.pool_state }

leaving-SeparateLp : SeparateLp leaving_accounts
leaving-SeparateLp = record {
  vaults = λ e. omega arith;
  account_0_vault_0 = λ e. omega arith;
  account_0_vault_1 = λ e. omega arith;
  account_1_vault_0 = λ e. omega arith;
  account_1_vault_1 = λ e. omega arith;
  lp_vault_0 = λ e. omega arith;
  lp_vault_1 = λ e. omega arith;
}

leaving-SeparateOwner : SeparateOwner leaving_accounts
leaving-SeparateOwner = record {
  accounts = λ e. omega arith;
  lp_account_0 = λ e. omega arith;
  lp_account_1 = λ e. omega arith;
}

leaving_run :
    (s : LpOutcome Ledger) × (withdraw ledger 11 99 now leaving_accounts 99 deposit_run.0.bank 5_000
        4_000 9_000
      ≡ ok s)
unfolding withdraw quote_withdrawal check_lp_accounts get_status_by_bit vault_amount_without_fee
    plus checked_sub Calculator.lp_tokens_to_trading_tokens lp_tokens_to_trading_tokens share
    round_amounts checked_mul checked_div try_u64 less_fee get_transfer_fee
    transfer_from_pool_vault_to_user program_of token_burn deposit_run deposit quote_deposit
    round_up checked_rem with_inverse_fee get_transfer_inverse_fee inverse_fee checked_add
    transfer_from_user_to_pool_vault token_mint_to
leaving_run = (_, refl)

abbrev visiting : Run ledger pool bank leaving_run.0.pool_state leaving_run.0.bank
visiting =
    Run.more
      (Step.deposited 11 now lp_accounts bank 5_000 6_000 12_000 deposit_run.0
        lp_accounts-SeparateLp lp_accounts-SeparateOwner deposit_run.1)
      (Run.more
        (Step.withdrew 11 99 now leaving_accounts 99 deposit_run.0.bank 5_000 4_000 9_000
          leaving_run.0 leaving-SeparateLp leaving-SeparateOwner leaving_run.1)
        (Run.stop leaving_run.0.pool_state leaving_run.0.bank))

Run-refines_example : Follows ledger visiting
Run-refines_example = Run-refines ledger ledger-Laws visiting pool-IsSolvent

Run-KeepsWorth_example :
    KeepsWorth (book ledger pool bank) (book ledger leaving_run.0.pool_state leaving_run.0.bank)
Run-KeepsWorth_example =
    Run-KeepsWorth ledger ledger-Laws visiting ((omega arith, omega arith), (tt, tt)) pool-IsSolvent

life-backed_example :
    paused.0.lp_supply * paused.0.lp_supply
    ≤ (book ledger paused.0 creation_run.0.bank).reserve_0
      * (book ledger paused.0 creation_run.0.bank).reserve_1
life-backed_example =
    life-backed ledger ledger-Laws creation creation-Laws isqrt isqrt-IsSqrt seeds now
      creation_accounts first_bank 400_000 100_003 0 (λ e. omega arith) (λ e. omega arith)
      (λ e. omega arith) (λ e. omega arith) refl creation_run.1 pausing (tt, (tt, tt))

pool-IsSized : IsSized pool
pool-IsSized = record {
  status = omega arith;
  lp_supply = omega arith;
  protocol_0 = omega arith;
  protocol_1 = omega arith;
  fund_0 = omega arith;
  fund_1 = omega arith;
  open_time = omega arith;
}

Run-IsSized_example : IsSized leaving_run.0.pool_state × SameAccounts pool leaving_run.0.pool_state
Run-IsSized_example = Run-IsSized ledger visiting pool-IsSized
