-- ===== src/Tests/Markets.antt =====
-- The program's instructions, and a market in which a pool is created, used and closed.
use solana_dex.Base.{ℕ, ◌≡◌, ◌≢◌, none, some, ok, err, code, not_approved, refl, arith}
use solana_dex.Keys.{Pubkey, admin}
use solana_dex.States.Pool.{PoolState, set_status}
use solana_dex.Instructions.Liquidity.{LpAccounts, check_lp_accounts}
use solana_dex.Instructions.Admin.{update_pool_status}
use solana_dex.Program.{Instruction, created, liquidity_changed, status_set, process}
use solana_dex.Program.Access.{OwnTokens, process-IsAuthorized}
use solana_dex.Program.Kept.{Kept}
use solana_dex.Program.Frame.{process-Kept}
use solana_dex.Life.Solvency.{IsSolvent}
use solana_dex.Market.{Pools, set_pool, Advance, Trace}
use solana_dex.Market.Solvency.{market-IsSolvent}
use solana_dex.Market.Pausing.{pausing_refuses}
use solana_dex.Tests.Ledger.{ledger, ledger-Laws, creation, creation-Laws, isqrt, isqrt-IsSqrt}
use solana_dex.Tests.Trades.{now, pool, bank}
use solana_dex.Tests.Pools.{lp_accounts, lp_accounts-SeparateLp, deposit_run}
use solana_dex.Tests.Creations.{seeds, creation_accounts, first_bank, creation_run}
use solana_dex.Tests.Lives.{paused}

abbrev depositing : Instruction ℕ
depositing = Instruction.deposit lp_accounts 5_000 6_000 12_000

depositing_run :
    process ledger creation isqrt seeds 99 now bank depositing
    ≡ ok (liquidity_changed deposit_run.0)
unfolding process
depositing_run = rw deposit_run.1 refl

process-IsAuthorized_example : OwnTokens 11 lp_accounts
process-IsAuthorized_example =
    process-IsAuthorized seeds ledger creation isqrt 99 now bank depositing depositing_run

-- The balance of another pool's vault and the supply of its tokens.
process-Kept_example : Kept ledger ledger-Laws 77 78 bank deposit_run.0.bank
process-Kept_example =
    process-Kept seeds ledger ledger-Laws creation creation-Laws isqrt 99 now bank 77 78 depositing
      lp_accounts-SeparateLp
      (record {
        lp_token = λ e. omega arith;
        account_0 = λ e. omega arith;
        account_1 = λ e. omega arith;
        vault_0 = λ e. omega arith;
        vault_1 = λ e. omega arith;
        mint = λ e. omega arith;
      })
      depositing_run

abbrev no_pools : Pools
no_pools = λ _. none

opening_run :
    process ledger creation isqrt seeds 99 now first_bank
      (Instruction.initialize creation_accounts 400_000 100_003 0)
    ≡ ok (created creation_run.0)
unfolding process
opening_run = rw creation_run.1 refl

pausing_run :
    process ledger creation isqrt seeds 99 now creation_run.0.bank
      (Instruction.update_pool_status admin creation_run.0.pool_state 7)
    ≡ ok (status_set paused.0)
unfolding process
pausing_run = rw paused.1 refl

only_pool :
    (p : PoolState) (j : Pubkey) (q : PoolState) → j ≢ 13 → set_pool no_pools 13 p j ≡ some q → ⊥
only_pool p j q ne h = ground arith

abbrev one_pool : Pools
one_pool = set_pool no_pools 13 creation_run.0.pool_state

abbrev paused_pool : Pools
paused_pool = set_pool one_pool 13 paused.0

market : Trace ledger creation isqrt seeds 99 no_pools first_bank paused_pool creation_run.0.bank
market =
    Trace.next
      (Advance.opened now creation_accounts 400_000 100_003 0 creation_run.0
        ((λ e. omega arith), (λ e. omega arith)) (λ e. omega arith) (λ e. omega arith) refl
        (λ j q h. cc) opening_run)
      (Trace.next
        (Advance.acted now (Instruction.update_pool_status admin creation_run.0.pool_state 7)
          (status_set paused.0) 13 creation_run.0.pool_state refl refl tt tt
          (λ j q ne h. absurd (only_pool creation_run.0.pool_state j q ne h)) pausing_run)
        (Trace.start paused_pool creation_run.0.bank))

market-IsSolvent_example : IsSolvent ledger paused.0 creation_run.0.bank
market-IsSolvent_example =
    market-IsSolvent ledger ledger-Laws creation creation-Laws isqrt isqrt-IsSqrt seeds 99 13
      paused.0 market refl

-- A pool that the administrator closes for deposits, and a deposit into it.
abbrev closed_accounts : LpAccounts ℕ
closed_accounts = record lp_accounts { pool_state = record pool { status = 1 } }

closing_run :
    process ledger creation isqrt seeds 99 now bank (Instruction.update_pool_status admin pool 1)
    ≡ ok (status_set closed_accounts.pool_state)
unfolding process update_pool_status set_status
closing_run = refl

pausing_refuses_example :
    process ledger creation isqrt seeds 99 now bank
      (Instruction.deposit closed_accounts 5_000 6_000 12_000)
    ≡ err (code not_approved)
unfolding check_lp_accounts
pausing_refuses_example =
    pausing_refuses ledger creation isqrt seeds 99 now bank admin pool 1 now bank
      (Instruction.deposit closed_accounts 5_000 6_000 12_000) closed_accounts.pool_state
      closing_run refl refl refl
