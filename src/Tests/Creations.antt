-- ===== src/Tests/Creations.antt =====
-- The creation of a pool.
use solana_dex.Base.{
  ◌+◌, ℕ, ◌-◌, ◌≡◌, ok, arith, refl, ◌==◌, if◌then◌else◌, checked_sub, checked_mul, plus, try_u64,
}
use solana_dex.Curve.Calculator.{validate_supply}
use solana_dex.States.Pool.{PoolState}
use solana_dex.States.Oracle.{default_state}
use solana_dex.Token.{transfer_from_user_to_pool_vault, token_mint_to}
use solana_dex.Token.Mints.{is_supported_mint, all_supported, contains}
use solana_dex.Token.Creation.{account_space, create_token_account}
use solana_dex.Instructions.Initialize.{
  Seeds, InitializeAccounts, InitializeOutcome, check_initialize_accounts, both_supported, opening,
  fund_vaults, initial_liquidity, initialize,
}
use solana_dex.Instructions.Initialize.Value.{Opened, initialize-Opened}
use solana_dex.Tests.Ledger.{
  Ledger, ledger, ledger-Laws, creation, creation-Laws, root_in, isqrt, isqrt-IsSqrt,
}
use solana_dex.Tests.Trades.{now, mint_0, mint_1, rates, pool}

-- The addresses of a pool, its mint of pool tokens, its vaults and its observations.
abbrev pub seeds : Seeds
seeds = record {
  authority = 11;
  authority_bump = 255;
  amm_config = λ i. 100 + i;
  pool = λ _ _ _. 13;
  lp_mint = λ _. 42;
  vault = λ _ m. m - 10;
  observation = λ _. 50;
}

abbrev pub creation_accounts : InitializeAccounts ℕ
creation_accounts = record {
  creator = 10;
  amm_config_key = 12;
  amm_config = rates;
  authority = 11;
  pool_id = 13;
  pool_state = empty_pool;
  token_0_mint = mint_0;
  token_1_mint = mint_1;
  lp_mint = record { key = 42; owner = 1; decimals = 9 };
  creator_token_0 = 20;
  creator_token_0_mint = 40;
  creator_token_0_owner = 10;
  creator_token_1 = 21;
  creator_token_1_mint = 41;
  creator_token_1_owner = 10;
  creator_lp_token = 22;
  token_0_vault = 30;
  token_1_vault = 31;
  observation_key = 50;
  observation_state = default_state;
  token_program = 1;
  token_0_program = 1;
  token_1_program = 2;
}
  where
    empty_pool : PoolState
    empty_pool = record pool { lp_supply = 0; open_time = 0 }

-- The creator's balances before there is a pool.
abbrev pub first_bank : Ledger
first_bank = record {
  amounts = λ k. if k == 20 then 500_000 else if k == 21 then 400_000 else 0;
  supplies = λ _. 0;
}

pub creation_run :
    (s : InitializeOutcome Ledger) × (initialize ledger creation isqrt seeds now creation_accounts
        first_bank 400_000 100_003 0
      ≡ ok s)
unfolding initialize check_initialize_accounts both_supported is_supported_mint contains
    all_supported opening plus fund_vaults create_token_account account_space
    transfer_from_user_to_pool_vault initial_liquidity validate_supply checked_mul try_u64 isqrt
    root_in checked_sub token_mint_to
creation_run = (_, refl)

initialize-Opened_example :
    Opened ledger creation isqrt ledger-Laws creation-Laws seeds now creation_accounts first_bank
      400_000 100_003 0 creation_run.0
initialize-Opened_example =
    initialize-Opened ledger creation isqrt ledger-Laws creation-Laws seeds now creation_accounts
      first_bank 400_000 100_003 0 isqrt-IsSqrt (λ e. omega arith) (λ e. omega arith)
      (λ e. omega arith) (λ e. omega arith) creation_run.1
