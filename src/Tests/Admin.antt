-- ===== src/Tests/Admin.antt =====
-- The administrator's instructions: a configuration, and the collection of fees.
use solana_dex.Base.{◌+◌, ℕ, ◌≡◌, [], ok, refl, arith, plus, checked_sub}
use solana_dex.Keys.{Pubkey, admin}
use solana_dex.States.Config.{AmmConfig, IsValid}
use solana_dex.Token.{transfer_from_pool_vault_to_user}
use solana_dex.Instructions.Reserves.{Holds}
use solana_dex.Instructions.Admin.{
  create_config_handler, create_amm_config, update_amm_config, update_param, update_fund_fee_rate,
}
use solana_dex.Instructions.Admin.Rates.{create_amm_config-IsValid, update_amm_config-IsValid}
use solana_dex.Instructions.Admin.Changes.{Change}
use solana_dex.Instructions.Admin.Collect.{
  CollectAccounts, CollectOutcome, check_collect_accounts, take_fees, pay_fees,
  collect_protocol_fee, collect_fund_fee,
}
use solana_dex.Instructions.Admin.CollectRun.{SeparateCollect}
use solana_dex.Instructions.Admin.CollectValue.{
  Collected, collect_protocol_fee_pays, collect_fund_fee_pays,
}
use solana_dex.Tests.Ledger.{Ledger, ledger, ledger-Laws}
use solana_dex.Tests.Trades.{now, mint_0, mint_1, rates, rates-IsValid, pool, bank}

abbrev derived : ℕ → Pubkey
derived = λ i. 100 + i

abbrev config_key : Pubkey
config_key = 103

config_run :
    (c : AmmConfig) × (create_amm_config derived admin config_key 254 3 2_500 120_000 40_000 ≡ ok c)
unfolding create_amm_config create_config_handler plus
config_run = (_, refl)

create_amm_config-IsValid_example :
    IsValid config_run.0
    × (config_key ≡ derived 3)
    × (admin ≡ admin)
    × (config_run.0.index ≡ 3)
    × (config_run.0.trade_fee_rate ≡ 2_500)
    × (config_run.0.protocol_fee_rate ≡ 120_000)
    × (config_run.0.fund_fee_rate ≡ 40_000)
create_amm_config-IsValid_example =
    create_amm_config-IsValid derived admin config_key 254 3 2_500 120_000 40_000 config_run.1

update_run : (c : AmmConfig) × (update_amm_config admin rates [] 2 880_000 ≡ ok c)
unfolding update_amm_config update_param update_fund_fee_rate plus
update_run = (_, refl)

update_amm_config-IsValid_example :
    IsValid update_run.0 × (admin ≡ admin) × Change rates [] 880_000 update_run.0 2
update_amm_config-IsValid_example =
    update_amm_config-IsValid rates rates-IsValid admin [] 2 880_000 update_run.1

-- The protocol's owner is 14, the fund's is 15.
abbrev collect_accounts : CollectAccounts ℕ
collect_accounts = record {
  owner = 14;
  authority = 11;
  pool_state = pool;
  amm_config_key = 12;
  amm_config = rates;
  token_0_vault = 30;
  token_0_vault_mint = 40;
  token_1_vault = 31;
  token_1_vault_mint = 41;
  vault_0_mint = mint_0;
  vault_1_mint = mint_1;
  recipient_token_0_account = 60;
  recipient_token_1_account = 61;
  token_program = 1;
  token_program_2022 = 2;
}

abbrev fund_accounts : CollectAccounts ℕ
fund_accounts = record collect_accounts { owner = 15 }

collect-SeparateCollect : SeparateCollect collect_accounts
collect-SeparateCollect = record {
  vaults = λ e. omega arith;
  vault_0_recipient_0 = λ e. omega arith;
  vault_0_recipient_1 = λ e. omega arith;
  vault_1_recipient_0 = λ e. omega arith;
  vault_1_recipient_1 = λ e. omega arith;
}

fund-SeparateCollect : SeparateCollect fund_accounts
fund-SeparateCollect = record {
  vaults = λ e. omega arith;
  vault_0_recipient_0 = λ e. omega arith;
  vault_0_recipient_1 = λ e. omega arith;
  vault_1_recipient_0 = λ e. omega arith;
  vault_1_recipient_1 = λ e. omega arith;
}

vaults-Holds : Holds ledger pool bank 1_000_000 2_000_000
vaults-Holds = record { vault_0 = refl; vault_1 = refl }

protocol_run :
    (s : CollectOutcome Ledger) × (collect_protocol_fee ledger 11 now collect_accounts bank 15 100
      ≡ ok s)
unfolding collect_protocol_fee check_collect_accounts take_fees checked_sub pay_fees
    transfer_from_pool_vault_to_user
protocol_run = (_, refl)

collect_protocol_fee_pays_example :
    Collected ledger ledger-Laws 11 now collect_accounts bank 14 15 100 20 30 1_000_000 2_000_000
      protocol_run.0
collect_protocol_fee_pays_example =
    collect_protocol_fee_pays ledger ledger-Laws 11 now collect_accounts bank 15 100 1_000_000
      2_000_000 collect-SeparateCollect vaults-Holds protocol_run.1

fund_run :
    (s : CollectOutcome Ledger) × (collect_fund_fee ledger 11 now fund_accounts bank 0 100 ≡ ok s)
unfolding collect_fund_fee check_collect_accounts take_fees checked_sub pay_fees
    transfer_from_pool_vault_to_user
fund_run = (_, refl)

collect_fund_fee_pays_example :
    Collected ledger ledger-Laws 11 now fund_accounts bank 15 0 100 10 20 1_000_000 2_000_000
      fund_run.0
collect_fund_fee_pays_example =
    collect_fund_fee_pays ledger ledger-Laws 11 now fund_accounts bank 0 100 1_000_000 2_000_000
      fund-SeparateCollect vaults-Holds fund_run.1
