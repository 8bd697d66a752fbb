-- ===== src/Instructions/Liquidity.antt =====
-- What instructions/deposit.rs and instructions/withdraw.rs share: the accounts of the context, with
-- their constraints, and the outcome.
pub mod Deposit
pub mod Withdraw
pub mod Accounts
pub mod DepositRun
pub mod DepositReserves
pub mod DepositValue
pub mod WithdrawRun
pub mod WithdrawReserves
pub mod WithdrawValue
pub mod WithdrawProgress
use solana_dex.Base.{
  ℕ, Result, anchor, code, constraint_seeds, constraint_raw, constraint_address,
  constraint_token_mint, constraint_token_owner, incorrect_lp_mint, ◌>>◌, guard, ◌==◌,
  if◌then◌else◌,
}
use solana_dex.Keys.{Pubkey}
use solana_dex.States.Pool.{PoolState}
use solana_dex.States.Events.{LpChangeEvent}
use solana_dex.Token.Interface.{MintAccount}

-- A token account: its key, its mint and its owner; its balance is read from the bank.
pub record TokenAccount : Type 0 where
  pub key : Pubkey
  pub mint : Pubkey
  pub owner : Pubkey

-- The accounts that `struct Deposit` and `struct Withdraw` have in common.
pub record LpAccounts (MintData : Type 0) : Type 0 where
  pub owner : Pubkey
  pub authority : Pubkey
  pub pool_id : Pubkey
  pub pool_state : PoolState
  pub owner_lp_token : TokenAccount
  pub token_0_account : TokenAccount
  pub token_1_account : TokenAccount
  pub token_0_vault : TokenAccount
  pub token_1_vault : TokenAccount
  pub token_program : Pubkey
  pub token_program_2022 : Pubkey
  pub vault_0_mint : MintAccount MintData
  pub vault_1_mint : MintAccount MintData
  pub lp_mint : Pubkey

-- The constraints of the attributes, in the order of the fields; `pda` is the address that the
-- authority's seed derives.
unfoldable pub check_lp_accounts :
    {MintData : Type 0} → Pubkey → LpAccounts MintData → Result (Unit {0})
check_lp_accounts pda ctx = do
  guard (ctx.authority == pda) (anchor constraint_seeds)
  guard (ctx.owner_lp_token.owner == ctx.owner) (anchor constraint_token_owner)
  guard (ctx.token_0_account.mint == ctx.token_0_vault.mint) (anchor constraint_token_mint)
  guard (ctx.token_0_account.owner == ctx.owner) (anchor constraint_token_owner)
  guard (ctx.token_1_account.mint == ctx.token_1_vault.mint) (anchor constraint_token_mint)
  guard (ctx.token_1_account.owner == ctx.owner) (anchor constraint_token_owner)
  guard (ctx.token_0_vault.key == ctx.pool_state.token_0_vault) (anchor constraint_raw)
  guard (ctx.token_1_vault.key == ctx.pool_state.token_1_vault) (anchor constraint_raw)
  guard (ctx.vault_0_mint.key == ctx.token_0_vault.mint) (anchor constraint_address)
  guard (ctx.vault_1_mint.key == ctx.token_1_vault.mint) (anchor constraint_address)
  guard (ctx.lp_mint == ctx.pool_state.lp_mint) (code incorrect_lp_mint)

-- The token program that owns a vault's mint, of the two in the context.
unfoldable pub program_of :
    {MintData : Type 0} → LpAccounts MintData → MintAccount MintData → Pubkey
program_of ctx mint =
    if mint.owner == ctx.token_program then ctx.token_program else ctx.token_program_2022

-- What a deposit or a withdrawal has fixed when it begins to change state: the reserves, the amounts
-- of the event, the amounts of the transfers, and the mints' fees.
pub record LpQuote : Type 0 where
  pub total_token_0_amount : ℕ
  pub total_token_1_amount : ℕ
  pub token_0_amount : ℕ
  pub token_1_amount : ℕ
  pub transfer_token_0_amount : ℕ
  pub transfer_token_1_amount : ℕ
  pub token_0_transfer_fee : ℕ
  pub token_1_transfer_fee : ℕ

-- What a deposit or a withdrawal leaves.
pub record LpOutcome (Bank : Type 0) : Type 0 where
  pub pool_state : PoolState
  pub bank : Bank
  pub event : LpChangeEvent
