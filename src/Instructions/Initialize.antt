-- ===== src/Instructions/Initialize.antt =====
-- instructions/initialize.rs. The accounts that `init` creates come as created: the pool's state and
-- the oracle's are all zero, and the mint of the pool tokens exists. The `msg!` calls only write to
-- the log.
pub mod Value
use solana_dex.Base.{
  ℕ, ◌<◌, Bool, false, Result, ok, err, anchor, code, constraint_raw, constraint_seeds,
  constraint_token_mint, constraint_token_owner, constraint_mint_token_program, not_support_mint,
  not_approved, init_lp_amount_too_less, ◌>>=◌, ◌>>◌, guard, not, unwrap, unwrap_result, ok_or, ltb,
  leb, ◌==◌, if◌then◌else◌, u64_mod, u128_mod, plus, checked_mul, checked_sub, try_u64,
}
use solana_dex.Keys.{Pubkey}
use solana_dex.Curve.Calculator.{validate_supply}
use solana_dex.States.Config.{AmmConfig}
use solana_dex.States.Pool.{PoolState, MintInfo}
use solana_dex.States.Pool as Pool
use solana_dex.States.Oracle.{ObservationState}
use solana_dex.States.Events.{CreatePoolEvent}
use solana_dex.Token.Interface.{Spl, MintAccount, Clock}
use solana_dex.Token.Creation.{Creation, create_token_account}
use solana_dex.Token.Mints.{is_supported_mint}
use solana_dex.Token.{invoke, transfer_from_user_to_pool_vault, token_mint_to}

-- The addresses that the program's seeds derive, and the bump of the authority's.
pub record Seeds : Type 0 where
  pub authority : Pubkey
  pub authority_bump : ℕ
  pub amm_config : ℕ → Pubkey
  pub pool : Pubkey → Pubkey → Pubkey → Pubkey
  pub lp_mint : Pubkey → Pubkey
  pub vault : Pubkey → Pubkey → Pubkey
  pub observation : Pubkey → Pubkey

-- `struct Initialize`: token accounts with their mint and owner.
pub record InitializeAccounts (MintData : Type 0) : Type 0 where
  pub creator : Pubkey
  pub amm_config_key : Pubkey
  pub amm_config : AmmConfig
  pub authority : Pubkey
  pub pool_id : Pubkey
  pub pool_state : PoolState
  pub token_0_mint : MintAccount MintData
  pub token_1_mint : MintAccount MintData
  pub lp_mint : MintInfo
  pub creator_token_0 : Pubkey
  pub creator_token_0_mint : Pubkey
  pub creator_token_0_owner : Pubkey
  pub creator_token_1 : Pubkey
  pub creator_token_1_mint : Pubkey
  pub creator_token_1_owner : Pubkey
  pub creator_lp_token : Pubkey
  pub token_0_vault : Pubkey
  pub token_1_vault : Pubkey
  pub observation_key : Pubkey
  pub observation_state : ObservationState
  pub token_program : Pubkey
  pub token_0_program : Pubkey
  pub token_1_program : Pubkey

-- The constraints of the attributes.
unfoldable pub check_initialize_accounts :
    {MintData : Type 0} → Seeds → InitializeAccounts MintData → Result (Unit {0})
check_initialize_accounts seeds ctx = do
  guard (ctx.authority == seeds.authority) (anchor constraint_seeds)
  guard (ctx.pool_id == seeds.pool ctx.amm_config_key ctx.token_0_mint.key ctx.token_1_mint.key)
      (anchor constraint_seeds)
  guard (ltb ctx.token_0_mint.key ctx.token_1_mint.key) (anchor constraint_raw)
  guard (ctx.token_0_mint.owner == ctx.token_0_program) (anchor constraint_mint_token_program)
  guard (ctx.token_1_mint.owner == ctx.token_1_program) (anchor constraint_mint_token_program)
  guard (ctx.lp_mint.key == seeds.lp_mint ctx.pool_id) (anchor constraint_seeds)
  guard (ctx.creator_token_0_mint == ctx.token_0_mint.key) (anchor constraint_token_mint)
  guard (ctx.creator_token_0_owner == ctx.creator) (anchor constraint_token_owner)
  guard (ctx.creator_token_1_mint == ctx.token_1_mint.key) (anchor constraint_token_mint)
  guard (ctx.creator_token_1_owner == ctx.creator) (anchor constraint_token_owner)
  guard (ctx.token_0_vault == seeds.vault ctx.pool_id ctx.token_0_mint.key)
      (anchor constraint_seeds)
  guard (ctx.token_1_vault == seeds.vault ctx.pool_id ctx.token_1_mint.key)
      (anchor constraint_seeds)
  guard (ctx.observation_key == seeds.observation ctx.pool_id) (anchor constraint_seeds)

-- The pool opens after the block of its creation.
unfoldable pub opening : ℕ → ℕ → Result ℕ
opening open_time block_timestamp =
    if leb open_time block_timestamp then plus u64_mod block_timestamp 1 else ok open_time

abbrev pub lock_lp_amount : ℕ
lock_lp_amount = 100

-- What `initialize` of the pool's state reads of a mint.
unfoldable pub mint_info : {MintData : Type 0} → MintAccount MintData → MintInfo
mint_info mint = record { key = mint.key; owner = mint.owner; decimals = mint.decimals }

-- What the creation of a pool leaves.
pub record InitializeOutcome (Bank : Type 0) : Type 0 where
  pub pool_state : PoolState
  pub observation_state : ObservationState
  pub bank : Bank
  pub event : CreatePoolEvent

module _ {MintData FeeConfig Bank : Type 0} (spl : Spl MintData FeeConfig Bank)
    (creation : Creation Bank) (integer_sqrt : ℕ → ℕ) where
  unfoldable pub both_supported : MintAccount MintData → MintAccount MintData → Result Bool
  both_supported mint_0 mint_1 = do
    first ← unwrap_result (is_supported_mint spl mint_0)
    if first then unwrap_result (is_supported_mint spl mint_1) else ok false

  -- The accounts of the pool, and the deposits of the creator into its vaults.
  unfoldable pub fund_vaults : Clock → InitializeAccounts MintData → Bank → ℕ → ℕ → Result Bank
  fund_vaults clock ctx bank init_amount_0 init_amount_1 = do
    associated ← invoke (
        creation.create_associated_token_account_idempotent bank ctx.creator ctx.creator_lp_token
          ctx.lp_mint.key ctx.token_program)
    vault_0 ←
        create_token_account spl creation associated ctx.authority ctx.creator ctx.token_0_vault
          ctx.token_0_mint ctx.token_0_program
    vault_1 ←
        create_token_account spl creation vault_0 ctx.authority ctx.creator ctx.token_1_vault
          ctx.token_1_mint ctx.token_1_program
    paid_0 ←
        transfer_from_user_to_pool_vault spl vault_1 ctx.creator ctx.creator_token_0
          ctx.token_0_vault clock ctx.token_0_mint ctx.token_0_program init_amount_0
          ctx.token_0_mint.decimals
    transfer_from_user_to_pool_vault spl paid_0 ctx.creator ctx.creator_token_1 ctx.token_1_vault
        clock ctx.token_1_mint ctx.token_1_program init_amount_1 ctx.token_1_mint.decimals

  -- The pool tokens of the first reserves.
  unfoldable pub initial_liquidity : ℕ → ℕ → Result ℕ
  initial_liquidity token_0_amount token_1_amount = do
    validate_supply token_0_amount token_1_amount
    product ← unwrap (checked_mul u128_mod token_0_amount token_1_amount)
    unwrap (try_u64 (integer_sqrt product))

  unfoldable pub initialize :
      Seeds
      → Clock
      → InitializeAccounts MintData
      → Bank
      → ℕ
      → ℕ
      → ℕ
      → Result (InitializeOutcome Bank)
  initialize seeds clock ctx bank init_amount_0 init_amount_1 open_time = do
    check_initialize_accounts seeds ctx
    supported ← both_supported ctx.token_0_mint ctx.token_1_mint
    guard supported (code not_support_mint)
    guard (not ctx.amm_config.disable_create_pool) (code not_approved)
    open_time ← opening open_time clock.unix_timestamp
    funded ← fund_vaults clock ctx bank init_amount_0 init_amount_1
    liquidity ←
        initial_liquidity (spl.amount funded ctx.token_0_vault)
          (spl.amount funded ctx.token_1_vault)
    minted_amount ← ok_or (checked_sub liquidity lock_lp_amount) init_lp_amount_too_less
    minted ←
        token_mint_to spl funded ctx.authority ctx.token_program ctx.lp_mint.key
          ctx.creator_lp_token minted_amount
    ok (record {
      pool_state =
          Pool.initialize ctx.pool_state seeds.authority_bump liquidity open_time ctx.creator
            ctx.amm_config_key ctx.token_0_vault ctx.token_1_vault (mint_info ctx.token_0_mint)
            (mint_info ctx.token_1_mint) ctx.lp_mint ctx.observation_key;
      observation_state = record ctx.observation_state { pool_id = ctx.pool_id };
      bank = minted;
      event = record {
        pool_id = ctx.pool_id;
        creator = ctx.creator;
        token_0_mint = ctx.token_0_mint.key;
        token_1_mint = ctx.token_1_mint.key;
        token_0_amount = spl.amount funded ctx.token_0_vault;
        token_1_amount = spl.amount funded ctx.token_1_vault;
        lp_mint = ctx.lp_mint.key;
        liquidity = liquidity;
      };
    })
