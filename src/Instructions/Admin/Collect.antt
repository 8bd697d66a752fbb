-- ===== src/Instructions/Admin/Collect.antt =====
-- instructions/admin/collect_protocol_fee.rs and collect_fund_fee.rs.
use solana_dex.Base.{
  ℕ, ◌||◌, min, Result, ok, anchor, code, invalid_owner, constraint_seeds, constraint_raw,
  constraint_address, ◌>>=◌, ◌>>◌, guard, unwrap, ◌==◌, checked_sub, if◌then◌else◌,
}
use solana_dex.Keys.{Pubkey, admin}
use solana_dex.States.Config.{AmmConfig}
use solana_dex.States.Pool.{PoolState}
use solana_dex.Token.Interface.{Spl, MintAccount, Clock}
use solana_dex.Token.{transfer_from_pool_vault_to_user}

-- The accounts that `struct CollectProtocolFee` and `struct CollectFundFee` have in common.
pub record CollectAccounts (MintData : Type 0) : Type 0 where
  pub owner : Pubkey
  pub authority : Pubkey
  pub pool_state : PoolState
  pub amm_config_key : Pubkey
  pub amm_config : AmmConfig
  pub token_0_vault : Pubkey
  pub token_0_vault_mint : Pubkey
  pub token_1_vault : Pubkey
  pub token_1_vault_mint : Pubkey
  pub vault_0_mint : MintAccount MintData
  pub vault_1_mint : MintAccount MintData
  pub recipient_token_0_account : Pubkey
  pub recipient_token_1_account : Pubkey
  pub token_program : Pubkey
  pub token_program_2022 : Pubkey

-- The constraints of the attributes, in the order of the fields; the owner may be the one that the
-- configuration names, or the administrator.
unfoldable pub check_collect_accounts :
    {MintData : Type 0} → Pubkey → Pubkey → CollectAccounts MintData → Result (Unit {0})
check_collect_accounts pda config_owner ctx = do
  guard (ctx.owner == config_owner || ctx.owner == admin) (code invalid_owner)
  guard (ctx.authority == pda) (anchor constraint_seeds)
  guard (ctx.amm_config_key == ctx.pool_state.amm_config) (anchor constraint_address)
  guard (ctx.token_0_vault == ctx.pool_state.token_0_vault) (anchor constraint_raw)
  guard (ctx.token_1_vault == ctx.pool_state.token_1_vault) (anchor constraint_raw)
  guard (ctx.vault_0_mint.key == ctx.token_0_vault_mint) (anchor constraint_address)
  guard (ctx.vault_1_mint.key == ctx.token_1_vault_mint) (anchor constraint_address)

-- What a collection leaves.
pub record CollectOutcome (Bank : Type 0) : Type 0 where
  pub pool_state : PoolState
  pub bank : Bank

-- What is taken of the fees: the amounts, and what is left of them.
unfoldable pub take_fees : ℕ → ℕ → ℕ → ℕ → Result (ℕ × ℕ × ℕ × ℕ)
take_fees requested_0 requested_1 fees_0 fees_1 = do
  let amount_0 = min requested_0 fees_0
  let amount_1 = min requested_1 fees_1
  left_0 ← unwrap (checked_sub fees_0 amount_0)
  left_1 ← unwrap (checked_sub fees_1 amount_1)
  ok (amount_0, amount_1, left_0, left_1)

module _ {MintData FeeConfig Bank : Type 0} (spl : Spl MintData FeeConfig Bank) where
  -- The two transfers, alike in both handlers.
  unfoldable pub pay_fees : Clock → CollectAccounts MintData → Bank → ℕ → ℕ → Result Bank
  pay_fees clock ctx bank amount_0 amount_1 = do
    paid_0 ←
        transfer_from_pool_vault_to_user spl bank ctx.authority ctx.token_0_vault
          ctx.recipient_token_0_account clock ctx.vault_0_mint
          (if ctx.vault_0_mint.owner == ctx.token_program
            then ctx.token_program
            else ctx.token_program_2022)
          amount_0 ctx.vault_0_mint.decimals
    transfer_from_pool_vault_to_user spl paid_0 ctx.authority ctx.token_1_vault
        ctx.recipient_token_1_account clock ctx.vault_1_mint
        (if ctx.vault_1_mint.owner == ctx.token_program
          then ctx.token_program
          else ctx.token_program_2022)
        amount_1 ctx.vault_1_mint.decimals

  unfoldable pub collect_protocol_fee :
      Pubkey → Clock → CollectAccounts MintData → Bank → ℕ → ℕ → Result (CollectOutcome Bank)
  collect_protocol_fee pda clock ctx bank amount_0_requested amount_1_requested = do
    check_collect_accounts pda ctx.amm_config.protocol_owner ctx
    (amount_0, amount_1, left_0, left_1) ←
        take_fees amount_0_requested amount_1_requested ctx.pool_state.protocol_fees_token_0
          ctx.pool_state.protocol_fees_token_1
    paid ← pay_fees clock ctx bank amount_0 amount_1
    ok (record {
      pool_state = record ctx.pool_state {
        protocol_fees_token_0 = left_0;
        protocol_fees_token_1 = left_1;
      };
      bank = paid;
    })

  unfoldable pub collect_fund_fee :
      Pubkey → Clock → CollectAccounts MintData → Bank → ℕ → ℕ → Result (CollectOutcome Bank)
  collect_fund_fee pda clock ctx bank amount_0_requested amount_1_requested = do
    check_collect_accounts pda ctx.amm_config.fund_owner ctx
    (amount_0, amount_1, left_0, left_1) ←
        take_fees amount_0_requested amount_1_requested ctx.pool_state.fund_fees_token_0
          ctx.pool_state.fund_fees_token_1
    paid ← pay_fees clock ctx bank amount_0 amount_1
    ok (record {
      pool_state = record ctx.pool_state { fund_fees_token_0 = left_0; fund_fees_token_1 = left_1 };
      bank = paid;
    })
