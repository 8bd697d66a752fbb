-- ===== src/Program/Foreign.antt =====
-- Which accounts and mints an instruction of lib.rs may change.
use solana_dex.Base.{◌≢◌}
use solana_dex.Keys.{Pubkey}
use solana_dex.Instructions.Swap.{SwapAccounts}
use solana_dex.Instructions.Swap.Settlement.{Separate}
use solana_dex.Instructions.Liquidity.{LpAccounts}
use solana_dex.Instructions.Liquidity.Accounts.{SeparateLp}
use solana_dex.Instructions.Admin.Collect.{CollectAccounts}
use solana_dex.Instructions.Admin.CollectRun.{SeparateCollect}
use solana_dex.Instructions.Initialize.{InitializeAccounts}
use solana_dex.Program.{
  Instruction, Effect, configured, status_set, collected, created, liquidity_changed, swapped,
}

-- The accounts that an instruction pays from and to differ.
abbrev pub IsSeparate : {MintData : Type 0} → Instruction MintData → Type 0
IsSeparate (Instruction.create_amm_config owner account bump index trade protocol fund) = Unit {0}
IsSeparate (Instruction.update_amm_config owner config keys param value) = Unit {0}
IsSeparate (Instruction.update_pool_status authority pool status) = Unit {0}
IsSeparate (Instruction.collect_protocol_fee ctx n m) = SeparateCollect ctx
IsSeparate (Instruction.collect_fund_fee ctx n m) = SeparateCollect ctx
IsSeparate (Instruction.initialize ctx n m open_time) =
    (ctx.creator_token_0 ≢ ctx.token_0_vault) × (ctx.creator_token_1 ≢ ctx.token_1_vault)
IsSeparate (Instruction.deposit ctx lp n m) = SeparateLp ctx
IsSeparate (Instruction.withdraw ctx memo lp n m) = SeparateLp ctx
IsSeparate (Instruction.swap_base_input ctx n m) = Separate ctx
IsSeparate (Instruction.swap_base_output ctx n m) = Separate ctx

-- The token account `k` and the mint `m` are none of those that an instruction changes.
module _ (k m : Pubkey) {MintData : Type 0} where
  pub record ForeignLp (ctx : LpAccounts MintData) : Type 0 where
    pub lp_token : k ≢ ctx.owner_lp_token.key
    pub account_0 : k ≢ ctx.token_0_account.key
    pub account_1 : k ≢ ctx.token_1_account.key
    pub vault_0 : k ≢ ctx.token_0_vault.key
    pub vault_1 : k ≢ ctx.token_1_vault.key
    pub mint : m ≢ ctx.lp_mint

  pub record ForeignSwap (ctx : SwapAccounts MintData) : Type 0 where
    pub input_account : k ≢ ctx.input_token_account
    pub output_account : k ≢ ctx.output_token_account
    pub input_vault : k ≢ ctx.input_vault
    pub output_vault : k ≢ ctx.output_vault

  pub record ForeignCollect (ctx : CollectAccounts MintData) : Type 0 where
    pub vault_0 : k ≢ ctx.token_0_vault
    pub vault_1 : k ≢ ctx.token_1_vault
    pub recipient_0 : k ≢ ctx.recipient_token_0_account
    pub recipient_1 : k ≢ ctx.recipient_token_1_account

  pub record ForeignPool (ctx : InitializeAccounts MintData) : Type 0 where
    pub creator_0 : k ≢ ctx.creator_token_0
    pub creator_1 : k ≢ ctx.creator_token_1
    pub creator_lp : k ≢ ctx.creator_lp_token
    pub vault_0 : k ≢ ctx.token_0_vault
    pub vault_1 : k ≢ ctx.token_1_vault
    pub mint : m ≢ ctx.lp_mint.key

  abbrev pub IsForeign : Instruction MintData → Type 0
  IsForeign (Instruction.create_amm_config owner account bump index trade protocol fund) = Unit {0}
  IsForeign (Instruction.update_amm_config owner config keys param value) = Unit {0}
  IsForeign (Instruction.update_pool_status authority pool status) = Unit {0}
  IsForeign (Instruction.collect_protocol_fee ctx r₀ r₁) = ForeignCollect ctx
  IsForeign (Instruction.collect_fund_fee ctx r₀ r₁) = ForeignCollect ctx
  IsForeign (Instruction.initialize ctx n₀ n₁ open_time) = ForeignPool ctx
  IsForeign (Instruction.deposit ctx lp n₀ n₁) = ForeignLp ctx
  IsForeign (Instruction.withdraw ctx memo lp n₀ n₁) = ForeignLp ctx
  IsForeign (Instruction.swap_base_input ctx n₀ n₁) = ForeignSwap ctx
  IsForeign (Instruction.swap_base_output ctx n₀ n₁) = ForeignSwap ctx

-- The bank that an instruction leaves.
abbrev pub bank_after : {Bank : Type 0} → Bank → Effect Bank → Bank
bank_after bank (configured c) = bank
bank_after bank (status_set p) = bank
bank_after bank (collected s) = s.bank
bank_after bank (created s) = s.bank
bank_after bank (liquidity_changed s) = s.bank
bank_after bank (swapped s) = s.bank
