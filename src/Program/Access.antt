-- ===== src/Program/Access.antt =====
-- Who may have the program do what: the signers and the authority behind every instruction.
use solana_dex.Base.{
  ℕ, ◌<◌, ◌≡◌, ◌⊎◌, ◌==◌, ==_iff, guard-eq-ok, ltb→lt, ok, anchor, constraint_raw, guard, >>=-elim,
  >>-elim, same-elim, ltb,
}
use solana_dex.Keys.{Pubkey, admin}
use solana_dex.Token.Interface.{Spl, Clock}
use solana_dex.Token.Creation.{Creation}
use solana_dex.Instructions.Swap.{check_swap_accounts}
use solana_dex.Instructions.Swap.BaseInput.{swap_base_input}
use solana_dex.Instructions.Swap.BaseOutput.{swap_base_output}
use solana_dex.Instructions.Swap.Gate.{authority_of}
use solana_dex.Instructions.Liquidity.{LpAccounts, check_lp_accounts}
use solana_dex.Instructions.Liquidity.Accounts.{check_lp_accounts-eq-ok}
use solana_dex.Instructions.Liquidity.Deposit.{deposit}
use solana_dex.Instructions.Liquidity.Withdraw.{withdraw}
use solana_dex.Instructions.Admin.{create_amm_config, update_amm_config, update_pool_status}
use solana_dex.Instructions.Admin.Collect.{
  check_collect_accounts, collect_protocol_fee, collect_fund_fee,
}
use solana_dex.Instructions.Admin.CollectRun.{check_collect_accounts-eq-ok}
use solana_dex.Instructions.Initialize.{
  Seeds, InitializeAccounts, check_initialize_accounts, initialize,
}
use solana_dex.Program.{Instruction, Effect, process}

-- The accounts of a provider's instruction: the three token accounts are the signer's own, the
-- vaults and the mint of pool tokens are the pool's, and the vaults' owner is the program's
-- authority.
pub record OwnTokens {MintData : Type 0} (authority : Pubkey) (ctx : LpAccounts MintData)
    : Type 0 where
  pub authority_derived : ctx.authority ≡ authority
  pub lp_owned : ctx.owner_lp_token.owner ≡ ctx.owner
  pub token_0_owned : ctx.token_0_account.owner ≡ ctx.owner
  pub token_1_owned : ctx.token_1_account.owner ≡ ctx.owner
  pub vault_0 : ctx.token_0_vault.key ≡ ctx.pool_state.token_0_vault
  pub vault_1 : ctx.token_1_vault.key ≡ ctx.pool_state.token_1_vault
  pub lp_mint : ctx.lp_mint ≡ ctx.pool_state.lp_mint

-- The accounts of a new pool: the two that pay are the creator's own and of the pool's two mints,
-- which are in order and of the token programs that are named, and the pool's addresses are the ones
-- that the program's seeds derive. Where the pool tokens go is left to the creator.
pub record OwnPool {MintData : Type 0} (seeds : Seeds) (ctx : InitializeAccounts MintData)
    : Type 0 where
  pub authority_derived : ctx.authority ≡ seeds.authority
  pub pool_derived :
      ctx.pool_id ≡ seeds.pool ctx.amm_config_key ctx.token_0_mint.key ctx.token_1_mint.key
  pub lp_mint_derived : ctx.lp_mint.key ≡ seeds.lp_mint ctx.pool_id
  pub ordered : ctx.token_0_mint.key < ctx.token_1_mint.key
  pub program_0 : ctx.token_0_mint.owner ≡ ctx.token_0_program
  pub program_1 : ctx.token_1_mint.owner ≡ ctx.token_1_program
  pub token_0_of : ctx.creator_token_0_mint ≡ ctx.token_0_mint.key
  pub token_1_of : ctx.creator_token_1_mint ≡ ctx.token_1_mint.key
  pub token_0_owned : ctx.creator_token_0_owner ≡ ctx.creator
  pub token_1_owned : ctx.creator_token_1_owner ≡ ctx.creator
  pub vault_0_derived : ctx.token_0_vault ≡ seeds.vault ctx.pool_id ctx.token_0_mint.key
  pub vault_1_derived : ctx.token_1_vault ≡ seeds.vault ctx.pool_id ctx.token_1_mint.key
  pub observation_derived : ctx.observation_key ≡ seeds.observation ctx.pool_id

module _ (seeds : Seeds) {MintData : Type 0} where
  -- Who may send an instruction, and with which accounts. The administrator alone configures fees
  -- and sets the status of a pool; fees are collected by the owner that the configuration names, or
  -- by the administrator; a swap names the program's authority.
  abbrev pub IsAuthorized : Instruction MintData → Type 0
  IsAuthorized (Instruction.create_amm_config owner account bump index trade protocol fund) =
      (owner ≡ admin) × (account ≡ seeds.amm_config index)
  IsAuthorized (Instruction.update_amm_config owner config keys param value) = owner ≡ admin
  IsAuthorized (Instruction.update_pool_status authority pool status) = authority ≡ admin
  IsAuthorized (Instruction.collect_protocol_fee ctx n m) =
      (ctx.owner ≡ ctx.amm_config.protocol_owner) ⊎ (ctx.owner ≡ admin)
  IsAuthorized (Instruction.collect_fund_fee ctx n m) =
      (ctx.owner ≡ ctx.amm_config.fund_owner) ⊎ (ctx.owner ≡ admin)
  IsAuthorized (Instruction.initialize ctx n m open_time) = OwnPool seeds ctx
  IsAuthorized (Instruction.deposit ctx lp n m) = OwnTokens seeds.authority ctx
  IsAuthorized (Instruction.withdraw ctx memo lp n m) = OwnTokens seeds.authority ctx
  IsAuthorized (Instruction.swap_base_input ctx n m) = ctx.authority ≡ seeds.authority
  IsAuthorized (Instruction.swap_base_output ctx n m) = ctx.authority ≡ seeds.authority

  check_lp_accounts-OwnTokens :
      (ctx : LpAccounts MintData)
      → check_lp_accounts seeds.authority ctx ≡ ok tt
      → OwnTokens seeds.authority ctx
  unfolding check_lp_accounts
  check_lp_accounts-OwnTokens ctx h =
      let (a, b, m) = check_lp_accounts-eq-ok seeds.authority ctx h in
      same-elim ctx.authority _ _ _ h λ e₀ h. same-elim ctx.owner_lp_token.owner _ _ _ h λ e₁ h.
        same-elim ctx.token_0_account.mint _ _ _ h λ _ h.
          same-elim ctx.token_0_account.owner _ _ _ h λ e₂ h.
            same-elim ctx.token_1_account.mint _ _ _ h λ _ h.
              same-elim ctx.token_1_account.owner _ _ _ h λ e₃ _. record {
                authority_derived = e₀;
                lp_owned = e₁;
                token_0_owned = e₂;
                token_1_owned = e₃;
                vault_0 = a;
                vault_1 = b;
                lp_mint = m;
              }

  check_initialize_accounts-OwnPool :
      (ctx : InitializeAccounts MintData)
      → check_initialize_accounts seeds ctx ≡ ok tt
      → OwnPool seeds ctx
  unfolding check_initialize_accounts
  check_initialize_accounts-OwnPool ctx h = same-elim ctx.authority _ _ _ h λ e₀ h.
      same-elim ctx.pool_id _ _ _ h λ e₁ h.
        >>-elim (guard (ltb ctx.token_0_mint.key ctx.token_1_mint.key) (anchor constraint_raw)) _ h
          λ o h. same-elim ctx.token_0_mint.owner _ _ _ h λ p₀ h.
            same-elim ctx.token_1_mint.owner _ _ _ h λ p₁ h.
              same-elim ctx.lp_mint.key _ _ _ h λ e₂ h.
                same-elim ctx.creator_token_0_mint _ _ _ h λ m₀ h.
                  same-elim ctx.creator_token_0_owner _ _ _ h λ e₃ h.
                    same-elim ctx.creator_token_1_mint _ _ _ h λ m₁ h.
                      same-elim ctx.creator_token_1_owner _ _ _ h λ e₄ h.
                        same-elim ctx.token_0_vault _ _ _ h λ e₅ h.
                          same-elim ctx.token_1_vault _ _ _ h λ e₆ h. record {
                            authority_derived = e₀;
                            pool_derived = e₁;
                            lp_mint_derived = e₂;
                            ordered = ltb→lt _ _ (guard-eq-ok _ _ o);
                            program_0 = p₀;
                            program_1 = p₁;
                            token_0_of = m₀;
                            token_1_of = m₁;
                            token_0_owned = e₃;
                            token_1_owned = e₄;
                            vault_0_derived = e₅;
                            vault_1_derived = e₆;
                            observation_derived =
                                (==_iff _ _).0 (guard-eq-ok (ctx.observation_key == _) _ h);
                          }

  module _ {FeeConfig Bank : Type 0} (spl : Spl MintData FeeConfig Bank) (creation : Creation Bank)
      (integer_sqrt : ℕ → ℕ) (memo_id : Pubkey) (clock : Clock) (bank : Bank) where
    -- Of every instruction that the program processes with success: fees are configured and the
    -- status of a pool is set by the administrator, a new configuration at the address that is
    -- derived from its index; fees are collected by the owner that the configuration names or by
    -- the administrator; a pool is created at the derived addresses of itself, of the authority, of
    -- its mint of pool tokens, of its vaults and of its observations, for two mints in order and of
    -- the token programs that are named, and is paid for from the creator's own accounts of these
    -- mints; a deposit or a withdrawal names three token accounts of the signer's own, the vaults
    -- and the mint of the pool, and the derived authority; and a swap names the derived authority.
    pub process-IsAuthorized :
        (i : Instruction MintData) {e : Effect Bank}
        → process spl creation integer_sqrt seeds memo_id clock bank i ≡ ok e
        → IsAuthorized i
    unfolding process create_amm_config update_amm_config update_pool_status collect_protocol_fee
        collect_fund_fee initialize deposit withdraw swap_base_input swap_base_output
    process-IsAuthorized
          (Instruction.create_amm_config owner account bump index trade protocol fund) h =
        >>=-elim (create_amm_config seeds.amm_config owner account bump index trade protocol fund) _
          h λ _ h _. same-elim account _ _ _ h λ a h. same-elim owner admin _ _ h λ e _. (e, a)
    process-IsAuthorized (Instruction.update_amm_config owner config keys param value) h =
        >>=-elim (update_amm_config owner config keys param value) _ h
          λ _ h _. same-elim owner admin _ _ h λ e _. e
    process-IsAuthorized (Instruction.update_pool_status authority pool status) h =
        >>=-elim (update_pool_status authority pool status) _ h
          λ _ h _. same-elim authority admin _ _ h λ e _. e
    process-IsAuthorized (Instruction.collect_protocol_fee ctx n m) h =
        >>=-elim (collect_protocol_fee spl seeds.authority clock ctx bank n m) _ h λ _ h _.
          >>-elim (check_collect_accounts seeds.authority _ ctx) _ h
            λ e _. (check_collect_accounts-eq-ok _ _ ctx e).0
    process-IsAuthorized (Instruction.collect_fund_fee ctx n m) h =
        >>=-elim (collect_fund_fee spl seeds.authority clock ctx bank n m) _ h λ _ h _.
          >>-elim (check_collect_accounts seeds.authority _ ctx) _ h
            λ e _. (check_collect_accounts-eq-ok _ _ ctx e).0
    process-IsAuthorized (Instruction.initialize ctx n m open_time) h =
        >>=-elim (initialize spl creation integer_sqrt seeds clock ctx bank n m open_time) _ h
          λ _ h _.
            >>-elim (check_initialize_accounts seeds ctx) _ h
              λ e _. check_initialize_accounts-OwnPool ctx e
    process-IsAuthorized (Instruction.deposit ctx lp n m) h =
        >>=-elim (deposit spl seeds.authority clock ctx bank lp n m) _ h λ _ h _.
          >>-elim (check_lp_accounts seeds.authority ctx) _ h
            λ e _. check_lp_accounts-OwnTokens ctx e
    process-IsAuthorized (Instruction.withdraw ctx memo lp n m) h =
        >>=-elim (withdraw spl seeds.authority memo_id clock ctx memo bank lp n m) _ h λ _ h _.
          >>-elim (check_lp_accounts seeds.authority ctx) _ h
            λ e _. check_lp_accounts-OwnTokens ctx e
    process-IsAuthorized (Instruction.swap_base_input ctx n m) h =
        >>=-elim (swap_base_input spl seeds.authority clock ctx bank n m) _ h λ _ h _.
          >>-elim (check_swap_accounts seeds.authority ctx) _ h
            λ e _. authority_of seeds.authority ctx e
    process-IsAuthorized (Instruction.swap_base_output ctx n m) h =
        >>=-elim (swap_base_output spl seeds.authority clock ctx bank n m) _ h λ _ h _.
          >>-elim (check_swap_accounts seeds.authority ctx) _ h
            λ e _. authority_of seeds.authority ctx e
