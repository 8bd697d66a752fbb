-- ===== src/Instructions/Liquidity/Accounts.antt =====
-- The vaults that the constraints of deposit.rs and withdraw.rs fix, and which accounts differ.
use solana_dex.Base.{◌≡◌, ◌≢◌, ok, guard-eq-ok, same-elim, ◌==◌, ==_iff}
use solana_dex.Keys.{Pubkey}
use solana_dex.Instructions.Liquidity.{LpAccounts, check_lp_accounts}

-- The owner's accounts and the vaults are different accounts.
pub record SeparateLp {MintData : Type 0} (ctx : LpAccounts MintData) : Type 0 where
  pub vaults : ctx.token_0_vault.key ≢ ctx.token_1_vault.key
  pub account_0_vault_0 : ctx.token_0_account.key ≢ ctx.token_0_vault.key
  pub account_0_vault_1 : ctx.token_0_account.key ≢ ctx.token_1_vault.key
  pub account_1_vault_0 : ctx.token_1_account.key ≢ ctx.token_0_vault.key
  pub account_1_vault_1 : ctx.token_1_account.key ≢ ctx.token_1_vault.key
  pub lp_vault_0 : ctx.owner_lp_token.key ≢ ctx.token_0_vault.key
  pub lp_vault_1 : ctx.owner_lp_token.key ≢ ctx.token_1_vault.key

-- The owner's three accounts are different.
pub record SeparateOwner {MintData : Type 0} (ctx : LpAccounts MintData) : Type 0 where
  pub accounts : ctx.token_0_account.key ≢ ctx.token_1_account.key
  pub lp_account_0 : ctx.owner_lp_token.key ≢ ctx.token_0_account.key
  pub lp_account_1 : ctx.owner_lp_token.key ≢ ctx.token_1_account.key

pub check_lp_accounts-eq-ok :
    {MintData : Type 0} (pda : Pubkey) (ctx : LpAccounts MintData)
    → check_lp_accounts pda ctx ≡ ok tt
    → (ctx.token_0_vault.key ≡ ctx.pool_state.token_0_vault)
      × (ctx.token_1_vault.key ≡ ctx.pool_state.token_1_vault)
      × (ctx.lp_mint ≡ ctx.pool_state.lp_mint)
unfolding check_lp_accounts
check_lp_accounts-eq-ok pda ctx h = same-elim ctx.authority _ _ _ h λ _ h.
    same-elim ctx.owner_lp_token.owner _ _ _ h λ _ h.
      same-elim ctx.token_0_account.mint _ _ _ h λ _ h.
        same-elim ctx.token_0_account.owner _ _ _ h λ _ h.
          same-elim ctx.token_1_account.mint _ _ _ h λ _ h.
            same-elim ctx.token_1_account.owner _ _ _ h λ _ h.
              same-elim ctx.token_0_vault.key _ _ _ h λ a h.
                same-elim ctx.token_1_vault.key _ _ _ h λ b h.
                  same-elim ctx.vault_0_mint.key _ _ _ h λ _ h.
                    same-elim ctx.vault_1_mint.key _ _ _ h
                      λ _ h. (a, b, (==_iff _ _).0 (guard-eq-ok (ctx.lp_mint == _) _ h))
