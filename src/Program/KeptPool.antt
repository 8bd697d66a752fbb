-- ===== src/Program/KeptPool.antt =====
-- The balances and supplies that the creation of a pool leaves alone.
use solana_dex.Base.{
  ℕ, ◌≡◌, ◌≢◌, ok, ok-injective, subst, ◌∙◌, >>=-elim, >>-elim, guard, not, code, not_support_mint,
  not_approved, init_lp_amount_too_less, ok_or, checked_sub,
}
use solana_dex.Keys.{Pubkey}
use solana_dex.Token.Interface.{Spl, Clock}
use solana_dex.Token.{invoke, transfer_from_user_to_pool_vault, token_mint_to}
use solana_dex.Token.Laws.{Laws, transfer_from_user-some, token_mint_to-Minted}
use solana_dex.Token.Creation.{
  Creation, CreationLaws, create_token_account, create_token_account_supply,
  create_token_account_amount,
}
use solana_dex.Instructions.Initialize.{
  Seeds, InitializeAccounts, InitializeOutcome, check_initialize_accounts, opening, lock_lp_amount,
  both_supported, fund_vaults, initial_liquidity, initialize,
}
use solana_dex.Program.Foreign.{ForeignPool}
use solana_dex.Program.Kept.{Kept}

module _ {MintData FeeConfig Bank : Type 0} (spl : Spl MintData FeeConfig Bank) (laws : Laws spl)
    (k m : Pubkey) where
  module _ (creation : Creation Bank) (issues : CreationLaws spl creation) (integer_sqrt : ℕ → ℕ)
      (clock : Clock) (ctx : InitializeAccounts MintData) (bank : Bank) (n₀ n₁ : ℕ) where
    fund_vaults-Kept :
        {b : Bank}
        → ctx.creator_token_0 ≢ ctx.token_0_vault
        → ctx.creator_token_1 ≢ ctx.token_1_vault
        → ForeignPool k m ctx
        → fund_vaults spl creation integer_sqrt clock ctx bank n₀ n₁ ≡ ok b
        → Kept spl laws k m bank b
    unfolding fund_vaults
    fund_vaults-Kept ne_0 ne_1 away h =
        >>=-elim
          (invoke (
            creation.create_associated_token_account_idempotent bank ctx.creator
              ctx.creator_lp_token ctx.lp_mint.key ctx.token_program))
          _ h
          λ b₁ e₁ h.
            >>=-elim (create_token_account spl creation b₁ _ _ ctx.token_0_vault _ _) _ h λ b₂ e₂ h.
              >>=-elim (create_token_account spl creation b₂ _ _ ctx.token_1_vault _ _) _ h
                λ b₃ e₃ h.
                  >>=-elim (transfer_from_user_to_pool_vault spl b₃ _ _ _ _ _ _ n₀ _) _ h λ b₄ e₄ h.
                    let (_, in_0) =
                      transfer_from_user-some spl laws b₃ _ _ _ clock ctx.token_0_mint _ n₀ _ ne_0
                        e₄ in
                    let (_, in_1) =
                      transfer_from_user-some spl laws b₄ _ _ _ clock ctx.token_1_mint _ n₁ _ ne_1
                        h in
                    record {
                      balance =
                          in_1.others k away.creator_1 away.vault_1
                          ∙ (in_0.others k away.creator_0 away.vault_0
                              ∙ (create_token_account_amount spl creation issues b₂ _ _ _
                                    ctx.token_1_mint _ k away.vault_1 e₃
                                  ∙ (create_token_account_amount spl creation issues b₁ _ _ _
                                        ctx.token_0_mint _ k away.vault_0 e₂
                                      ∙ issues.associated_amount bank _ _ _ _ k away.creator_lp
                                          e₁)));
                      supply =
                          in_1.supplies m
                          ∙ (in_0.supplies m
                              ∙ (create_token_account_supply spl creation issues b₂ _ _ _
                                    ctx.token_1_mint _ m e₃
                                  ∙ (create_token_account_supply spl creation issues b₁ _ _ _
                                        ctx.token_0_mint _ m e₂
                                      ∙ issues.associated_supply bank _ _ _ _ m e₁)));
                    }

    pub initialize-Kept :
        (seeds : Seeds) (open_time : ℕ) {s : InitializeOutcome Bank}
        → ctx.creator_token_0 ≢ ctx.token_0_vault
        → ctx.creator_token_1 ≢ ctx.token_1_vault
        → ForeignPool k m ctx
        → initialize spl creation integer_sqrt seeds clock ctx bank n₀ n₁ open_time ≡ ok s
        → Kept spl laws k m bank s.bank
    unfolding initialize
    initialize-Kept seeds open_time ne_0 ne_1 away h =
        >>-elim (check_initialize_accounts seeds ctx) _ h λ _ h.
          >>=-elim (both_supported spl creation integer_sqrt ctx.token_0_mint ctx.token_1_mint) _ h
            λ supported _ h. >>-elim (guard supported (code not_support_mint)) _ h λ _ h.
              >>-elim (guard (not ctx.amm_config.disable_create_pool) (code not_approved)) _ h
                λ _ h. >>=-elim (opening open_time clock.unix_timestamp) _ h λ _ _ h.
                  >>=-elim (fund_vaults spl creation integer_sqrt clock ctx bank n₀ n₁) _ h
                    λ b₁ e₁ h.
                      >>=-elim (initial_liquidity spl creation integer_sqrt _ _) _ h λ l _ h.
                        >>=-elim (ok_or (checked_sub l lock_lp_amount) init_lp_amount_too_less) _ h
                          λ n _ h. >>=-elim (token_mint_to spl b₁ _ _ _ _ n) _ h λ b₂ e₂ h.
                            let funded = fund_vaults-Kept ne_0 ne_1 away e₁ in
                            let minted = token_mint_to-Minted spl laws b₁ _ _ _ _ n e₂ in
                            subst (λ (s : InitializeOutcome Bank). Kept spl laws k m bank s.bank)
                              (ok-injective h)
                              (record {
                                balance = minted.others k away.creator_lp ∙ funded.balance;
                                supply = minted.other_supplies m away.mint ∙ funded.supply;
                              })
