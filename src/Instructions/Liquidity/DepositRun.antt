-- ===== src/Instructions/Liquidity/DepositRun.antt =====
-- deposit.rs: what a deposit leaves of the reserves, of the pool tokens and of the owner's accounts.
use solana_dex.Base.{
  ℕ, ◌+◌, ◌≤◌, ◌≡◌, ◌≢◌, true, not, ◌||◌, ok, arith, code, guard, guard-eq-ok, ltb, within_limits,
  >>=-elim, >>-elim, ok-injective, subst, sym, ap, ◌∙◌, unwrap, unwrap-eq-ok, ok_or, ok_or-eq-ok,
  u64_mod, checked_add, checked_add-eq-ok, try_u64, try_u64-eq-ok, zero_trading_tokens,
  exceeded_slippage, not_approved,
}
use solana_dex.Keys.{Pubkey}
use solana_dex.Curve.ConstantProduct.{TradingTokenResult, ceiling, lp_tokens_to_trading_tokens}
use solana_dex.Curve.Calculator as Calculator
use solana_dex.States.Pool.{get_status_by_bit, vault_amount_without_fee}
use solana_dex.States.Pool as Pool
use solana_dex.States.Pool.Reserves.{fees_0, fees_1, vault_amount_without_fee-eq-ok}
use solana_dex.Token.Interface.{Spl, MintAccount, Clock}
use solana_dex.Token.{
  get_transfer_fee, get_transfer_inverse_fee, transfer_from_user_to_pool_vault, token_mint_to,
}
use solana_dex.Token.Laws.{Laws, Moved, Minted, transfer_from_user-Moved, token_mint_to-Minted}
use solana_dex.Instructions.Liquidity.{LpAccounts, LpQuote, LpOutcome, check_lp_accounts}
use solana_dex.Instructions.Liquidity.Accounts.{check_lp_accounts-eq-ok}
use solana_dex.Instructions.Liquidity.Deposit.{with_inverse_fee, quote_deposit, deposit}

module _ {MintData FeeConfig Bank : Type 0} (spl : Spl MintData FeeConfig Bank) (laws : Laws spl)
    (clock : Clock) (ctx : LpAccounts MintData) where
  -- A transfer of `n` into a vault, of which `t` or more arrives.
  pub record Funded (mint : MintAccount MintData) (b b' : Bank) (s d : Pubkey) (t n : ℕ)
      : Type 0 where
    pub withheld : ℕ
    pub moved : Moved spl b b' s d n withheld
    pub arrives : t + withheld ≤ n
    pub added : ℕ
    pub fee : get_transfer_inverse_fee spl clock mint t ≡ ok added
    pub total : n ≡ t + added

  with_inverse_fee-Funded :
      (mint : MintAccount MintData) (b : Bank) (a s d p : Pubkey) (t k : ℕ) {n fee : ℕ} {b' : Bank}
      → s ≢ d
      → with_inverse_fee spl clock mint t ≡ ok (n, fee)
      → transfer_from_user_to_pool_vault spl b a s d clock mint p n k ≡ ok b'
      → Funded mint b b' s d t n
  unfolding with_inverse_fee
  with_inverse_fee-Funded mint b a s d p t k {n} {fee} {b'} ne h e =
      >>=-elim (get_transfer_inverse_fee spl clock mint t) _ h λ i e₁ h.
        >>=-elim (unwrap (checked_add u64_mod t i)) _ h λ m e₂ h.
          let (f, ef, lf) = laws.inverse_covers clock mint t i e₁ in
          let (sum, _) =
            checked_add-eq-ok u64_mod t i (unwrap-eq-ok (checked_add u64_mod t i) e₂) in
          let same : m ≡ n = cc in
          let whole : t + i ≡ n = sym sum ∙ same in
          record {
            withheld = f;
            moved =
                transfer_from_user-Moved spl laws b a s d clock mint p n k f ne e
                  (subst (λ z. get_transfer_fee spl clock mint z ≡ ok f) whole ef);
            arrives = omega (arith, lf, whole);
            added = i;
            fee = e₁;
            total = sym whole;
          }

  -- What the amounts of a deposit have established.
  record DepositQuoted (bank : Bank) (lp max_0 max_1 : ℕ) (q : LpQuote) : Type 0 where
    net_0 : spl.amount bank ctx.token_0_vault.key ≡ q.total_token_0_amount + fees_0 ctx.pool_state
    net_1 : spl.amount bank ctx.token_1_vault.key ≡ q.total_token_1_amount + fees_1 ctx.pool_state
    results : TradingTokenResult
    curve :
        lp_tokens_to_trading_tokens lp ctx.pool_state.lp_supply q.total_token_0_amount
          q.total_token_1_amount ceiling
        ≡ ok results
    price_0 : q.token_0_amount ≡ results.token_0_amount
    price_1 : q.token_1_amount ≡ results.token_1_amount
    gross_0 :
        with_inverse_fee spl clock ctx.vault_0_mint q.token_0_amount
        ≡ ok (q.transfer_token_0_amount, q.token_0_transfer_fee)
    gross_1 :
        with_inverse_fee spl clock ctx.vault_1_mint q.token_1_amount
        ≡ ok (q.transfer_token_1_amount, q.token_1_transfer_fee)
    limits : (q.transfer_token_0_amount ≤ max_0) × (q.transfer_token_1_amount ≤ max_1)

  quote_deposit-DepositQuoted :
      (bank : Bank) (lp max_0 max_1 : ℕ) {q : LpQuote}
      → quote_deposit spl clock ctx bank lp max_0 max_1 ≡ ok q
      → DepositQuoted bank lp max_0 max_1 q
  unfolding quote_deposit Calculator.lp_tokens_to_trading_tokens
  quote_deposit-DepositQuoted bank lp max_0 max_1 h =
      >>=-elim (vault_amount_without_fee ctx.pool_state _ _) _ h λ t e₂ h.
        >>=-elim
          (ok_or (lp_tokens_to_trading_tokens lp ctx.pool_state.lp_supply t.0 t.1 ceiling)
            zero_trading_tokens)
          _ h
          λ r e₃ h. >>=-elim (unwrap (try_u64 r.token_0_amount)) _ h λ a e₄ h.
            >>=-elim (with_inverse_fee spl clock ctx.vault_0_mint a) _ h λ u e₅ h.
              >>=-elim (unwrap (try_u64 r.token_1_amount)) _ h λ b e₆ h.
                >>=-elim (with_inverse_fee spl clock ctx.vault_1_mint b) _ h λ v e₇ h.
                  >>-elim (guard (not (ltb max_0 u.0 || ltb max_1 v.0)) (code exceeded_slippage)) _
                    h
                    λ e₈ h.
                      let (net_0, net_1) = vault_amount_without_fee-eq-ok ctx.pool_state _ _ e₂ in
                      subst (DepositQuoted bank lp max_0 max_1) (ok-injective h) (record {
                        net_0 = net_0;
                        net_1 = net_1;
                        results = r;
                        curve = ok_or-eq-ok _ _ e₃;
                        price_0 = (try_u64-eq-ok _ (unwrap-eq-ok (try_u64 r.token_0_amount) e₄)).0;
                        price_1 = (try_u64-eq-ok _ (unwrap-eq-ok (try_u64 r.token_1_amount) e₆)).0;
                        gross_0 = e₅;
                        gross_1 = e₇;
                        limits = within_limits max_0 u.0 max_1 v.0 (guard-eq-ok _ _ e₈);
                      })

  -- What a successful deposit has established.
  pub record Deposited (bank : Bank) (lp max_0 max_1 : ℕ) (s : LpOutcome Bank) : Type 0 where
    pub vault_0 : ctx.token_0_vault.key ≡ ctx.pool_state.token_0_vault
    pub vault_1 : ctx.token_1_vault.key ≡ ctx.pool_state.token_1_vault
    pub mint : ctx.lp_mint ≡ ctx.pool_state.lp_mint
    pub approved : get_status_by_bit ctx.pool_state Pool.deposit ≡ true
    pub total_0 : ℕ
    pub total_1 : ℕ
    pub net_0 : spl.amount bank ctx.token_0_vault.key ≡ total_0 + fees_0 ctx.pool_state
    pub net_1 : spl.amount bank ctx.token_1_vault.key ≡ total_1 + fees_1 ctx.pool_state
    pub results : TradingTokenResult
    pub curve :
        lp_tokens_to_trading_tokens lp ctx.pool_state.lp_supply total_0 total_1 ceiling ≡ ok results
    pub sent_0 : ℕ
    pub sent_1 : ℕ
    pub limit_0 : sent_0 ≤ max_0
    pub limit_1 : sent_1 ≤ max_1
    pub paid_0 : Bank
    pub paid_1 : Bank
    pub funded_0 :
        Funded ctx.vault_0_mint bank paid_0 ctx.token_0_account.key ctx.token_0_vault.key
          results.token_0_amount sent_0
    pub funded_1 :
        Funded ctx.vault_1_mint paid_0 paid_1 ctx.token_1_account.key ctx.token_1_vault.key
          results.token_1_amount sent_1
    pub minted : Minted spl paid_1 s.bank ctx.lp_mint ctx.owner_lp_token.key lp
    pub supplied :
        s.pool_state ≡ record ctx.pool_state { lp_supply = ctx.pool_state.lp_supply + lp }

  pub deposit-Deposited :
      (pda : Pubkey) (bank : Bank) (lp max_0 max_1 : ℕ) {s : LpOutcome Bank}
      → ctx.token_0_account.key ≢ ctx.token_0_vault.key
      → ctx.token_1_account.key ≢ ctx.token_1_vault.key
      → deposit spl pda clock ctx bank lp max_0 max_1 ≡ ok s
      → Deposited bank lp max_0 max_1 s
  unfolding deposit
  deposit-Deposited pda bank lp max_0 max_1 {s} ne_0 ne_1 h =
      >>-elim (check_lp_accounts pda ctx) _ h λ e₀ h.
        >>-elim (guard (get_status_by_bit ctx.pool_state Pool.deposit) (code not_approved)) _ h
          λ e₁ h. >>=-elim (quote_deposit spl clock ctx bank lp max_0 max_1) _ h λ q e₂ h.
            >>=-elim (transfer_from_user_to_pool_vault spl bank _ _ _ _ _ _ _ _) _ h λ b₀ e₃ h.
              >>=-elim (transfer_from_user_to_pool_vault spl b₀ _ _ _ _ _ _ _ _) _ h λ b₁ e₄ h.
                >>=-elim (unwrap (checked_add u64_mod ctx.pool_state.lp_supply lp)) _ h λ l e₅ h.
                  >>=-elim (token_mint_to spl b₁ _ _ _ _ lp) _ h λ b₂ e₆ h.
                    let quoted = quote_deposit-DepositQuoted bank lp max_0 max_1 e₂ in
                    let (vault_0, vault_1, mint) = check_lp_accounts-eq-ok pda ctx e₀ in
                    let (sum, _) =
                      checked_add-eq-ok u64_mod ctx.pool_state.lp_supply lp (unwrap-eq-ok _ e₅) in
                    subst (Deposited bank lp max_0 max_1) (ok-injective h) (record {
                      vault_0 = vault_0;
                      vault_1 = vault_1;
                      mint = mint;
                      approved = guard-eq-ok _ _ e₁;
                      total_0 = q.total_token_0_amount;
                      total_1 = q.total_token_1_amount;
                      net_0 = quoted.net_0;
                      net_1 = quoted.net_1;
                      results = quoted.results;
                      curve = quoted.curve;
                      sent_0 = q.transfer_token_0_amount;
                      sent_1 = q.transfer_token_1_amount;
                      limit_0 = quoted.limits.0;
                      limit_1 = quoted.limits.1;
                      paid_0 = b₀;
                      paid_1 = b₁;
                      funded_0 =
                          subst
                            (λ z.
                              Funded ctx.vault_0_mint bank b₀ ctx.token_0_account.key
                                ctx.token_0_vault.key z q.transfer_token_0_amount)
                            quoted.price_0
                            (with_inverse_fee-Funded ctx.vault_0_mint bank _ _ _ _ _ _ ne_0
                              quoted.gross_0 e₃);
                      funded_1 =
                          subst
                            (λ z.
                              Funded ctx.vault_1_mint b₀ b₁ ctx.token_1_account.key
                                ctx.token_1_vault.key z q.transfer_token_1_amount)
                            quoted.price_1
                            (with_inverse_fee-Funded ctx.vault_1_mint b₀ _ _ _ _ _ _ ne_1
                              quoted.gross_1 e₄);
                      minted = token_mint_to-Minted spl laws b₁ _ _ _ _ _ e₆;
                      supplied = ap (λ (z : ℕ). record ctx.pool_state { lp_supply = z }) sum;
                    })
