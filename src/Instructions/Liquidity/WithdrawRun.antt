-- ===== src/Instructions/Liquidity/WithdrawRun.antt =====
-- withdraw.rs: what a successful withdrawal has done.
use solana_dex.Base.{
  ℕ, ap, ◌+◌, ◌≤◌, ◌≡◌, ◌≢◌, true, not, ◌||◌, ok, arith, code, anchor, guard, guard-eq-ok, ltb, min,
  within_limits, >>=-elim, >>-elim, ok-injective, subst, refl, ◌==◌, require_gt, unwrap,
  unwrap-eq-ok, ok_or, ok_or-eq-ok, checked_sub, checked_sub-eq-ok, try_u64, try_u64-eq-ok,
  zero_trading_tokens, exceeded_slippage, not_approved, constraint_address, require_gt_violated,
}
use solana_dex.Keys.{Pubkey}
use solana_dex.Curve.ConstantProduct.{TradingTokenResult, floor, lp_tokens_to_trading_tokens}
use solana_dex.Curve.Calculator as Calculator
use solana_dex.States.Pool.{get_status_by_bit, vault_amount_without_fee}
use solana_dex.States.Pool as Pool
use solana_dex.States.Pool.Reserves.{fees_0, fees_1, vault_amount_without_fee-eq-ok}
use solana_dex.Token.Interface.{Spl, MintAccount, Clock}
use solana_dex.Token.{get_transfer_fee, transfer_from_pool_vault_to_user, token_burn}
use solana_dex.Token.Laws.{Laws, Moved, Burned, transfer_from_vault-Moved, token_burn-Burned}
use solana_dex.Instructions.Liquidity.{LpAccounts, LpQuote, LpOutcome, check_lp_accounts}
use solana_dex.Instructions.Liquidity.Accounts.{check_lp_accounts-eq-ok}
use solana_dex.Instructions.Liquidity.Withdraw.{less_fee, quote_withdrawal, withdraw}

module _ {MintData FeeConfig Bank : Type 0} (spl : Spl MintData FeeConfig Bank) (laws : Laws spl)
    (clock : Clock) (ctx : LpAccounts MintData) where
  -- A transfer of `t` out of a vault, of which the minimum `n` or more arrives.
  pub record Sent (b b' : Bank) (s d : Pubkey) (t n : ℕ) : Type 0 where
    pub withheld : ℕ
    pub moved : Moved spl b b' s d t withheld
    pub arrives : n + withheld ≤ t

  less_fee-Sent :
      (mint : MintAccount MintData) (b : Bank) (a s d p : Pubkey) (t k n : ℕ) {got fee : ℕ}
      {b' : Bank}
      → s ≢ d
      → n ≤ got
      → less_fee spl clock mint t ≡ ok (got, fee)
      → transfer_from_pool_vault_to_user spl b a s d clock mint p t k ≡ ok b'
      → Sent b b' s d t n
  unfolding less_fee
  less_fee-Sent mint b a s d p t k n {got} {fee} ne enough h e =
      >>=-elim (get_transfer_fee spl clock mint t) _ h λ f e₁ h.
        >>=-elim (unwrap (checked_sub t f)) _ h λ m e₂ h.
          let split = checked_sub-eq-ok t f (unwrap-eq-ok (checked_sub t f) e₂) in
          let same : m ≡ got = cc in
          record {
            withheld = f;
            moved = transfer_from_vault-Moved spl laws b a s d clock mint p t k f ne e e₁;
            arrives = omega (arith, split, same);
          }

  -- What the amounts of a withdrawal have established.
  pub record WithdrawalQuoted (bank : Bank) (lp min_0 min_1 : ℕ) (q : LpQuote) : Type 0 where
    pub net_0 :
        spl.amount bank ctx.token_0_vault.key ≡ q.total_token_0_amount + fees_0 ctx.pool_state
    pub net_1 :
        spl.amount bank ctx.token_1_vault.key ≡ q.total_token_1_amount + fees_1 ctx.pool_state
    pub results : TradingTokenResult
    pub curve :
        lp_tokens_to_trading_tokens lp ctx.pool_state.lp_supply q.total_token_0_amount
          q.total_token_1_amount floor
        ≡ ok results
    pub part_0 : q.transfer_token_0_amount ≡ min q.total_token_0_amount results.token_0_amount
    pub part_1 : q.transfer_token_1_amount ≡ min q.total_token_1_amount results.token_1_amount
    pub less_0 :
        less_fee spl clock ctx.vault_0_mint q.transfer_token_0_amount
        ≡ ok (q.token_0_amount, q.token_0_transfer_fee)
    pub less_1 :
        less_fee spl clock ctx.vault_1_mint q.transfer_token_1_amount
        ≡ ok (q.token_1_amount, q.token_1_transfer_fee)
    pub limits : (min_0 ≤ q.token_0_amount) × (min_1 ≤ q.token_1_amount)

  pub quote_withdrawal-WithdrawalQuoted :
      (bank : Bank) (lp min_0 min_1 : ℕ) {q : LpQuote}
      → quote_withdrawal spl clock ctx bank lp min_0 min_1 ≡ ok q
      → WithdrawalQuoted bank lp min_0 min_1 q
  unfolding quote_withdrawal Calculator.lp_tokens_to_trading_tokens
  quote_withdrawal-WithdrawalQuoted bank lp min_0 min_1 h =
      >>=-elim (vault_amount_without_fee ctx.pool_state _ _) _ h λ t e₂ h.
        >>=-elim
          (ok_or (lp_tokens_to_trading_tokens lp ctx.pool_state.lp_supply t.0 t.1 floor)
            zero_trading_tokens)
          _ h
          λ r e₃ h. >>=-elim (unwrap (try_u64 r.token_0_amount)) _ h λ a e₄ h.
            >>=-elim (less_fee spl clock ctx.vault_0_mint (min t.0 a)) _ h λ u e₅ h.
              >>=-elim (unwrap (try_u64 r.token_1_amount)) _ h λ b e₆ h.
                >>=-elim (less_fee spl clock ctx.vault_1_mint (min t.1 b)) _ h λ v e₇ h.
                  >>-elim (guard (not (ltb u.0 min_0 || ltb v.0 min_1)) (code exceeded_slippage)) _
                    h
                    λ e₈ h.
                      let (net_0, net_1) = vault_amount_without_fee-eq-ok ctx.pool_state _ _ e₂ in
                      subst (WithdrawalQuoted bank lp min_0 min_1) (ok-injective h) (record {
                        net_0 = net_0;
                        net_1 = net_1;
                        results = r;
                        curve = ok_or-eq-ok _ _ e₃;
                        part_0 =
                            ap (min t.0)
                              (try_u64-eq-ok _ (unwrap-eq-ok (try_u64 r.token_0_amount) e₄)).0;
                        part_1 =
                            ap (min t.1)
                              (try_u64-eq-ok _ (unwrap-eq-ok (try_u64 r.token_1_amount) e₆)).0;
                        less_0 = e₅;
                        less_1 = e₇;
                        limits = within_limits u.0 min_0 v.0 min_1 (guard-eq-ok _ _ e₈);
                      })

  -- What a successful withdrawal has established.
  pub record Withdrawn (bank : Bank) (lp min_0 min_1 : ℕ) (s : LpOutcome Bank) : Type 0 where
    pub vault_0 : ctx.token_0_vault.key ≡ ctx.pool_state.token_0_vault
    pub vault_1 : ctx.token_1_vault.key ≡ ctx.pool_state.token_1_vault
    pub mint : ctx.lp_mint ≡ ctx.pool_state.lp_mint
    pub approved : get_status_by_bit ctx.pool_state Pool.withdraw ≡ true
    pub total_0 : ℕ
    pub total_1 : ℕ
    pub net_0 : spl.amount bank ctx.token_0_vault.key ≡ total_0 + fees_0 ctx.pool_state
    pub net_1 : spl.amount bank ctx.token_1_vault.key ≡ total_1 + fees_1 ctx.pool_state
    pub results : TradingTokenResult
    pub curve :
        lp_tokens_to_trading_tokens lp ctx.pool_state.lp_supply total_0 total_1 floor ≡ ok results
    pub burned : Bank
    pub sent : Bank
    pub retired : Burned spl bank burned ctx.lp_mint ctx.owner_lp_token.key lp
    pub sent_0 :
        Sent burned sent ctx.token_0_vault.key ctx.token_0_account.key
          (min total_0 results.token_0_amount)
          min_0
    pub sent_1 :
        Sent sent s.bank ctx.token_1_vault.key ctx.token_1_account.key
          (min total_1 results.token_1_amount)
          min_1
    pub left : ℕ
    pub supply : ctx.pool_state.lp_supply ≡ lp + left
    pub supplied : s.pool_state ≡ record ctx.pool_state { lp_supply = left }

  pub withdraw-Withdrawn :
      (pda memo_id memo : Pubkey) (bank : Bank) (lp min_0 min_1 : ℕ) {s : LpOutcome Bank}
      → ctx.token_0_vault.key ≢ ctx.token_0_account.key
      → ctx.token_1_vault.key ≢ ctx.token_1_account.key
      → withdraw spl pda memo_id clock ctx memo bank lp min_0 min_1 ≡ ok s
      → Withdrawn bank lp min_0 min_1 s
  unfolding withdraw
  withdraw-Withdrawn pda memo_id memo bank lp min_0 min_1 {s} ne_0 ne_1 h =
      >>-elim (check_lp_accounts pda ctx) _ h λ e₀ h.
        >>-elim (guard (memo == memo_id) (anchor constraint_address)) _ h λ _ h.
          >>-elim (require_gt (spl.supply bank ctx.lp_mint) 0 (anchor require_gt_violated)) _ h
            λ _ h.
              >>-elim (guard (get_status_by_bit ctx.pool_state Pool.withdraw) (code not_approved)) _
                h
                λ e₁ h. >>=-elim (quote_withdrawal spl clock ctx bank lp min_0 min_1) _ h λ q e₂ h.
                  >>=-elim (unwrap (checked_sub ctx.pool_state.lp_supply lp)) _ h λ l e₃ h.
                    >>=-elim (token_burn spl bank _ _ _ _ lp) _ h λ b₀ e₄ h.
                      >>=-elim (transfer_from_pool_vault_to_user spl b₀ _ _ _ _ _ _ _ _) _ h
                        λ b₁ e₅ h.
                          >>=-elim (transfer_from_pool_vault_to_user spl b₁ _ _ _ _ _ _ _ _) _ h
                            λ b₂ e₆ h.
                              let quoted =
                                quote_withdrawal-WithdrawalQuoted bank lp min_0 min_1 e₂ in
                              let (vault_0, vault_1, mint) = check_lp_accounts-eq-ok pda ctx e₀ in
                              subst (Withdrawn bank lp min_0 min_1) (ok-injective h) (record {
                                vault_0 = vault_0;
                                vault_1 = vault_1;
                                mint = mint;
                                approved = guard-eq-ok _ _ e₁;
                                total_0 = q.total_token_0_amount;
                                total_1 = q.total_token_1_amount;
                                net_0 = quoted.net_0;
                                net_1 = quoted.net_1;
                                results = quoted.results;
                                curve = quoted.curve;
                                burned = b₀;
                                sent = b₁;
                                retired = token_burn-Burned spl laws bank _ _ _ _ _ e₄;
                                sent_0 =
                                    subst
                                      (λ z.
                                        Sent b₀ b₁ ctx.token_0_vault.key ctx.token_0_account.key z
                                          min_0)
                                      quoted.part_0
                                      (less_fee-Sent ctx.vault_0_mint b₀ _ _ _ _ _ _ min_0 ne_0
                                        quoted.limits.0 quoted.less_0 e₅);
                                sent_1 =
                                    subst
                                      (λ z.
                                        Sent b₁ b₂ ctx.token_1_vault.key ctx.token_1_account.key z
                                          min_1)
                                      quoted.part_1
                                      (less_fee-Sent ctx.vault_1_mint b₁ _ _ _ _ _ _ min_1 ne_1
                                        quoted.limits.1 quoted.less_1 e₆);
                                left = l;
                                supply =
                                    (checked_sub-eq-ok ctx.pool_state.lp_supply lp
                                      (unwrap-eq-ok _ e₃)).0;
                                supplied = refl;
                              })
