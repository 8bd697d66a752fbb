-- ===== src/Instructions/Liquidity/WithdrawProgress.antt =====
-- withdraw.rs: when a withdrawal succeeds.
use solana_dex.Base.{
  ℕ, ◌+◌, ◌-◌, ◌*◌, ◌≤◌, ◌<◌, ◌≡◌, ◌||◌, true, not, Option, some, ok, arith, refl, sym, code,
  anchor, exceeded_slippage, not_approved, require_gt_violated, constraint_address,
  zero_trading_tokens, guard, require_gt, unwrap, ltb, min, ◌==◌, ==_iff, inl, inr, >>=-Succeeds,
  >>-Succeeds, Succeeds, unwrap_ok, ok_or_ok, guard_ok, checked_sub, checked_sub_total, try_u64,
  try_u64_total, u64_mod, u128_mod, mul_mono, Bool-cases, lt→ltb,
}
use solana_dex.Keys.{Pubkey}
use solana_dex.Curve.ConstantProduct.Shares.{floor_total, withdrawal_keeps_share}
use solana_dex.Curve.Calculator as Calculator
use solana_dex.States.Pool.{get_status_by_bit, vault_amount_without_fee}
use solana_dex.States.Pool as Pool
use solana_dex.States.Pool.Reserves.{fees_0, fees_1, vault_amount_without_fee_total}
use solana_dex.Token.Interface.{Spl, MintAccount, Clock}
use solana_dex.Token.Laws.{Laws, transfer_from_vault-some}
use solana_dex.Token.{get_transfer_fee, transfer_from_pool_vault_to_user, token_burn, invoke}
use solana_dex.Instructions.Reserves.{Holds, vault_0_of, vault_1_of}
use solana_dex.Instructions.Liquidity.{LpAccounts, LpOutcome, check_lp_accounts, program_of}
use solana_dex.Instructions.Liquidity.Accounts.{SeparateLp, check_lp_accounts-eq-ok}
use solana_dex.Instructions.Liquidity.Withdraw.{less_fee, quote_withdrawal, withdraw}
use solana_dex.Instructions.Liquidity.WithdrawRun.{quote_withdrawal-WithdrawalQuoted}

module _ {MintData FeeConfig Bank : Type 0} (spl : Spl MintData FeeConfig Bank) where
  -- The token programs accept what a withdrawal asks of them: they tell the fee of both mints, burn
  -- what the owner holds, and send from either vault what it holds.
  pub record Accepts (clock : Clock) (ctx : LpAccounts MintData) : Type 0 where
    pub fee_0 : (n : ℕ) → n < u64_mod → Succeeds (get_transfer_fee spl clock ctx.vault_0_mint n)
    pub fee_1 : (n : ℕ) → n < u64_mod → Succeeds (get_transfer_fee spl clock ctx.vault_1_mint n)
    pub burns :
        (b : Bank) (n : ℕ)
        → n ≤ spl.amount b ctx.owner_lp_token.key
        → n ≤ spl.supply b ctx.lp_mint
        → (b' : Bank) × (spl.burn b ctx.token_program ctx.owner ctx.lp_mint ctx.owner_lp_token.key n
            ≡ some b')
    pub sends_0 :
        (b : Bank) (n : ℕ)
        → n ≤ spl.amount b ctx.token_0_vault.key
        → (b' : Bank) × (spl.transfer_checked b clock
              (program_of ctx ctx.vault_0_mint)
              ctx.authority
              ctx.token_0_vault.key
              ctx.token_0_account.key
              ctx.vault_0_mint
              n
              ctx.vault_0_mint.decimals
            ≡ some b')
    pub sends_1 :
        (b : Bank) (n : ℕ)
        → n ≤ spl.amount b ctx.token_1_vault.key
        → (b' : Bank) × (spl.transfer_checked b clock
              (program_of ctx ctx.vault_1_mint)
              ctx.authority
              ctx.token_1_vault.key
              ctx.token_1_account.key
              ctx.vault_1_mint
              n
              ctx.vault_1_mint.decimals
            ≡ some b')

  invoke_ok : (m : Option Bank) {b : Bank} → m ≡ some b → invoke m ≡ ok b
  invoke_ok m e = rw e refl

  -- A transfer that the token program accepts, or that is skipped.
  send-Succeeds :
      (b : Bank) (a s d : Pubkey) (c : Clock) (m : MintAccount MintData) (p : Pubkey) (n k : ℕ)
      → (b' : Bank) × (spl.transfer_checked b c p a s d m n k ≡ some b')
      → Succeeds (transfer_from_pool_vault_to_user spl b a s d c m p n k)
  unfolding transfer_from_pool_vault_to_user
  send-Succeeds b a s d c m p n k (b', e) = elim (Bool-cases (n == 0)) [
    | inl z ↦ (b, rw z refl)
    | inr z ↦ (b', rw (z, e) refl)
  ]

  less_fee-Succeeds :
      (laws : Laws spl) (clock : Clock) (mint : MintAccount MintData) (t : ℕ)
      → Succeeds (get_transfer_fee spl clock mint t)
      → Succeeds (less_fee spl clock mint t)
  unfolding less_fee
  less_fee-Succeeds laws clock mint t (f, e) =
      >>=-Succeeds (get_transfer_fee spl clock mint t) _ e (
        >>=-Succeeds (unwrap (checked_sub t f)) _
          (unwrap_ok _ (checked_sub_total t f (laws.fee_within clock mint t f e))) (_, refl))

no_minimum : (a b : ℕ) → not (ltb a 0 || ltb b 0) ≡ true
no_minimum a b = ground arith

module _ {MintData FeeConfig Bank : Type 0} (spl : Spl MintData FeeConfig Bank) (laws : Laws spl)
    (pda memo_id : Pubkey) (clock : Clock) (ctx : LpAccounts MintData) (bank : Bank)
    (lp x y : ℕ) where
  -- The burn and the two transfers, of amounts that the owner and the vaults have.
  settles :
      (t₀ t₁ : ℕ)
      → SeparateLp ctx
      → Accepts spl clock ctx
      → lp ≤ spl.amount bank ctx.owner_lp_token.key
      → lp ≤ spl.supply bank ctx.lp_mint
      → t₀ ≤ spl.amount bank ctx.token_0_vault.key
      → t₁ ≤ spl.amount bank ctx.token_1_vault.key
      → (b₀ : Bank) × (b₁ : Bank) × (b₂ : Bank) × (token_burn spl bank ctx.owner ctx.token_program
            ctx.lp_mint ctx.owner_lp_token.key lp
          ≡ ok b₀)
        × (transfer_from_pool_vault_to_user spl b₀ ctx.authority ctx.token_0_vault.key
              ctx.token_0_account.key clock ctx.vault_0_mint
              (program_of ctx ctx.vault_0_mint)
              t₀
              ctx.vault_0_mint.decimals
            ≡ ok b₁)
        × (transfer_from_pool_vault_to_user spl b₁ ctx.authority ctx.token_1_vault.key
              ctx.token_1_account.key clock ctx.vault_1_mint
              (program_of ctx ctx.vault_1_mint)
              t₁
              ctx.vault_1_mint.decimals
            ≡ ok b₂)
  unfolding token_burn
  settles t₀ t₁ sep acc own issued have_0 have_1 =
      let (b₀, e₀) = acc.burns bank lp own issued in
      let burned = laws.burn_retires bank b₀ _ _ _ _ lp e₀ in
      let left_0 : t₀ ≤ spl.amount b₀ ctx.token_0_vault.key =
        omega (arith, have_0, burned.others ctx.token_0_vault.key (λ e. sep.lp_vault_0 (sym e))) in
      let (b₁, e₁) =
        send-Succeeds spl b₀ _ _ _ clock ctx.vault_0_mint _ t₀ _ (acc.sends_0 b₀ t₀ left_0) in
      let (_, moved) =
        transfer_from_vault-some spl laws b₀ _ _ _ clock ctx.vault_0_mint _ t₀ _
          (λ e. sep.account_0_vault_0 (sym e)) e₁ in
      let left_1 : t₁ ≤ spl.amount b₁ ctx.token_1_vault.key = omega (
        arith,
        have_1,
        burned.others ctx.token_1_vault.key (λ e. sep.lp_vault_1 (sym e)),
        moved.others ctx.token_1_vault.key (λ e. sep.vaults (sym e))
            (λ e. sep.account_0_vault_1 (sym e)),
      ) in
      let (b₂, e₂) =
        send-Succeeds spl b₁ _ _ _ clock ctx.vault_1_mint _ t₁ _ (acc.sends_1 b₁ t₁ left_1) in
      (b₀, b₁, b₂, invoke_ok spl _ e₀, e₁, e₂)

  product_fits : (n : ℕ) → lp < u64_mod → n < u64_mod → lp * n < u128_mod
  product_fits n h k =
      let most : lp * n ≤ (u64_mod - 1) * (u64_mod - 1) =
        mul_mono lp (u64_mod - 1) n (u64_mod - 1) (omega arith) (omega arith) in
      omega arith

  -- The amounts of a withdrawal with no minimum.
  quote_withdrawal-Succeeds :
      Holds spl ctx.pool_state bank x y
      → (ctx.token_0_vault.key ≡ ctx.pool_state.token_0_vault)
      → (ctx.token_1_vault.key ≡ ctx.pool_state.token_1_vault)
      → fees_0 ctx.pool_state + x < u64_mod
      → fees_1 ctx.pool_state + y < u64_mod
      → lp < u64_mod
      → lp ≤ ctx.pool_state.lp_supply
      → 0 < ctx.pool_state.lp_supply
      → Accepts spl clock ctx
      → Succeeds (quote_withdrawal spl clock ctx bank lp 0 0)
  unfolding quote_withdrawal Calculator.lp_tokens_to_trading_tokens
  quote_withdrawal-Succeeds held v₀ v₁ fits_0 fits_1 lp_fits within counted acc =
      let pool = ctx.pool_state in
      let before_0 = vault_0_of spl ctx.token_0_vault.key v₀ held in
      let before_1 = vault_1_of spl ctx.token_1_vault.key v₁ held in
      let (r, curve) =
        floor_total lp pool.lp_supply x y counted (product_fits x lp_fits (omega (arith, fits_0)))
          (product_fits y lp_fits (omega (arith, fits_1))) in
      let ((most_0, _), (most_1, _)) = withdrawal_keeps_share lp pool.lp_supply x y curve within in
      let t₀ : ℕ = min x r.token_0_amount in
      let t₁ : ℕ = min y r.token_1_amount in
      let (u₀, less_0) =
        less_fee-Succeeds spl laws clock ctx.vault_0_mint t₀ (acc.fee_0 t₀ (omega arith)) in
      let (u₁, less_1) =
        less_fee-Succeeds spl laws clock ctx.vault_1_mint t₁ (acc.fee_1 t₁ (omega arith)) in
      >>=-Succeeds (vault_amount_without_fee pool _ _) _
        (vault_amount_without_fee_total pool _ _ x y (omega arith) (omega arith) before_0 before_1)
        (>>=-Succeeds _ _ (ok_or_ok _ zero_trading_tokens curve) (
          >>=-Succeeds (unwrap (try_u64 r.token_0_amount)) _
            (unwrap_ok _ (try_u64_total r.token_0_amount (omega arith)))
            (>>=-Succeeds (less_fee spl clock ctx.vault_0_mint t₀) _ less_0 (
              >>=-Succeeds (unwrap (try_u64 r.token_1_amount)) _
                (unwrap_ok _ (try_u64_total r.token_1_amount (omega arith)))
                (>>=-Succeeds (less_fee spl clock ctx.vault_1_mint t₁) _ less_1 (
                  >>-Succeeds (guard (not (ltb u₀.0 0 || ltb u₁.0 0)) (code exceeded_slippage)) _
                    (guard_ok _ _ (no_minimum u₀.0 u₁.0)) (_, refl)))))))

  -- Over token programs that keep the laws of Token/Laws and accept what a withdrawal asks of them,
  -- with the owner's accounts and the two vaults different: where the accounts pass their checks,
  -- the status allows withdrawals, the vaults hold the fees set apart and reserves besides, and all
  -- amounts fit in 64 bits, an owner of pool tokens, at most as many as the pool counts and as are
  -- issued, can withdraw them: with no minimum the withdrawal succeeds.
  pub withdraw_succeeds :
      SeparateLp ctx
      → check_lp_accounts pda ctx ≡ ok tt
      → get_status_by_bit ctx.pool_state Pool.withdraw ≡ true
      → Holds spl ctx.pool_state bank x y
      → fees_0 ctx.pool_state + x < u64_mod
      → fees_1 ctx.pool_state + y < u64_mod
      → lp < u64_mod
      → lp ≤ ctx.pool_state.lp_supply
      → 0 < ctx.pool_state.lp_supply
      → 0 < spl.supply bank ctx.lp_mint
      → lp ≤ spl.amount bank ctx.owner_lp_token.key
      → lp ≤ spl.supply bank ctx.lp_mint
      → Accepts spl clock ctx
      → (s : LpOutcome Bank) × (withdraw spl pda memo_id clock ctx memo_id bank lp 0 0 ≡ ok s)
  unfolding withdraw
  withdraw_succeeds sep checks open_ held fits_0 fits_1 lp_fits within some_counted some_issued own
        issued acc =
      let pool = ctx.pool_state in
      let (v₀, v₁, _) = check_lp_accounts-eq-ok pda ctx checks in
      let (q, quote) =
        quote_withdrawal-Succeeds held v₀ v₁ fits_0 fits_1 lp_fits within some_counted acc in
      let quoted = quote_withdrawal-WithdrawalQuoted spl laws clock ctx bank lp 0 0 quote in
      let (b₀, b₁, b₂, burned, sent_0, sent_1) =
        settles q.transfer_token_0_amount q.transfer_token_1_amount sep acc own issued
          (omega (arith, quoted.net_0, quoted.part_0))
          (omega (arith, quoted.net_1, quoted.part_1)) in
      >>-Succeeds (check_lp_accounts pda ctx) _ checks (
        >>-Succeeds (guard (memo_id == memo_id) (anchor constraint_address)) _
          (guard_ok _ _ ((==_iff memo_id memo_id).1 refl))
          (>>-Succeeds (require_gt (spl.supply bank ctx.lp_mint) 0 (anchor require_gt_violated)) _
            (guard_ok _ _ (lt→ltb _ _ some_issued))
            (>>-Succeeds (guard (get_status_by_bit pool Pool.withdraw) (code not_approved)) _
              (guard_ok _ _ open_)
              (>>=-Succeeds (quote_withdrawal spl clock ctx bank lp 0 0) _ quote (
                >>=-Succeeds (unwrap (checked_sub pool.lp_supply lp)) _
                  (unwrap_ok _ (checked_sub_total pool.lp_supply lp within))
                  (>>=-Succeeds (token_burn spl bank _ _ _ _ lp) _ burned (
                    >>=-Succeeds (transfer_from_pool_vault_to_user spl b₀ _ _ _ _ _ _ _ _) _ sent_0
                      (>>=-Succeeds (transfer_from_pool_vault_to_user spl b₁ _ _ _ _ _ _ _ _) _
                        sent_1 (_, refl)))))))))
