-- ===== src/Life/Changes.antt =====
-- How every step changes the pool's state.
use solana_dex.Base.{
  ℕ, ◌≤◌, ◌≡◌, ok, arith, subst, anchor, code, constraint_address, require_gte_violated,
  require_gt_violated, not_approved, require_gt, require_gte, guard, guard-eq-ok, leb→le, >>=-elim,
  >>-elim, ok-injective, ◌==◌, unwrap, unwrap-eq-ok, u64_mod, checked_add, checked_sub,
  checked_sub-eq-ok, try_u64, Bool, refl, inl, inr, true, false,
}
use solana_dex.Keys.{Pubkey, admin}
use solana_dex.States.Pool.{PoolState, get_status_by_bit, set_status}
use solana_dex.States.Pool as Pool
use solana_dex.States.Oracle.{update}
use solana_dex.Token.Interface.{Spl, Clock}
use solana_dex.Token.{
  transfer_from_user_to_pool_vault, transfer_from_pool_vault_to_user, token_mint_to, token_burn,
}
use solana_dex.Instructions.Swap.{
  SwapAccounts, SwapOutcome, Quote, check_swap_accounts, accrue_fees, vault_prices, settle,
}
use solana_dex.Instructions.Swap.BaseInput.{quote_base_input, swap_base_input}
use solana_dex.Instructions.Swap.BaseOutput.{quote_base_output, swap_base_output}
use solana_dex.Instructions.Liquidity.{LpAccounts, LpOutcome, check_lp_accounts}
use solana_dex.Instructions.Liquidity.Deposit.{quote_deposit, deposit}
use solana_dex.Instructions.Liquidity.Withdraw.{quote_withdrawal, withdraw}
use solana_dex.Instructions.Admin.{update_pool_status}
use solana_dex.Instructions.Admin.Collect.{
  CollectAccounts, CollectOutcome, check_collect_accounts, take_fees, pay_fees,
  collect_protocol_fee, collect_fund_fee,
}
use solana_dex.Instructions.Admin.CollectRun.{take_fees-Taken}
use solana_dex.Life.{Step}
use solana_dex.Life.Updates.{Update, accrue_fees-Update, sum_fits}

difference_within : (a b : ℕ) {c : ℕ} → unwrap (checked_sub a b) ≡ ok c → c ≤ a
difference_within a b h = omega (arith, checked_sub-eq-ok a b (unwrap-eq-ok (checked_sub a b) h))

module _ {MintData FeeConfig Bank : Type 0} (spl : Spl MintData FeeConfig Bank) where
  settle-Update :
      (clock : Clock) (ctx : SwapAccounts MintData) (bank : Bank) (base : Bool) (q : Quote)
      {s : SwapOutcome Bank}
      → settle spl clock ctx bank base q ≡ ok s
      → Update ctx.pool_state s.pool_state
  unfolding settle
  settle-Update clock ctx bank base q h =
      >>=-elim (unwrap (try_u64 q.result.protocol_fee)) _ h λ pf _ h.
        >>=-elim (unwrap (try_u64 q.result.fund_fee)) _ h λ ff _ h.
          >>=-elim (accrue_fees ctx.pool_state q.trade_direction pf ff) _ h λ pool e h.
            >>=-elim (unwrap (try_u64 q.result.source_amount_swapped)) _ h λ _ _ h.
              >>=-elim (unwrap (try_u64 q.result.destination_amount_swapped)) _ h λ _ _ h.
                >>=-elim (transfer_from_user_to_pool_vault spl bank _ _ _ _ _ _ _ _) _ h λ b₁ _ h.
                  >>=-elim (transfer_from_pool_vault_to_user spl b₁ _ _ _ _ _ _ _ _) _ h λ b₂ _ h.
                    >>=-elim (vault_prices pool ctx.input_vault ctx.output_vault _ _) _ h λ r _ h.
                      >>=-elim (update ctx.observation_state clock.unix_timestamp r.0 r.1) _ h
                        λ _ _ h.
                          subst (λ (s : SwapOutcome Bank). Update ctx.pool_state s.pool_state)
                            (ok-injective h)
                            (accrue_fees-Update ctx.pool_state q.trade_direction pf ff e)

  input-Update :
      (pda : Pubkey) (clock : Clock) (ctx : SwapAccounts MintData) (bank : Bank) (n m : ℕ)
      {s : SwapOutcome Bank}
      → swap_base_input spl pda clock ctx bank n m ≡ ok s
      → Update ctx.pool_state s.pool_state
  unfolding swap_base_input
  input-Update pda clock ctx bank n m h = >>-elim (check_swap_accounts pda ctx) _ h λ _ h.
      >>=-elim (quote_base_input spl clock ctx bank n m) _ h
        λ q _ h. settle-Update clock ctx bank true q h

  output-Update :
      (pda : Pubkey) (clock : Clock) (ctx : SwapAccounts MintData) (bank : Bank) (n m : ℕ)
      {s : SwapOutcome Bank}
      → swap_base_output spl pda clock ctx bank n m ≡ ok s
      → Update ctx.pool_state s.pool_state
  unfolding swap_base_output
  output-Update pda clock ctx bank n m h = >>-elim (check_swap_accounts pda ctx) _ h λ _ h.
      >>=-elim (quote_base_output spl clock ctx bank n m) _ h
        λ q _ h. settle-Update clock ctx bank false q h

  deposit-Update :
      (pda : Pubkey) (clock : Clock) (ctx : LpAccounts MintData) (bank : Bank) (lp m₀ m₁ : ℕ)
      {s : LpOutcome Bank}
      → deposit spl pda clock ctx bank lp m₀ m₁ ≡ ok s
      → Update ctx.pool_state s.pool_state
  unfolding deposit
  deposit-Update pda clock ctx bank lp m₀ m₁ h = >>-elim (check_lp_accounts pda ctx) _ h λ _ h.
      >>-elim (guard (get_status_by_bit ctx.pool_state Pool.deposit) (code not_approved)) _ h λ _ h.
        >>=-elim (quote_deposit spl clock ctx bank lp m₀ m₁) _ h λ q _ h.
          >>=-elim (transfer_from_user_to_pool_vault spl bank _ _ _ _ _ _ _ _) _ h λ b₁ _ h.
            >>=-elim (transfer_from_user_to_pool_vault spl b₁ _ _ _ _ _ _ _ _) _ h λ b₂ _ h.
              >>=-elim (unwrap (checked_add u64_mod ctx.pool_state.lp_supply lp)) _ h λ l e h.
                >>=-elim (token_mint_to spl b₂ _ _ _ _ lp) _ h λ b₃ _ h.
                  subst (λ (s : LpOutcome Bank). Update ctx.pool_state s.pool_state)
                    (ok-injective h) (Update.supply l (inl (sum_fits _ _ e)) refl)

  withdraw-Update :
      (pda memo_id : Pubkey) (clock : Clock) (ctx : LpAccounts MintData) (memo : Pubkey)
      (bank : Bank) (lp m₀ m₁ : ℕ) {s : LpOutcome Bank}
      → withdraw spl pda memo_id clock ctx memo bank lp m₀ m₁ ≡ ok s
      → Update ctx.pool_state s.pool_state
  unfolding withdraw
  withdraw-Update pda memo_id clock ctx memo bank lp m₀ m₁ h =
      >>-elim (check_lp_accounts pda ctx) _ h λ _ h.
        >>-elim (guard (memo == memo_id) (anchor constraint_address)) _ h λ _ h.
          >>-elim (require_gt (spl.supply bank ctx.lp_mint) 0 (anchor require_gt_violated)) _ h
            λ _ h.
              >>-elim (guard (get_status_by_bit ctx.pool_state Pool.withdraw) (code not_approved)) _
                h
                λ _ h. >>=-elim (quote_withdrawal spl clock ctx bank lp m₀ m₁) _ h λ q _ h.
                  >>=-elim (unwrap (checked_sub ctx.pool_state.lp_supply lp)) _ h λ l e h.
                    >>=-elim (token_burn spl bank _ _ _ _ lp) _ h λ b₀ _ h.
                      >>=-elim (transfer_from_pool_vault_to_user spl b₀ _ _ _ _ _ _ _ _) _ h
                        λ b₁ _ h.
                          >>=-elim (transfer_from_pool_vault_to_user spl b₁ _ _ _ _ _ _ _ _) _ h
                            λ b₂ _ h.
                              subst (λ (s : LpOutcome Bank). Update ctx.pool_state s.pool_state)
                                (ok-injective h)
                                (Update.supply l (inr (difference_within _ _ e)) refl)

  protocol-Update :
      (pda : Pubkey) (clock : Clock) (ctx : CollectAccounts MintData) (bank : Bank) (r₀ r₁ : ℕ)
      {s : CollectOutcome Bank}
      → collect_protocol_fee spl pda clock ctx bank r₀ r₁ ≡ ok s
      → Update ctx.pool_state s.pool_state
  unfolding collect_protocol_fee
  protocol-Update pda clock ctx bank r₀ r₁ h =
      >>-elim (check_collect_accounts pda ctx.amm_config.protocol_owner ctx) _ h λ _ h.
        >>=-elim (take_fees r₀ r₁ _ _) _ h λ t e h.
          >>=-elim (pay_fees spl clock ctx bank t.0 t.1) _ h λ b _ h.
            let taken = take_fees-Taken r₀ r₁ _ _ e in
            subst (λ (s : CollectOutcome Bank). Update ctx.pool_state s.pool_state) (ok-injective h)
              (Update.fees t.2 t.3 ctx.pool_state.fund_fees_token_0 ctx.pool_state.fund_fees_token_1
                (inr (omega (arith, taken.left_0))) (inr (omega (arith, taken.left_1)))
                (inr (omega arith)) (inr (omega arith)) refl)

  fund-Update :
      (pda : Pubkey) (clock : Clock) (ctx : CollectAccounts MintData) (bank : Bank) (r₀ r₁ : ℕ)
      {s : CollectOutcome Bank}
      → collect_fund_fee spl pda clock ctx bank r₀ r₁ ≡ ok s
      → Update ctx.pool_state s.pool_state
  unfolding collect_fund_fee
  fund-Update pda clock ctx bank r₀ r₁ h =
      >>-elim (check_collect_accounts pda ctx.amm_config.fund_owner ctx) _ h λ _ h.
        >>=-elim (take_fees r₀ r₁ _ _) _ h λ t e h.
          >>=-elim (pay_fees spl clock ctx bank t.0 t.1) _ h λ b _ h.
            let taken = take_fees-Taken r₀ r₁ _ _ e in
            subst (λ (s : CollectOutcome Bank). Update ctx.pool_state s.pool_state) (ok-injective h)
              (Update.fees ctx.pool_state.protocol_fees_token_0 ctx.pool_state.protocol_fees_token_1
                t.2 t.3 (inr (omega arith)) (inr (omega arith)) (inr (omega (arith, taken.left_0)))
                (inr (omega (arith, taken.left_1))) refl)

  status-Update :
      (k : Pubkey) (p p' : PoolState) (n : ℕ) → update_pool_status k p n ≡ ok p' → Update p p'
  unfolding update_pool_status set_status
  status-Update k p p' n h = >>-elim (guard (k == admin) (anchor constraint_address)) _ h λ _ h.
      >>-elim (require_gte 255 n (anchor require_gte_violated)) _ h λ e h.
        let most : n ≤ 255 = leb→le n 255 (guard-eq-ok _ _ e) in
        subst (Update p) (ok-injective h) (Update.status n (omega (arith, most)) refl)

  pub Step-Update : {p p' : PoolState} {b b' : Bank} → Step spl p b p' b' → Update p p'
  Step-Update (Step.swapped_input pda clock ctx bank n m s sep valid h) =
      input-Update pda clock ctx bank n m h
  Step-Update (Step.swapped_output pda clock ctx bank n m s sep valid h) =
      output-Update pda clock ctx bank n m h
  Step-Update (Step.deposited pda clock ctx bank lp m₀ m₁ s sep own h) =
      deposit-Update pda clock ctx bank lp m₀ m₁ h
  Step-Update (Step.withdrew pda memo_id clock ctx memo bank lp m₀ m₁ s sep own h) =
      withdraw-Update pda memo_id clock ctx memo bank lp m₀ m₁ h
  Step-Update (Step.collected_protocol pda clock ctx bank n m s sep h) =
      protocol-Update pda clock ctx bank n m h
  Step-Update (Step.collected_fund pda clock ctx bank n m s sep h) =
      fund-Update pda clock ctx bank n m h
  Step-Update (Step.status_set k p p' bank n h) = status-Update k p p' n h
  Step-Update (Step.outside p b b' h₀ h₁ hs) = Update.same refl
