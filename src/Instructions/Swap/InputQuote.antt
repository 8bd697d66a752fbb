-- ===== src/Instructions/Swap/InputQuote.antt =====
-- swap_base_input.rs: what a quote that succeeds has established.
use solana_dex.Base.{
  ℕ, ◌+◌, ◌-◌, ◌≤◌, ◌<◌, ◌≡◌, ok, arith, code, anchor, guard-eq-ok, leb→le, ltb→lt, >>=-elim,
  >>-elim, ok-injective, subst, refl, unwrap, unwrap-eq-ok, ok_or, ok_or-eq-ok, u128_mod,
  checked_mul, checked_sub, checked_sub-eq-ok, try_u64, try_u64-eq-ok, require_gt, require_gte,
  require_eq, zero_trading_tokens, exceeded_slippage, require_gt_violated, require_gte_violated,
  require_eq_violated,
}
use solana_dex.Curve.Calculator.{SwapResult}
use solana_dex.Curve.Calculator as Calculator
use solana_dex.Token.Interface.{Spl, Clock}
use solana_dex.Token.{get_transfer_fee}
use solana_dex.Instructions.Swap.{SwapAccounts, Quote, check_open, trade_amounts}
use solana_dex.Instructions.Swap.BaseInput.{receive, quote_base_input}
use solana_dex.Instructions.Swap.Sides.{Directions, trade_amounts-Directions}

module _ {MintData FeeConfig Bank : Type 0} (spl : Spl MintData FeeConfig Bank) (clock : Clock)
    (ctx : SwapAccounts MintData) (bank : Bank) where
  -- What a successful quote has established.
  pub record InputQuoted (amount_in minimum : ℕ) (q : Quote) : Type 0 where
    pub gate : check_open ctx.pool_state clock.unix_timestamp ≡ ok tt
    pub sent : q.input_transfer_amount ≡ amount_in
    pub withheld_in :
        get_transfer_fee spl clock ctx.input_token_mint q.input_transfer_amount
        ≡ ok q.input_transfer_fee
    pub positive_in : 0 < amount_in - q.input_transfer_fee
    pub sides :
        Directions ctx.pool_state ctx.input_vault ctx.output_vault
          (spl.amount bank ctx.input_vault)
          (spl.amount bank ctx.output_vault)
          q.trade_direction
          q.total_input_token_amount
          q.total_output_token_amount
    pub curve :
        Calculator.swap_base_input
          (amount_in - q.input_transfer_fee)
          q.total_input_token_amount
          q.total_output_token_amount
          ctx.amm_config.trade_fee_rate
          ctx.amm_config.protocol_fee_rate
          ctx.amm_config.fund_fee_rate
        ≡ ok q.result
    pub paid : q.output_transfer_amount ≡ q.result.destination_amount_swapped
    pub withheld_out :
        get_transfer_fee spl clock ctx.output_token_mint q.output_transfer_amount
        ≡ ok q.output_transfer_fee
    pub received : minimum + q.output_transfer_fee ≤ q.output_transfer_amount
    pub positive_out : q.output_transfer_fee < q.output_transfer_amount

  receive_lem :
      (out minimum : ℕ) {fee : ℕ}
      → receive spl clock ctx out minimum ≡ ok fee
      → (get_transfer_fee spl clock ctx.output_token_mint out ≡ ok fee)
        × (minimum + fee ≤ out)
        × (fee < out)
  unfolding receive
  receive_lem out minimum {fee} h =
      >>=-elim (get_transfer_fee spl clock ctx.output_token_mint out) _ h λ f e₁ h.
        >>=-elim (unwrap (checked_sub out f)) _ h λ got e₂ h.
          >>-elim (require_gt got 0 (anchor require_gt_violated)) _ h λ e₃ h.
            >>-elim (require_gte got minimum (code exceeded_slippage)) _ h λ e₄ h.
              let split = checked_sub-eq-ok out f (unwrap-eq-ok (checked_sub out f) e₂) in
              let pos = ltb→lt 0 got (guard-eq-ok _ _ e₃) in
              let enough = leb→le minimum got (guard-eq-ok _ _ e₄) in
              subst
                (λ x.
                  (get_transfer_fee spl clock ctx.output_token_mint out ≡ ok x)
                  × (minimum + x ≤ out)
                  × (x < out))
                (ok-injective h) (e₁, omega (arith, split), omega (arith, split))

  pub quote_base_input-InputQuoted :
      (amount_in minimum : ℕ) {q : Quote}
      → quote_base_input spl clock ctx bank amount_in minimum ≡ ok q
      → InputQuoted amount_in minimum q
  unfolding quote_base_input
  quote_base_input-InputQuoted amount_in minimum {q} h =
      >>-elim (check_open ctx.pool_state clock.unix_timestamp) _ h λ e₁ h.
        >>=-elim (get_transfer_fee spl clock ctx.input_token_mint amount_in) _ h λ fee e₂ h.
          >>-elim (require_gt (amount_in - fee) 0 (anchor require_gt_violated)) _ h λ e₃ h.
            >>=-elim (trade_amounts ctx.pool_state ctx.input_vault ctx.output_vault _ _) _ h
              λ t e₄ h. >>=-elim (unwrap (checked_mul u128_mod t.1 t.2)) _ h λ before _ h.
                >>=-elim
                  (ok_or (Calculator.swap_base_input (amount_in - fee) t.1 t.2 _ _ _)
                    zero_trading_tokens)
                  _ h
                  λ r e₅ h.
                    >>=-elim
                      (unwrap (
                        checked_mul u128_mod r.new_swap_source_amount
                          r.new_swap_destination_amount))
                      _ h
                      λ after _ h.
                        >>-elim (require_gte after before (anchor require_gte_violated)) _ h λ _ h.
                          >>=-elim (unwrap (try_u64 r.source_amount_swapped)) _ h λ src _ h.
                            >>-elim (require_eq src (amount_in - fee) (anchor require_eq_violated))
                              _ h
                              λ _ h.
                                >>=-elim (unwrap (try_u64 r.destination_amount_swapped)) _ h
                                  λ out e₆ h.
                                    >>=-elim (receive spl clock ctx out minimum) _ h λ out_fee e₇ h.
                                      let (withheld, enough, pos) = receive_lem out minimum e₇ in
                                      subst (InputQuoted amount_in minimum) (ok-injective h)
                                        (record {
                                          gate = e₁;
                                          sent = refl;
                                          withheld_in = e₂;
                                          positive_in = ltb→lt 0 _ (guard-eq-ok _ _ e₃);
                                          sides =
                                              trade_amounts-Directions ctx.pool_state _ _ _ _ e₄;
                                          curve = ok_or-eq-ok _ _ e₅;
                                          paid =
                                              (try_u64-eq-ok _ (
                                                unwrap-eq-ok (try_u64 r.destination_amount_swapped)
                                                  e₆)).0;
                                          withheld_out = withheld;
                                          received = enough;
                                          positive_out = pos;
                                        })
