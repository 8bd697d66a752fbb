-- ===== src/Instructions/Swap/OutputQuote.antt =====
-- swap_base_output.rs: what a quote that succeeds has established.
use solana_dex.Base.{
  ℕ, ◌+◌, ◌≤◌, ◌<◌, ◌≡◌, ok, arith, code, anchor, guard-eq-ok, ltb→lt, leb→le, >>=-elim, >>-elim,
  ok-injective, subst, unwrap, unwrap-eq-ok, ok_or, ok_or-eq-ok, u64_mod, u128_mod, checked_mul,
  checked_add, checked_add-eq-ok, try_u64, try_u64-eq-ok, require_gt, require_gte, require_eq,
  zero_trading_tokens, exceeded_slippage, require_gt_violated, require_gte_violated,
  require_eq_violated,
}
use solana_dex.Curve.Calculator.{SwapResult}
use solana_dex.Curve.Calculator as Calculator
use solana_dex.Token.Interface.{Spl, Clock}
use solana_dex.Token.{get_transfer_inverse_fee}
use solana_dex.Instructions.Swap.{SwapAccounts, Quote, check_open, trade_amounts}
use solana_dex.Instructions.Swap.BaseOutput.{send, quote_base_output}
use solana_dex.Instructions.Swap.Sides.{Directions, trade_amounts-Directions}

module _ {MintData FeeConfig Bank : Type 0} (spl : Spl MintData FeeConfig Bank) (clock : Clock)
    (ctx : SwapAccounts MintData) (bank : Bank) where
  -- What a successful quote has established.
  pub record OutputQuoted (maximum amount_out : ℕ) (q : Quote) : Type 0 where
    pub gate : check_open ctx.pool_state clock.unix_timestamp ≡ ok tt
    pub added_out :
        get_transfer_inverse_fee spl clock ctx.output_token_mint amount_out
        ≡ ok q.output_transfer_fee
    pub paid : q.output_transfer_amount ≡ amount_out + q.output_transfer_fee
    pub sides :
        Directions ctx.pool_state ctx.input_vault ctx.output_vault
          (spl.amount bank ctx.input_vault)
          (spl.amount bank ctx.output_vault)
          q.trade_direction
          q.total_input_token_amount
          q.total_output_token_amount
    pub curve :
        Calculator.swap_base_output q.output_transfer_amount q.total_input_token_amount
          q.total_output_token_amount ctx.amm_config.trade_fee_rate ctx.amm_config.protocol_fee_rate
          ctx.amm_config.fund_fee_rate
        ≡ ok q.result
    pub asked : 0 < q.result.source_amount_swapped
    pub added_in :
        get_transfer_inverse_fee spl clock ctx.input_token_mint q.result.source_amount_swapped
        ≡ ok q.input_transfer_fee
    pub sent : q.input_transfer_amount ≡ q.result.source_amount_swapped + q.input_transfer_fee
    pub limited : q.input_transfer_amount ≤ maximum

  send_lem :
      (source maximum : ℕ) {r : ℕ × ℕ}
      → send spl clock ctx source maximum ≡ ok r
      → (0 < source)
        × (get_transfer_inverse_fee spl clock ctx.input_token_mint source ≡ ok r.1)
        × (r.0 ≡ source + r.1)
        × (r.0 ≤ maximum)
  unfolding send
  send_lem source maximum h = >>-elim (require_gt source 0 (anchor require_gt_violated)) _ h λ e₁ h.
      >>=-elim (get_transfer_inverse_fee spl clock ctx.input_token_mint source) _ h λ fee e₂ h.
        >>=-elim (unwrap (checked_add u64_mod source fee)) _ h λ total e₃ h.
          >>-elim (require_gte maximum total (code exceeded_slippage)) _ h λ e₄ h.
            subst
              (λ (r : ℕ × ℕ).
                (0 < source)
                × (get_transfer_inverse_fee spl clock ctx.input_token_mint source ≡ ok r.1)
                × (r.0 ≡ source + r.1)
                × (r.0 ≤ maximum))
              (ok-injective h)
              (
                ltb→lt 0 source (guard-eq-ok _ _ e₁),
                e₂,
                (checked_add-eq-ok u64_mod source fee
                    (unwrap-eq-ok (checked_add u64_mod source fee) e₃)).0,
                leb→le total maximum (guard-eq-ok _ _ e₄),
              )

  pub quote_base_output-OutputQuoted :
      (maximum amount_out : ℕ) {q : Quote}
      → quote_base_output spl clock ctx bank maximum amount_out ≡ ok q
      → OutputQuoted maximum amount_out q
  unfolding quote_base_output
  quote_base_output-OutputQuoted maximum amount_out h =
      >>-elim (check_open ctx.pool_state clock.unix_timestamp) _ h λ e₁ h.
        >>=-elim (get_transfer_inverse_fee spl clock ctx.output_token_mint amount_out) _ h
          λ fee e₂ h. >>=-elim (unwrap (checked_add u64_mod amount_out fee)) _ h λ out e₃ h.
            >>=-elim (trade_amounts ctx.pool_state ctx.input_vault ctx.output_vault _ _) _ h
              λ t e₄ h. >>=-elim (unwrap (checked_mul u128_mod t.1 t.2)) _ h λ before _ h.
                >>=-elim (ok_or (Calculator.swap_base_output out t.1 t.2 _ _ _) zero_trading_tokens)
                  _ h
                  λ r e₅ h.
                    >>=-elim
                      (unwrap (
                        checked_mul u128_mod r.new_swap_source_amount
                          r.new_swap_destination_amount))
                      _ h
                      λ after _ h.
                        >>-elim (require_gte after before (anchor require_gte_violated)) _ h λ _ h.
                          >>=-elim (unwrap (try_u64 r.source_amount_swapped)) _ h λ src e₆ h.
                            >>=-elim (send spl clock ctx src maximum) _ h λ s e₇ h.
                              >>=-elim (unwrap (try_u64 r.destination_amount_swapped)) _ h
                                λ dst _ h.
                                  >>-elim (require_eq dst out (anchor require_eq_violated)) _ h
                                    λ _ h.
                                      let same : src ≡ r.source_amount_swapped =
                                        (try_u64-eq-ok _
                                          (unwrap-eq-ok (try_u64 r.source_amount_swapped) e₆)).0 in
                                      let (pos, added, total, limit) = send_lem src maximum e₇ in
                                      subst (OutputQuoted maximum amount_out) (ok-injective h)
                                        (record {
                                          gate = e₁;
                                          added_out = e₂;
                                          paid =
                                              (checked_add-eq-ok u64_mod amount_out fee (
                                                unwrap-eq-ok (checked_add u64_mod amount_out fee)
                                                  e₃)).0;
                                          sides =
                                              trade_amounts-Directions ctx.pool_state _ _ _ _ e₄;
                                          curve = ok_or-eq-ok _ _ e₅;
                                          asked = omega (arith, pos, same);
                                          added_in =
                                              subst
                                                (λ z.
                                                  get_transfer_inverse_fee spl clock
                                                    ctx.input_token_mint z
                                                  ≡ ok s.1)
                                                same added;
                                          sent = omega (arith, total, same);
                                          limited = limit;
                                        })
