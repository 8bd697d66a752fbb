-- ===== src/Curve/Calculator/Output.antt =====
-- `CurveCalculator::swap_base_output`: the input that is asked for an output, and its fees.
use solana_dex.Base.{
  ℕ, ◌+◌, ◌-◌, ◌*◌, ◌≤◌, ◌<◌, ◌≡◌, ok, arith, >>=-elim, checked_sub-eq-ok, checked_add-eq-ok,
  u128_mod, checked_add, checked_sub, refl, ok-injective, subst, subst₂, sym, ◌∙◌, unwrap,
  unwrap-eq-ok,
}
use solana_dex.Curve.Fees.{
  fee_rate_denominator_value, trading_fee, protocol_fee, fund_fee, calculate_pre_fee_amount,
}
use solana_dex.Curve.Fees.Bounds.{pre_fee_round_trip, pre_fee_pos, shares_le_fee}
use solana_dex.Curve.ConstantProduct.{swap_base_output_without_fees}
use solana_dex.Curve.ConstantProduct.Swaps.{KeepsConstant, swap_output_keeps}
use solana_dex.Curve.Calculator.{SwapResult, swap_base_input, swap_base_output}
use solana_dex.Curve.Calculator.Input.{
  KeepsValue, swap_base_input-InputRun, value_after_fees, swap_base_input_sound,
}

-- What a successful run has computed: `s` is the input that the curve asks for, before the fee.
pub record OutputRun (b x y tr pr fr : ℕ) (r : SwapResult) : Type 0 where
  pub net : ℕ
  pub curve : swap_base_output_without_fees b x y ≡ ok net
  pub gross : calculate_pre_fee_amount net tr ≡ ok r.source_amount_swapped
  pub trade : trading_fee r.source_amount_swapped tr ≡ ok r.trade_fee
  pub protocol : protocol_fee r.trade_fee pr ≡ ok r.protocol_fee
  pub fund : fund_fee r.trade_fee fr ≡ ok r.fund_fee
  pub source : r.new_swap_source_amount ≡ x + r.source_amount_swapped
  pub destination : y ≡ b + r.new_swap_destination_amount
  pub swapped : r.destination_amount_swapped ≡ b

swap_base_output-OutputRun :
    (b x y tr pr fr : ℕ) {r : SwapResult}
    → swap_base_output b x y tr pr fr ≡ ok r
    → OutputRun b x y tr pr fr r
unfolding swap_base_output
swap_base_output-OutputRun b x y tr pr fr {r} h =
    >>=-elim (swap_base_output_without_fees b x y) _ h λ net e₁ h.
      >>=-elim (unwrap (calculate_pre_fee_amount net tr)) _ h λ gross e₂ h.
        >>=-elim (trading_fee gross tr) _ h λ tf e₃ h. >>=-elim (protocol_fee tf pr) _ h λ pf e₄ h.
          >>=-elim (fund_fee tf fr) _ h λ ff e₅ h.
            >>=-elim (checked_add u128_mod x gross) _ h λ ns e₆ h.
              >>=-elim (checked_sub y b) _ h λ nd e₇ h.
                subst (OutputRun b x y tr pr fr) (ok-injective h) (record {
                  net = net;
                  curve = e₁;
                  gross = unwrap-eq-ok (calculate_pre_fee_amount net tr) e₂;
                  trade = e₃;
                  protocol = e₄;
                  fund = e₅;
                  source = (checked_add-eq-ok u128_mod x gross e₆).0;
                  destination = (checked_sub-eq-ok y b e₇).0;
                  swapped = refl;
                })

module _ (b x y tr pr fr : ℕ) {r : SwapResult} where
  -- The gross input is the curve's input and its fee, exactly, and the shares are within the fee.
  pub swap_base_output_amounts :
      swap_base_output b x y tr pr fr ≡ ok r
      → tr < fee_rate_denominator_value
      → pr + fr ≤ fee_rate_denominator_value
      → (swap_base_output_without_fees b x y ≡ ok (r.source_amount_swapped - r.trade_fee))
        × (r.destination_amount_swapped ≡ b)
        × (r.new_swap_source_amount ≡ x + r.source_amount_swapped)
        × (r.new_swap_destination_amount + b ≡ y)
        × (r.protocol_fee + r.fund_fee ≤ r.trade_fee)
        × (r.trade_fee ≤ r.source_amount_swapped)
  swap_base_output_amounts h ht hr =
      let run = swap_base_output-OutputRun b x y tr pr fr h in
      let exact = pre_fee_round_trip run.net tr ht run.gross run.trade in
      (
        subst (λ n. swap_base_output_without_fees b x y ≡ ok n) (omega (arith, exact)) run.curve,
        run.swapped,
        run.source,
        omega (arith, run.destination),
        shares_le_fee r.trade_fee pr fr run.protocol run.fund hr,
        omega (arith, exact),
      )

  -- An input that is asked for keeps the constant product before its fee.
  net_keeps :
      swap_base_output b x y tr pr fr ≡ ok r
      → tr < fee_rate_denominator_value
      → pr + fr ≤ fee_rate_denominator_value
      → 0 < r.source_amount_swapped
      → KeepsConstant x y (r.source_amount_swapped - r.trade_fee) b
  net_keeps h ht hr pos =
      let (curve, _, _, _, _, _) = swap_base_output_amounts h ht hr in
      let run = swap_base_output-OutputRun b x y tr pr fr h in
      let some : 0 < r.source_amount_swapped - r.trade_fee = omega (
        arith,
        pre_fee_round_trip run.net tr ht run.gross run.trade,
        pre_fee_pos run.net tr run.gross pos,
      ) in
      swap_output_keeps b x y curve some

  -- Where the trade fee is below one, the shares of protocol and fund are at most one together, and
  -- swap_base_output of the calculator succeeds and asks for an input that is not zero: the product
  -- of the reserves does not fall, also when the fees of protocol and fund are set apart.
  pub swap_base_output_sound :
      swap_base_output b x y tr pr fr ≡ ok r
      → tr < fee_rate_denominator_value
      → pr + fr ≤ fee_rate_denominator_value
      → 0 < r.source_amount_swapped
      → KeepsValue x y r
  swap_base_output_sound h ht hr pos =
      let (_, _, es, ed, shares, within) = swap_base_output_amounts h ht hr in
      let t : ℕ = r.trade_fee in
      let net : ℕ = r.source_amount_swapped - r.trade_fee in
      let p : ℕ = r.protocol_fee + r.fund_fee in
      subst₂ (λ s d. x * y ≤ (s - p) * d) (omega arith) (omega arith)
        (value_after_fees x net t (x * y) (y - b) p (net_keeps h ht hr pos).1 shares)

  -- Where the trade fee is below one and the shares of protocol and fund are at most one together:
  -- an input that is not zero and that swap_base_output quotes for an output, given to
  -- swap_base_input on the same reserves, buys at least that output, where both succeed.
  pub swap_output_then_input :
      {q : SwapResult}
      → swap_base_output b x y tr pr fr ≡ ok r
      → swap_base_input r.source_amount_swapped x y tr pr fr ≡ ok q
      → tr < fee_rate_denominator_value
      → pr + fr ≤ fee_rate_denominator_value
      → 0 < r.source_amount_swapped
      → b ≤ q.destination_amount_swapped
  swap_output_then_input {q} h k ht hr pos =
      let out = swap_base_output-OutputRun b x y tr pr fr h in
      let run = swap_base_input-InputRun r.source_amount_swapped x y tr pr fr k in
      let same : r.trade_fee ≡ q.trade_fee = ok-injective (sym out.trade ∙ run.trade) in
      (swap_base_input_sound r.source_amount_swapped x y tr pr fr k hr).2 b (
        subst (λ t. KeepsConstant x y (r.source_amount_swapped - t) b) same (net_keeps h ht hr pos))
