-- ===== src/Curve/Calculator/Input.antt =====
-- `CurveCalculator::swap_base_input`: the trade, its fees and the pool's value after it.
use solana_dex.Base.{
  ℕ, ◌+◌, ◌-◌, ◌*◌, ◌/◌, ◌≤◌, ◌<◌, ◌≡◌, ok, arith, >>=-elim, >>=-ok, checked_sub-eq-ok,
  checked_add-eq-ok, checked_add_total, checked_sub_total, u128_mod, u64_mod, checked_add,
  checked_sub, mul_mono, refl, ok-injective, subst, subst₂,
}
use native.Mathlib.Nat.{le_trans}
use solana_dex.Curve.Fees.{fee_rate_denominator_value, trading_fee, protocol_fee, fund_fee}
use solana_dex.Curve.Fees.Bounds.{
  trading_fee_total, protocol_fee_total, fund_fee_total, shares_le_fee, trading_fee-le,
}
use solana_dex.Curve.ConstantProduct.{swap_base_input_without_fees}
use solana_dex.Curve.ConstantProduct.Swaps.{
  KeepsConstant, swap_base_input_without_fees_total, swap_input_is_best,
}
use solana_dex.Curve.Calculator.{SwapResult, swap_base_input}

-- What a successful run has computed, step by step.
pub record InputRun (a x y tr pr fr : ℕ) (r : SwapResult) : Type 0 where
  pub trade : trading_fee a tr ≡ ok r.trade_fee
  pub protocol : protocol_fee r.trade_fee pr ≡ ok r.protocol_fee
  pub fund : fund_fee r.trade_fee fr ≡ ok r.fund_fee
  pub charged : r.trade_fee ≤ a
  pub curve : swap_base_input_without_fees (a - r.trade_fee) x y ≡ ok r.destination_amount_swapped
  pub source : r.new_swap_source_amount ≡ x + a
  pub destination : y ≡ r.destination_amount_swapped + r.new_swap_destination_amount
  pub swapped : r.source_amount_swapped ≡ a

pub swap_base_input-InputRun :
    (a x y tr pr fr : ℕ) {r : SwapResult}
    → swap_base_input a x y tr pr fr ≡ ok r
    → InputRun a x y tr pr fr r
unfolding swap_base_input
swap_base_input-InputRun a x y tr pr fr {r} h = >>=-elim (trading_fee a tr) _ h λ tf e₁ h.
    >>=-elim (protocol_fee tf pr) _ h λ pf e₂ h. >>=-elim (fund_fee tf fr) _ h λ ff e₃ h.
      >>=-elim (checked_sub a tf) _ h λ less e₄ h.
        >>=-elim (swap_base_input_without_fees less x y) _ h λ out e₅ h.
          >>=-elim (checked_add u128_mod x a) _ h λ ns e₆ h.
            >>=-elim (checked_sub y out) _ h λ nd e₇ h.
              subst (InputRun a x y tr pr fr) (ok-injective h) (record {
                trade = e₁;
                protocol = e₂;
                fund = e₃;
                charged = (checked_sub-eq-ok a tf e₄).1;
                curve =
                    subst (λ z. swap_base_input_without_fees z x y ≡ ok out)
                      (omega (arith, checked_sub-eq-ok a tf e₄)) e₅;
                source = (checked_add-eq-ok u128_mod x a e₆).0;
                destination = (checked_sub-eq-ok y out e₇).0;
                swapped = refl;
              })

-- The reserves that still belong to the pool tokens once the protocol's and the fund's fees are set
-- apart, against the product before the trade.
abbrev pub KeepsValue : ℕ → ℕ → SwapResult → Type 0
KeepsValue x y r =
    x * y
    ≤ (r.new_swap_source_amount - (r.protocol_fee + r.fund_fee)) * r.new_swap_destination_amount

-- With `s` of the source left in the pool after the trade fee.
pub value_after_fees : (x s t k y' p : ℕ) → k ≤ (x + s) * y' → p ≤ t → k ≤ (x + (s + t) - p) * y'
value_after_fees x s t k y' p h hp =
    le_trans h (mul_mono (x + s) (x + (s + t) - p) y' y' (omega arith) (omega arith))

module _ (a x y tr pr fr : ℕ) {r : SwapResult} where
  -- What the pool gains and pays, and the split of the input fee.
  pub swap_base_input_amounts :
      swap_base_input a x y tr pr fr ≡ ok r
      → pr + fr ≤ fee_rate_denominator_value
      → (r.source_amount_swapped ≡ a)
        × (r.new_swap_source_amount ≡ x + a)
        × (r.new_swap_destination_amount + r.destination_amount_swapped ≡ y)
        × (r.protocol_fee + r.fund_fee ≤ r.trade_fee)
        × (r.trade_fee ≤ a)
  swap_base_input_amounts h hr =
      let run = swap_base_input-InputRun a x y tr pr fr h in
      (
        run.swapped,
        run.source,
        omega (arith, run.destination),
        shares_le_fee r.trade_fee pr fr run.protocol run.fund hr,
        run.charged,
      )

  -- Where the shares of protocol and fund are at most one together and swap_base_input of the
  -- calculator succeeds: the output for the input less its fee keeps the constant product, none
  -- larger does, and the product of the reserves does not fall, also when the fees of protocol and
  -- fund are set apart.
  pub swap_base_input_sound :
      swap_base_input a x y tr pr fr ≡ ok r
      → pr + fr ≤ fee_rate_denominator_value
      → KeepsConstant x y (a - r.trade_fee) r.destination_amount_swapped
        × KeepsValue x y r
        × ((b' : ℕ) → KeepsConstant x y (a - r.trade_fee) b' → b' ≤ r.destination_amount_swapped)
  swap_base_input_sound h hr =
      let run = swap_base_input-InputRun a x y tr pr fr h in
      let (keeps, best) = swap_input_is_best (a - r.trade_fee) x y run.curve in
      let shares = shares_le_fee r.trade_fee pr fr run.protocol run.fund hr in
      let es : x + (a - r.trade_fee + r.trade_fee) ≡ r.new_swap_source_amount =
        omega (arith, run.source, run.charged) in
      let ed : y - r.destination_amount_swapped ≡ r.new_swap_destination_amount =
        omega (arith, run.destination) in
      let p : ℕ = r.protocol_fee + r.fund_fee in
      (
        keeps,
        subst₂ (λ s d. x * y ≤ (s - p) * d) es ed
            (value_after_fees x (a - r.trade_fee) r.trade_fee (x * y)
              (y - r.destination_amount_swapped) p keeps.1 shares),
        best,
      )

-- For `u64` amounts, rates of at most one and a source reserve that is not empty, swap_base_input
-- of the calculator succeeds.
pub swap_base_input_total :
    (a x y tr pr fr : ℕ)
    → a < u64_mod
    → x < u64_mod
    → y < u64_mod
    → 0 < x
    → tr ≤ fee_rate_denominator_value
    → pr ≤ fee_rate_denominator_value
    → fr ≤ fee_rate_denominator_value
    → (r : SwapResult) × (swap_base_input a x y tr pr fr ≡ ok r)
unfolding swap_base_input
swap_base_input_total a x y tr pr fr ha hx hy pos ht hp hf =
    let tf : ℕ = (a * tr + fee_rate_denominator_value - 1) / fee_rate_denominator_value in
    let e₁ : trading_fee a tr ≡ ok tf = trading_fee_total a tr ha ht in
    let small : tf ≤ a = trading_fee-le a tr e₁ ht in
    let e₂ = protocol_fee_total tf pr (omega arith) hp in
    let e₃ = fund_fee_total tf fr (omega arith) hf in
    let e₄ = checked_sub_total a tf small in
    let e₅ = swap_base_input_without_fees_total (a - tf) x y (omega arith) hx hy pos in
    let e₆ = checked_add_total u128_mod x a (omega arith) in
    let e₇ =
      checked_sub_total y ((a - tf) * y / (x + (a - tf)))
        (swap_input_is_best (a - tf) x y e₅).0.0 in
    (
      _,
      >>=-ok (trading_fee a tr) _ e₁ (
          >>=-ok (protocol_fee tf pr) _ e₂ (
            >>=-ok (fund_fee tf fr) _ e₃ (
              >>=-ok (checked_sub a tf) _ e₄ (
                >>=-ok (swap_base_input_without_fees (a - tf) x y) _ e₅
                  (>>=-ok (checked_add u128_mod x a) _ e₆ (>>=-ok (checked_sub y _) _ e₇ refl)))))),
    )
