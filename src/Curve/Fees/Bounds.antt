-- ===== src/Curve/Fees/Bounds.antt =====
-- What the fees of curve/fees.rs are, and that they never exceed what they are taken from.
use solana_dex.Base.{
  ℕ, zero, suc, ◌+◌, ◌-◌, ◌*◌, ◌/◌, ◌≤◌, ◌<◌, ◌≡◌, ok, arith, u64_mod, ◌≢◌, sym, ap, ◌∙◌, mul_mono,
  div-mul-le, lt-div-mul,
}
use native.Mathlib.Nat.{mul-add}
use solana_dex.Curve.Fees.{
  fee_rate_denominator_value, trading_fee, protocol_fee, fund_fee, calculate_pre_fee_amount,
}

-- For a `u64` amount and a rate of at most one the fee is computed, rounded up.
pub trading_fee_total :
    (amount rate : ℕ)
    → amount < u64_mod
    → rate ≤ fee_rate_denominator_value
    → trading_fee amount rate
      ≡ ok ((amount * rate + fee_rate_denominator_value - 1) / fee_rate_denominator_value)
unfolding trading_fee
trading_fee_total amount rate ha hr =
    let small : amount * rate ≤ u64_mod * 1_000_000 = grind arith in ground arith

trading_fee-eq-ok :
    (amount rate : ℕ) {fee : ℕ}
    → trading_fee amount rate ≡ ok fee
    → fee ≡ (amount * rate + fee_rate_denominator_value - 1) / fee_rate_denominator_value
unfolding trading_fee
trading_fee-eq-ok amount rate h = ground arith

pub trading_fee-le :
    (amount rate : ℕ) {fee : ℕ}
    → trading_fee amount rate ≡ ok fee
    → rate ≤ fee_rate_denominator_value
    → fee ≤ amount
trading_fee-le amount rate h hr =
    let small : amount * rate ≤ amount * 1_000_000 = grind arith in
    omega (arith, trading_fee-eq-ok amount rate h)

protocol_fee-eq-ok :
    (amount rate : ℕ) {fee : ℕ}
    → protocol_fee amount rate ≡ ok fee
    → fee ≡ amount * rate / fee_rate_denominator_value
unfolding protocol_fee
protocol_fee-eq-ok amount rate h = ground arith

fund_fee-eq-ok :
    (amount rate : ℕ) {fee : ℕ}
    → fund_fee amount rate ≡ ok fee
    → fee ≡ amount * rate / fee_rate_denominator_value
unfolding fund_fee
fund_fee-eq-ok amount rate h = ground arith

pub protocol_fee_total :
    (amount rate : ℕ)
    → amount < u64_mod
    → rate ≤ fee_rate_denominator_value
    → protocol_fee amount rate ≡ ok (amount * rate / fee_rate_denominator_value)
unfolding protocol_fee
protocol_fee_total amount rate ha hr =
    let small : amount * rate ≤ u64_mod * 1_000_000 = grind arith in ground arith

pub fund_fee_total :
    (amount rate : ℕ)
    → amount < u64_mod
    → rate ≤ fee_rate_denominator_value
    → fund_fee amount rate ≡ ok (amount * rate / fee_rate_denominator_value)
unfolding fund_fee
fund_fee_total amount rate ha hr =
    let small : amount * rate ≤ u64_mod * 1_000_000 = grind arith in ground arith

-- The protocol's and the fund's shares of a fee are at most the fee together.
pub shares_le_fee :
    (fee protocol_rate fund_rate : ℕ) {protocol fund : ℕ}
    → protocol_fee fee protocol_rate ≡ ok protocol
    → fund_fee fee fund_rate ≡ ok fund
    → protocol_rate + fund_rate ≤ fee_rate_denominator_value
    → protocol + fund ≤ fee
shares_le_fee fee pr fr hp hf hr =
    let both : fee * (pr + fr) ≤ fee * 1_000_000 =
      mul_mono fee fee (pr + fr) 1_000_000 (omega arith) hr in
    omega (arith, protocol_fee-eq-ok fee pr hp, fund_fee-eq-ok fee fr hf)

calculate_pre_fee_amount-eq-ok :
    (post rate : ℕ) {pre : ℕ}
    → rate ≢ 0
    → calculate_pre_fee_amount post rate ≡ ok pre
    → (pre
        ≡ (post * fee_rate_denominator_value + (fee_rate_denominator_value - rate) - 1)
          / (fee_rate_denominator_value - rate))
      × (rate < fee_rate_denominator_value)
unfolding calculate_pre_fee_amount
calculate_pre_fee_amount-eq-ok post rate hr h = ground arith

pre_fee_zero : (post : ℕ) {pre : ℕ} → calculate_pre_fee_amount post 0 ≡ ok pre → pre ≡ post
unfolding calculate_pre_fee_amount
pre_fee_zero post h = ground arith

-- With `p` the gross amount, `f` its fee, `r` the rate and `d` the complement of the rate.
round_trip_arith :
    (n p f r d : ℕ)
    → r + d ≡ 1_000_000
    → 0 < d
    → p ≡ (n * 1_000_000 + d - 1) / d
    → f ≡ (p * r + 999_999) / 1_000_000
    → p ≡ n + f
round_trip_arith n p f r d e pos hp hf =
    let split : p * r + p * d ≡ p * 1_000_000 = sym (mul-add p r d) ∙ ap (λ t. p * t) e in
    let m : ℕ = n * 1_000_000 + d - 1 in
    let below : p * d ≤ n * 1_000_000 + d - 1 = rw hp (div-mul-le m d) in
    let above : n * 1_000_000 + d - 1 < (p + 1) * d = rw hp (lt-div-mul m d pos) in omega arith

-- For a rate below one, where both are computed, the gross amount for a net amount is exactly the
-- net amount and the trading fee on the gross amount.
pub pre_fee_round_trip :
    (post rate : ℕ) {pre fee : ℕ}
    → rate < fee_rate_denominator_value
    → calculate_pre_fee_amount post rate ≡ ok pre
    → trading_fee pre rate ≡ ok fee
    → pre ≡ post + fee
pre_fee_round_trip post zero hr hp hf =
    omega (arith, pre_fee_zero post hp, trading_fee-eq-ok _ 0 hf)
pre_fee_round_trip post (suc r) {pre} {fee} hr hp hf =
    round_trip_arith post pre fee (suc r) (1_000_000 - suc r) (omega arith) (omega arith)
      (calculate_pre_fee_amount-eq-ok post (suc r) (omega arith) hp).0
      (omega (arith, trading_fee-eq-ok pre (suc r) hf))

-- Nothing is asked for gross when nothing is asked for net.
pub pre_fee_pos :
    (post rate : ℕ) {pre : ℕ} → calculate_pre_fee_amount post rate ≡ ok pre → 0 < pre → 0 < post
pre_fee_pos zero zero hp pos = omega (arith, pre_fee_zero 0 hp)
pre_fee_pos zero (suc r) {pre} hp pos =
    let (e, below) = calculate_pre_fee_amount-eq-ok 0 (suc r) (omega arith) hp in
    let c : ℕ = 1_000_000 - suc r in
    let none : (0 * 1_000_000 + c - 1) / c ≡ 0 = grind (arith, below) in omega (arith, e, none)
pre_fee_pos (suc n) rate hp pos = omega arith
