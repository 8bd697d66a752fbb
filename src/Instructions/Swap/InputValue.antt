-- ===== src/Instructions/Swap/InputValue.antt =====
-- swap_base_input.rs: the payer's limits are met, and the pool loses no value.
use solana_dex.Base.{
  ℕ, ◌+◌, ◌-◌, ◌*◌, ◌≤◌, ◌≡◌, ◌≢◌, true, ok, arith, >>=-elim, >>-elim, subst, subst₂, sym,
}
use solana_dex.Keys.{Pubkey}
use solana_dex.Curve.Fees.{fee_rate_denominator_value}
use solana_dex.Curve.Calculator.{SwapResult}
use solana_dex.Curve.Calculator as Calculator
use solana_dex.Curve.Calculator.Input.{swap_base_input_sound, swap_base_input_amounts}
use solana_dex.States.Config.{IsValid}
use solana_dex.Token.Interface.{Spl, Clock}
use solana_dex.Token.Laws.{Laws}
use solana_dex.Instructions.Reserves.{Exchanged}
use solana_dex.Instructions.Swap.{SwapAccounts, Quote, SwapOutcome, check_swap_accounts}
use solana_dex.Instructions.Swap.BaseInput.{quote_base_input, swap_base_input}
use solana_dex.Instructions.Swap.Settlement.{
  Separate, Settled, settle-Settled, Settled-Exchanged, Settled-supply,
}
use solana_dex.Instructions.Swap.InputQuote.{InputQuoted, quote_base_input-InputQuoted}

-- The exchange of a curve result, with the fees of protocol and fund set apart.
exchange_grows :
    (a x y tr pr fr : ℕ) (r : SwapResult)
    → Calculator.swap_base_input a x y tr pr fr ≡ ok r
    → pr + fr ≤ fee_rate_denominator_value
    → (r.protocol_fee + r.fund_fee ≤ a)
      × (r.destination_amount_swapped ≤ y)
      × (x * y ≤ (x + a - (r.protocol_fee + r.fund_fee)) * (y - r.destination_amount_swapped))
exchange_grows a x y tr pr fr r h rates =
    let (_, source, left, shares, charged) = swap_base_input_amounts a x y tr pr fr h rates in
    let (_, value, _) = swap_base_input_sound a x y tr pr fr h rates in
    (
      omega (arith, shares, charged),
      omega (arith, left),
      subst₂ (λ m n. x * y ≤ (m - (r.protocol_fee + r.fund_fee)) * n) source (omega (arith, left))
          value,
    )

module _ {MintData FeeConfig Bank : Type 0} (spl : Spl MintData FeeConfig Bank) (laws : Laws spl)
    (pda : Pubkey) (clock : Clock) (ctx : SwapAccounts MintData) (bank : Bank)
    (amount_in minimum : ℕ) {s : SwapOutcome Bank} where
  -- A successful swap is a quote that is settled.
  pub swap_base_input_parts :
      Separate ctx
      → swap_base_input spl pda clock ctx bank amount_in minimum ≡ ok s
      → (q : Quote) × InputQuoted spl clock ctx bank amount_in minimum q
        × Settled spl laws clock ctx bank true q q.input_transfer_fee q.output_transfer_fee s
  unfolding swap_base_input
  swap_base_input_parts sep h = >>-elim (check_swap_accounts pda ctx) _ h λ _ h.
      >>=-elim (quote_base_input spl clock ctx bank amount_in minimum) _ h λ q e h.
        let quoted = quote_base_input-InputQuoted spl clock ctx bank amount_in minimum e in
        (
          q,
          quoted,
          settle-Settled spl laws clock ctx bank true q _ _ sep quoted.withheld_in
              quoted.withheld_out h,
        )

  -- Over token programs that keep the laws of Token/Laws, with the user's accounts and the two
  -- vaults different and the configuration's rates in their bounds: after a swap_base_input that
  -- succeeds the vaults still cover the fees that are set apart for the protocol and the fund, one
  -- of the reserves beyond those fees does not fall, the other does not rise, and the product of
  -- the reserves is at least what it was.
  pub swap_base_input_keeps_value :
      Separate ctx
      → IsValid ctx.amm_config
      → swap_base_input spl pda clock ctx bank amount_in minimum ≡ ok s
      → (k k' : ℕ) × Exchanged spl ctx.pool_state s.pool_state bank s.bank k k' × (k ≤ k')
  swap_base_input_keeps_value sep valid h =
      let (q, quoted, st) = swap_base_input_parts sep h in
      let x : ℕ = q.total_input_token_amount in
      let y : ℕ = q.total_output_token_amount in
      let got : ℕ = amount_in - q.input_transfer_fee in
      let (shares, within, grows) =
        exchange_grows got x y _ _ _ q.result quoted.curve valid.shares_at_most_one in
      (
        _,
        _,
        Settled-Exchanged spl laws clock ctx bank true q q.input_transfer_fee q.output_transfer_fee
            got x y sep st quoted.sides (omega (arith, quoted.sent, quoted.positive_in)) shares
            (omega (arith, quoted.paid)),
        subst (λ n. x * y ≤ (x + got - (q.result.protocol_fee + q.result.fund_fee)) * (y - n))
            (sym quoted.paid) grows,
      )

  -- Over token programs that keep the laws of Token/Laws, with the user's two accounts and the two
  -- vaults all different: a swap_base_input that succeeds takes exactly the amount in from the
  -- user's input account, and the output account receives at least the minimum, after the mint's
  -- fee.
  pub swap_base_input_limits :
      Separate ctx
      → ctx.input_token_account ≢ ctx.output_token_account
      → swap_base_input spl pda clock ctx bank amount_in minimum ≡ ok s
      → (spl.amount bank ctx.input_token_account
          ≡ spl.amount s.bank ctx.input_token_account + amount_in)
        × (spl.amount bank ctx.output_token_account + minimum
            ≤ spl.amount s.bank ctx.output_token_account)
  swap_base_input_limits sep ne h =
      let (q, quoted, st) = swap_base_input_parts sep h in
      (
        omega (
          arith,
          quoted.sent,
          st.pay_in.debited,
          st.pay_out.others ctx.input_token_account sep.input_output ne,
        ),
        omega (
          arith,
          quoted.received,
          st.pay_out.credited,
          st.pay_in.others ctx.output_token_account (λ e. ne (sym e)) sep.output_input,
        ),
      )

  -- The pool tokens, their mint and their supply stay as they are.
  pub swap_base_input_supply :
      Separate ctx
      → swap_base_input spl pda clock ctx bank amount_in minimum ≡ ok s
      → (spl.supply s.bank s.pool_state.lp_mint ≡ spl.supply bank ctx.pool_state.lp_mint)
        × (s.pool_state.lp_supply ≡ ctx.pool_state.lp_supply)
  swap_base_input_supply sep h =
      let (q, _, st) = swap_base_input_parts sep h in
      Settled-supply spl laws clock ctx bank true q q.input_transfer_fee q.output_transfer_fee st
