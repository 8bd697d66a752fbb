-- ===== src/Instructions/Swap/OutputValue.antt =====
-- swap_base_output.rs: the payer's limits are met, and the pool loses no value.
use solana_dex.Base.{
  ℕ, ◌+◌, ◌-◌, ◌*◌, ◌≤◌, ◌<◌, ◌≡◌, ◌≢◌, false, ok, arith, >>=-elim, >>-elim, subst, sym, mul_mono,
}
use native.Mathlib.Nat.{le_trans}
use solana_dex.Keys.{Pubkey}
use solana_dex.Curve.Fees.{fee_rate_denominator_value}
use solana_dex.Curve.Calculator.{SwapResult}
use solana_dex.Curve.Calculator as Calculator
use solana_dex.Curve.Calculator.Output.{swap_base_output_sound, swap_base_output_amounts}
use solana_dex.States.Config.{IsValid}
use solana_dex.Token.Interface.{Spl, Clock}
use solana_dex.Token.{get_transfer_fee}
use solana_dex.Token.Laws.{Laws}
use solana_dex.Instructions.Reserves.{Exchanged}
use solana_dex.Instructions.Swap.{SwapAccounts, Quote, SwapOutcome, check_swap_accounts}
use solana_dex.Instructions.Swap.BaseOutput.{quote_base_output, swap_base_output}
use solana_dex.Instructions.Swap.Settlement.{
  Separate, Settled, settle-Settled, Settled-Exchanged, Settled-supply,
}
use solana_dex.Instructions.Swap.OutputQuote.{OutputQuoted, quote_base_output-OutputQuoted}

-- The exchange of a curve result when the vault gains `got`, at least what the curve asks for.
exchange_grows :
    (b x y tr pr fr got : ℕ) (r : SwapResult)
    → Calculator.swap_base_output b x y tr pr fr ≡ ok r
    → tr < fee_rate_denominator_value
    → pr + fr ≤ fee_rate_denominator_value
    → 0 < r.source_amount_swapped
    → r.source_amount_swapped ≤ got
    → (r.protocol_fee + r.fund_fee ≤ got)
      × (b ≤ y)
      × (x * y ≤ (x + got - (r.protocol_fee + r.fund_fee)) * (y - b))
exchange_grows b x y tr pr fr got r h below rates pos more =
    let (_, _, source, left, shares, charged) =
      swap_base_output_amounts b x y tr pr fr h below rates in
    (
      omega (arith, shares, charged),
      omega (arith, left),
      le_trans (swap_base_output_sound b x y tr pr fr h below rates pos) (
          mul_mono (r.new_swap_source_amount - (r.protocol_fee + r.fund_fee))
            (x + got - (r.protocol_fee + r.fund_fee)) r.new_swap_destination_amount (y - b)
            (omega (arith, source)) (omega (arith, left))),
    )

module _ {MintData FeeConfig Bank : Type 0} (spl : Spl MintData FeeConfig Bank) (laws : Laws spl)
    (pda : Pubkey) (clock : Clock) (ctx : SwapAccounts MintData) (bank : Bank)
    (maximum amount_out : ℕ) where
  -- A successful swap is a quote that is settled; the mints withhold `f` and `g`, at most what the
  -- quote has added for them.
  pub record OutputParts (q : Quote) (f g : ℕ) (s : SwapOutcome Bank) : Type 0 where
    pub quoted : OutputQuoted spl clock ctx bank maximum amount_out q
    pub withheld_in : f ≤ q.input_transfer_fee
    pub withheld_out : g ≤ q.output_transfer_fee
    pub settled : Settled spl laws clock ctx bank false q f g s

  pub swap_base_output_parts :
      {s : SwapOutcome Bank}
      → Separate ctx
      → swap_base_output spl pda clock ctx bank maximum amount_out ≡ ok s
      → (q : Quote) × (f : ℕ) × (g : ℕ) × OutputParts q f g s
  unfolding swap_base_output
  swap_base_output_parts sep h = >>-elim (check_swap_accounts pda ctx) _ h λ _ h.
      >>=-elim (quote_base_output spl clock ctx bank maximum amount_out) _ h λ q e h.
        let quoted = quote_base_output-OutputQuoted spl clock ctx bank maximum amount_out e in
        let (f, ef, lf) =
          laws.inverse_covers clock ctx.input_token_mint q.result.source_amount_swapped
            q.input_transfer_fee quoted.added_in in
        let (g, eg, lg) =
          laws.inverse_covers clock ctx.output_token_mint amount_out q.output_transfer_fee
            quoted.added_out in
        let ef' : get_transfer_fee spl clock ctx.input_token_mint q.input_transfer_amount ≡ ok f =
          subst (λ n. get_transfer_fee spl clock ctx.input_token_mint n ≡ ok f) (sym quoted.sent)
            ef in
        let eg' : get_transfer_fee spl clock ctx.output_token_mint q.output_transfer_amount ≡ ok g =
          subst (λ n. get_transfer_fee spl clock ctx.output_token_mint n ≡ ok g) (sym quoted.paid)
            eg in
        (
          q,
          f,
          g,
          record {
            quoted = quoted;
            withheld_in = lf;
            withheld_out = lg;
            settled = settle-Settled spl laws clock ctx bank false q f g sep ef' eg' h;
          },
        )

  -- Over token programs that keep the laws of Token/Laws, with the user's accounts and the two
  -- vaults different and the configuration's rates in their bounds: after a swap_base_output that
  -- succeeds the vaults still cover the fees that are set apart for the protocol and the fund, one
  -- of the reserves beyond those fees does not fall, the other does not rise, and the product of
  -- the reserves is at least what it was.
  pub swap_base_output_keeps_value :
      {s : SwapOutcome Bank}
      → Separate ctx
      → IsValid ctx.amm_config
      → swap_base_output spl pda clock ctx bank maximum amount_out ≡ ok s
      → (k k' : ℕ) × Exchanged spl ctx.pool_state s.pool_state bank s.bank k k' × (k ≤ k')
  swap_base_output_keeps_value sep valid h =
      let (q, f, g, parts) = swap_base_output_parts sep h in
      let x : ℕ = q.total_input_token_amount in
      let y : ℕ = q.total_output_token_amount in
      let got : ℕ = q.input_transfer_amount - f in
      let more : q.result.source_amount_swapped ≤ got =
        omega (arith, parts.quoted.sent, parts.withheld_in) in
      let (shares, within, grows) =
        exchange_grows q.output_transfer_amount x y _ _ _ got q.result parts.quoted.curve
          valid.trade_below_one valid.shares_at_most_one parts.quoted.asked more in
      (
        _,
        _,
        Settled-Exchanged spl laws clock ctx bank false q f g got x y sep parts.settled
            parts.quoted.sides (omega (arith, parts.quoted.sent, parts.withheld_in)) shares within,
        grows,
      )

  -- Over token programs that keep the laws of Token/Laws, with the user's two accounts and the two
  -- vaults all different: a swap_base_output that succeeds takes at most the maximum from the
  -- user's input account, and the output account receives at least the amount that was asked for,
  -- after the mint's fee.
  pub swap_base_output_limits :
      {s : SwapOutcome Bank}
      → Separate ctx
      → ctx.input_token_account ≢ ctx.output_token_account
      → swap_base_output spl pda clock ctx bank maximum amount_out ≡ ok s
      → (spl.amount bank ctx.input_token_account
          ≤ spl.amount s.bank ctx.input_token_account + maximum)
        × (spl.amount bank ctx.output_token_account + amount_out
            ≤ spl.amount s.bank ctx.output_token_account)
  swap_base_output_limits sep ne h =
      let (q, f, g, parts) = swap_base_output_parts sep h in
      (
        omega (
          arith,
          parts.quoted.limited,
          parts.settled.pay_in.debited,
          parts.settled.pay_out.others ctx.input_token_account sep.input_output ne,
        ),
        omega (
          arith,
          parts.quoted.paid,
          parts.withheld_out,
          parts.settled.pay_out.credited,
          parts.settled.pay_in.others ctx.output_token_account (λ e. ne (sym e)) sep.output_input,
        ),
      )

  -- The pool tokens, their mint and their supply stay as they are.
  pub swap_base_output_supply :
      {s : SwapOutcome Bank}
      → Separate ctx
      → swap_base_output spl pda clock ctx bank maximum amount_out ≡ ok s
      → (spl.supply s.bank s.pool_state.lp_mint ≡ spl.supply bank ctx.pool_state.lp_mint)
        × (s.pool_state.lp_supply ≡ ctx.pool_state.lp_supply)
  swap_base_output_supply sep h =
      let (q, f, g, parts) = swap_base_output_parts sep h in
      Settled-supply spl laws clock ctx bank false q f g parts.settled
