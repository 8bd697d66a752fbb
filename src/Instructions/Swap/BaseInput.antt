-- ===== src/Instructions/Swap/BaseInput.antt =====
-- instructions/swap_base_input.rs.
use solana_dex.Base.{
  ℕ, ◌-◌, true, Result, ok, code, anchor, zero_trading_tokens, exceeded_slippage,
  require_gt_violated, require_gte_violated, require_eq_violated, require_gt, require_gte,
  require_eq, ◌>>=◌, ◌>>◌, unwrap, ok_or, u128_mod, checked_mul, checked_sub, try_u64,
}
use solana_dex.Keys.{Pubkey}
use solana_dex.Curve.Calculator.{SwapResult}
use solana_dex.Curve.Calculator as Calculator
use solana_dex.Token.Interface.{Spl, Clock}
use solana_dex.Token.{get_transfer_fee}
use solana_dex.Instructions.Swap.{
  SwapAccounts, Quote, SwapOutcome, check_swap_accounts, check_open, trade_amounts, settle,
}

module _ {MintData FeeConfig Bank : Type 0} (spl : Spl MintData FeeConfig Bank) where
  -- What the payer receives of an output, after the mint's fee: positive, and at least the minimum.
  unfoldable pub receive : Clock → SwapAccounts MintData → ℕ → ℕ → Result ℕ
  receive clock ctx amount_out minimum_amount_out = do
    transfer_fee ← get_transfer_fee spl clock ctx.output_token_mint amount_out
    amount_received ← unwrap (checked_sub amount_out transfer_fee)
    require_gt amount_received 0 (anchor require_gt_violated)
    require_gte amount_received minimum_amount_out (code exceeded_slippage)
    ok transfer_fee

  -- The handler up to the amounts of the two transfers.
  unfoldable pub quote_base_input : Clock → SwapAccounts MintData → Bank → ℕ → ℕ → Result Quote
  quote_base_input clock ctx bank amount_in minimum_amount_out = do
    check_open ctx.pool_state clock.unix_timestamp
    transfer_fee ← get_transfer_fee spl clock ctx.input_token_mint amount_in
    let actual_amount_in = amount_in - transfer_fee
    require_gt actual_amount_in 0 (anchor require_gt_violated)
    (trade_direction, total_in, total_out) ←
        trade_amounts ctx.pool_state ctx.input_vault ctx.output_vault
          (spl.amount bank ctx.input_vault) (spl.amount bank ctx.output_vault)
    constant_before ← unwrap (checked_mul u128_mod total_in total_out)
    result ←
        ok_or
          (Calculator.swap_base_input actual_amount_in total_in total_out
            ctx.amm_config.trade_fee_rate ctx.amm_config.protocol_fee_rate
            ctx.amm_config.fund_fee_rate)
          zero_trading_tokens
    constant_after ←
        unwrap
          (checked_mul u128_mod result.new_swap_source_amount result.new_swap_destination_amount)
    require_gte constant_after constant_before (anchor require_gte_violated)
    source_amount_swapped ← unwrap (try_u64 result.source_amount_swapped)
    require_eq source_amount_swapped actual_amount_in (anchor require_eq_violated)
    amount_out ← unwrap (try_u64 result.destination_amount_swapped)
    output_transfer_fee ← receive clock ctx amount_out minimum_amount_out
    ok (record {
      trade_direction = trade_direction;
      total_input_token_amount = total_in;
      total_output_token_amount = total_out;
      result = result;
      input_transfer_amount = amount_in;
      input_transfer_fee = transfer_fee;
      output_transfer_amount = amount_out;
      output_transfer_fee = output_transfer_fee;
    })

  -- The instruction, with the checks of its accounts; `pda` is the authority's derived address.
  unfoldable pub swap_base_input :
      Pubkey → Clock → SwapAccounts MintData → Bank → ℕ → ℕ → Result (SwapOutcome Bank)
  swap_base_input pda clock ctx bank amount_in minimum_amount_out = do
    check_swap_accounts pda ctx
    quote ← quote_base_input clock ctx bank amount_in minimum_amount_out
    settle spl clock ctx bank true quote
