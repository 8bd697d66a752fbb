-- ===== src/Instructions/Swap/BaseOutput.antt =====
-- instructions/swap_base_output.rs. The `msg!` calls only write to the log.
use solana_dex.Base.{
  ℕ, false, Result, ok, code, anchor, zero_trading_tokens, exceeded_slippage, require_gt_violated,
  require_gte_violated, require_eq_violated, require_gt, require_gte, require_eq, ◌>>=◌, ◌>>◌,
  unwrap, ok_or, u64_mod, u128_mod, checked_add, checked_mul, try_u64,
}
use solana_dex.Keys.{Pubkey}
use solana_dex.Curve.Calculator.{SwapResult}
use solana_dex.Curve.Calculator as Calculator
use solana_dex.Token.Interface.{Spl, Clock}
use solana_dex.Token.{get_transfer_inverse_fee}
use solana_dex.Instructions.Swap.{
  SwapAccounts, Quote, SwapOutcome, check_swap_accounts, check_open, trade_amounts, settle,
}

module _ {MintData FeeConfig Bank : Type 0} (spl : Spl MintData FeeConfig Bank) where
  -- What the payer sends for an input of the curve: with the mint's fee, and at most the maximum.
  unfoldable pub send : Clock → SwapAccounts MintData → ℕ → ℕ → Result (ℕ × ℕ)
  send clock ctx source_amount_swapped max_amount_in = do
    require_gt source_amount_swapped 0 (anchor require_gt_violated)
    transfer_fee ← get_transfer_inverse_fee spl clock ctx.input_token_mint source_amount_swapped
    input_transfer_amount ← unwrap (checked_add u64_mod source_amount_swapped transfer_fee)
    require_gte max_amount_in input_transfer_amount (code exceeded_slippage)
    ok (input_transfer_amount, transfer_fee)

  -- The handler up to the amounts of the two transfers.
  unfoldable pub quote_base_output : Clock → SwapAccounts MintData → Bank → ℕ → ℕ → Result Quote
  quote_base_output clock ctx bank max_amount_in amount_out_less_fee = do
    check_open ctx.pool_state clock.unix_timestamp
    out_transfer_fee ← get_transfer_inverse_fee spl clock ctx.output_token_mint amount_out_less_fee
    actual_amount_out ← unwrap (checked_add u64_mod amount_out_less_fee out_transfer_fee)
    (trade_direction, total_in, total_out) ←
        trade_amounts ctx.pool_state ctx.input_vault ctx.output_vault
          (spl.amount bank ctx.input_vault) (spl.amount bank ctx.output_vault)
    constant_before ← unwrap (checked_mul u128_mod total_in total_out)
    result ←
        ok_or
          (Calculator.swap_base_output actual_amount_out total_in total_out
            ctx.amm_config.trade_fee_rate ctx.amm_config.protocol_fee_rate
            ctx.amm_config.fund_fee_rate)
          zero_trading_tokens
    constant_after ←
        unwrap
          (checked_mul u128_mod result.new_swap_source_amount result.new_swap_destination_amount)
    require_gte constant_after constant_before (anchor require_gte_violated)
    source_amount_swapped ← unwrap (try_u64 result.source_amount_swapped)
    (input_transfer_amount, transfer_fee) ← send clock ctx source_amount_swapped max_amount_in
    destination_amount_swapped ← unwrap (try_u64 result.destination_amount_swapped)
    require_eq destination_amount_swapped actual_amount_out (anchor require_eq_violated)
    ok (record {
      trade_direction = trade_direction;
      total_input_token_amount = total_in;
      total_output_token_amount = total_out;
      result = result;
      input_transfer_amount = input_transfer_amount;
      input_transfer_fee = transfer_fee;
      output_transfer_amount = actual_amount_out;
      output_transfer_fee = out_transfer_fee;
    })

  -- The instruction, with the checks of its accounts; `pda` is the authority's derived address.
  unfoldable pub swap_base_output :
      Pubkey → Clock → SwapAccounts MintData → Bank → ℕ → ℕ → Result (SwapOutcome Bank)
  swap_base_output pda clock ctx bank max_amount_in amount_out_less_fee = do
    check_swap_accounts pda ctx
    quote ← quote_base_output clock ctx bank max_amount_in amount_out_less_fee
    settle spl clock ctx bank false quote
