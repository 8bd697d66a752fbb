-- ===== src/Instructions/Liquidity/Withdraw.antt =====
-- instructions/withdraw.rs.
use solana_dex.Base.{
  ℕ, ◌||◌, not, Result, ok, code, anchor, not_approved, exceeded_slippage, zero_trading_tokens,
  require_gt_violated, constraint_address, require_gt, ◌>>=◌, ◌>>◌, guard, unwrap, ok_or, ltb, min,
  ◌==◌, checked_sub, try_u64,
}
use solana_dex.Keys.{Pubkey}
use solana_dex.Curve.ConstantProduct.{floor}
use solana_dex.Curve.Calculator.{lp_tokens_to_trading_tokens}
use solana_dex.States.Pool.{get_status_by_bit, vault_amount_without_fee}
use solana_dex.States.Pool as Pool
use solana_dex.Token.Interface.{Spl, MintAccount, Clock}
use solana_dex.Token.{get_transfer_fee, transfer_from_pool_vault_to_user, token_burn}
use solana_dex.Instructions.Liquidity.{
  LpAccounts, LpQuote, LpOutcome, check_lp_accounts, program_of,
}

module _ {MintData FeeConfig Bank : Type 0} (spl : Spl MintData FeeConfig Bank) where
  -- What the owner receives of an amount that is sent, and the mint's fee.
  unfoldable pub less_fee : Clock → MintAccount MintData → ℕ → Result (ℕ × ℕ)
  less_fee clock mint token_amount = do
    transfer_fee ← get_transfer_fee spl clock mint token_amount
    receive_amount ← unwrap (checked_sub token_amount transfer_fee)
    ok (receive_amount, transfer_fee)

  -- The handler up to the amounts of the two transfers, after its gate.
  unfoldable pub quote_withdrawal : Clock → LpAccounts MintData → Bank → ℕ → ℕ → ℕ → Result LpQuote
  quote_withdrawal clock ctx bank lp_token_amount minimum_token_0_amount minimum_token_1_amount = do
    (total_token_0_amount, total_token_1_amount) ←
        vault_amount_without_fee ctx.pool_state (spl.amount bank ctx.token_0_vault.key)
          (spl.amount bank ctx.token_1_vault.key)
    results ←
        ok_or
          (lp_tokens_to_trading_tokens lp_token_amount ctx.pool_state.lp_supply total_token_0_amount
            total_token_1_amount floor)
          zero_trading_tokens
    amount_0 ← unwrap (try_u64 results.token_0_amount)
    let token_0_amount = min total_token_0_amount amount_0
    (receive_token_0_amount, token_0_transfer_fee) ← less_fee clock ctx.vault_0_mint token_0_amount
    amount_1 ← unwrap (try_u64 results.token_1_amount)
    let token_1_amount = min total_token_1_amount amount_1
    (receive_token_1_amount, token_1_transfer_fee) ← less_fee clock ctx.vault_1_mint token_1_amount
    guard
        (not (
          ltb receive_token_0_amount minimum_token_0_amount
          || ltb receive_token_1_amount minimum_token_1_amount))
        (code exceeded_slippage)
    ok (record {
      total_token_0_amount = total_token_0_amount;
      total_token_1_amount = total_token_1_amount;
      token_0_amount = receive_token_0_amount;
      token_1_amount = receive_token_1_amount;
      transfer_token_0_amount = token_0_amount;
      transfer_token_1_amount = token_1_amount;
      token_0_transfer_fee = token_0_transfer_fee;
      token_1_transfer_fee = token_1_transfer_fee;
    })

  -- The instruction, with the checks of its accounts; `pda` is the authority's derived address,
  -- `memo_program` the account of that name, `memo_id` the id of the memo program.
  unfoldable pub withdraw :
      Pubkey
      → Pubkey
      → Clock
      → LpAccounts MintData
      → Pubkey
      → Bank
      → ℕ
      → ℕ
      → ℕ
      → Result (LpOutcome Bank)
  withdraw pda memo_id clock ctx memo_program bank lp_token_amount minimum_token_0_amount
        minimum_token_1_amount =
      do
        check_lp_accounts pda ctx
        guard (memo_program == memo_id) (anchor constraint_address)
        require_gt (spl.supply bank ctx.lp_mint) 0 (anchor require_gt_violated)
        guard (get_status_by_bit ctx.pool_state Pool.withdraw) (code not_approved)
        quote ←
            quote_withdrawal clock ctx bank lp_token_amount minimum_token_0_amount
              minimum_token_1_amount
        lp_supply ← unwrap (checked_sub ctx.pool_state.lp_supply lp_token_amount)
        burned ←
            token_burn spl bank ctx.owner ctx.token_program ctx.lp_mint ctx.owner_lp_token.key
              lp_token_amount
        sent_0 ←
            transfer_from_pool_vault_to_user spl burned ctx.authority ctx.token_0_vault.key
              ctx.token_0_account.key clock ctx.vault_0_mint (program_of ctx ctx.vault_0_mint)
              quote.transfer_token_0_amount ctx.vault_0_mint.decimals
        sent_1 ←
            transfer_from_pool_vault_to_user spl sent_0 ctx.authority ctx.token_1_vault.key
              ctx.token_1_account.key clock ctx.vault_1_mint (program_of ctx ctx.vault_1_mint)
              quote.transfer_token_1_amount ctx.vault_1_mint.decimals
        ok (record {
          pool_state = record ctx.pool_state { lp_supply = lp_supply };
          bank = sent_1;
          event = record {
            pool_id = ctx.pool_id;
            lp_amount_before = ctx.pool_state.lp_supply;
            token_0_vault_before = quote.total_token_0_amount;
            token_1_vault_before = quote.total_token_1_amount;
            token_0_amount = quote.token_0_amount;
            token_1_amount = quote.token_1_amount;
            token_0_transfer_fee = quote.token_0_transfer_fee;
            token_1_transfer_fee = quote.token_1_transfer_fee;
            change_type = 1;
          };
        })
