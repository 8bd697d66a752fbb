-- ===== src/Instructions/Liquidity/Deposit.antt =====
-- instructions/deposit.rs. The `msg!` calls only write to the log.
use solana_dex.Base.{
  ℕ, ◌||◌, not, Result, ok, code, not_approved, exceeded_slippage, zero_trading_tokens, ◌>>=◌, ◌>>◌,
  guard, unwrap, ok_or, ltb, u64_mod, checked_add, try_u64,
}
use solana_dex.Keys.{Pubkey}
use solana_dex.Curve.ConstantProduct.{ceiling}
use solana_dex.Curve.Calculator.{lp_tokens_to_trading_tokens}
use solana_dex.States.Pool.{get_status_by_bit, vault_amount_without_fee}
use solana_dex.States.Pool as Pool
use solana_dex.Token.Interface.{Spl, MintAccount, Clock}
use solana_dex.Token.{get_transfer_inverse_fee, transfer_from_user_to_pool_vault, token_mint_to}
use solana_dex.Instructions.Liquidity.{
  LpAccounts, LpQuote, LpOutcome, check_lp_accounts, program_of,
}

module _ {MintData FeeConfig Bank : Type 0} (spl : Spl MintData FeeConfig Bank) where
  -- What the owner sends for an amount that is to arrive, and the mint's fee within it.
  unfoldable pub with_inverse_fee : Clock → MintAccount MintData → ℕ → Result (ℕ × ℕ)
  with_inverse_fee clock mint token_amount = do
    transfer_fee ← get_transfer_inverse_fee spl clock mint token_amount
    transfer_amount ← unwrap (checked_add u64_mod token_amount transfer_fee)
    ok (transfer_amount, transfer_fee)

  -- The handler up to the amounts of the two transfers, after its gate.
  unfoldable pub quote_deposit : Clock → LpAccounts MintData → Bank → ℕ → ℕ → ℕ → Result LpQuote
  quote_deposit clock ctx bank lp_token_amount maximum_token_0_amount maximum_token_1_amount = do
    (total_token_0_amount, total_token_1_amount) ←
        vault_amount_without_fee ctx.pool_state (spl.amount bank ctx.token_0_vault.key)
          (spl.amount bank ctx.token_1_vault.key)
    results ←
        ok_or
          (lp_tokens_to_trading_tokens lp_token_amount ctx.pool_state.lp_supply total_token_0_amount
            total_token_1_amount ceiling)
          zero_trading_tokens
    token_0_amount ← unwrap (try_u64 results.token_0_amount)
    (transfer_token_0_amount, transfer_token_0_fee) ←
        with_inverse_fee clock ctx.vault_0_mint token_0_amount
    token_1_amount ← unwrap (try_u64 results.token_1_amount)
    (transfer_token_1_amount, transfer_token_1_fee) ←
        with_inverse_fee clock ctx.vault_1_mint token_1_amount
    guard
        (not (
          ltb maximum_token_0_amount transfer_token_0_amount
          || ltb maximum_token_1_amount transfer_token_1_amount))
        (code exceeded_slippage)
    ok (record {
      total_token_0_amount = total_token_0_amount;
      total_token_1_amount = total_token_1_amount;
      token_0_amount = token_0_amount;
      token_1_amount = token_1_amount;
      transfer_token_0_amount = transfer_token_0_amount;
      transfer_token_1_amount = transfer_token_1_amount;
      token_0_transfer_fee = transfer_token_0_fee;
      token_1_transfer_fee = transfer_token_1_fee;
    })

  -- The instruction, with the checks of its accounts; `pda` is the authority's derived address.
  unfoldable pub deposit :
      Pubkey → Clock → LpAccounts MintData → Bank → ℕ → ℕ → ℕ → Result (LpOutcome Bank)
  deposit pda clock ctx bank lp_token_amount maximum_token_0_amount maximum_token_1_amount = do
    check_lp_accounts pda ctx
    guard (get_status_by_bit ctx.pool_state Pool.deposit) (code not_approved)
    quote ←
        quote_deposit clock ctx bank lp_token_amount maximum_token_0_amount maximum_token_1_amount
    paid_0 ←
        transfer_from_user_to_pool_vault spl bank ctx.owner ctx.token_0_account.key
          ctx.token_0_vault.key clock ctx.vault_0_mint (program_of ctx ctx.vault_0_mint)
          quote.transfer_token_0_amount ctx.vault_0_mint.decimals
    paid_1 ←
        transfer_from_user_to_pool_vault spl paid_0 ctx.owner ctx.token_1_account.key
          ctx.token_1_vault.key clock ctx.vault_1_mint (program_of ctx ctx.vault_1_mint)
          quote.transfer_token_1_amount ctx.vault_1_mint.decimals
    lp_supply ← unwrap (checked_add u64_mod ctx.pool_state.lp_supply lp_token_amount)
    minted ←
        token_mint_to spl paid_1 ctx.authority ctx.token_program ctx.lp_mint ctx.owner_lp_token.key
          lp_token_amount
    ok (record {
      pool_state = record ctx.pool_state { lp_supply = lp_supply };
      bank = minted;
      event = record {
        pool_id = ctx.pool_id;
        lp_amount_before = ctx.pool_state.lp_supply;
        token_0_vault_before = quote.total_token_0_amount;
        token_1_vault_before = quote.total_token_1_amount;
        token_0_amount = quote.token_0_amount;
        token_1_amount = quote.token_1_amount;
        token_0_transfer_fee = quote.token_0_transfer_fee;
        token_1_transfer_fee = quote.token_1_transfer_fee;
        change_type = 0;
      };
    })
