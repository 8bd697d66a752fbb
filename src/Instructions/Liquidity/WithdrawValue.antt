-- ===== src/Instructions/Liquidity/WithdrawValue.antt =====
-- withdraw.rs: the value of the other pool tokens, the supply, and what the owner receives.
use solana_dex.Base.{ℕ, ◌+◌, ◌*◌, ◌≤◌, ◌≡◌, ok, arith, sym, ap}
use solana_dex.Keys.{Pubkey}
use solana_dex.Curve.ConstantProduct.Shares.{rest_keeps_part}
use solana_dex.Token.Interface.{Spl, Clock}
use solana_dex.Token.Laws.{Laws}
use solana_dex.Instructions.Reserves.{Holds}
use solana_dex.Instructions.Liquidity.{LpAccounts, LpOutcome}
use solana_dex.Instructions.Liquidity.Accounts.{SeparateLp, SeparateOwner}
use solana_dex.Instructions.Liquidity.Withdraw.{withdraw}
use solana_dex.Instructions.Liquidity.WithdrawReserves.{withdraw-Redemption}
use solana_dex.Instructions.Liquidity.WithdrawRun.{withdraw-Withdrawn}

module _ {MintData FeeConfig Bank : Type 0} (spl : Spl MintData FeeConfig Bank) (laws : Laws spl)
    (pda memo_id : Pubkey) (clock : Clock) (ctx : LpAccounts MintData) (memo : Pubkey) (bank : Bank)
    (lp min_0 min_1 : ℕ) {s : LpOutcome Bank} where
  -- Over token programs that keep the laws of Token/Laws, with the owner's accounts and the two
  -- vaults different, from vaults that hold the fees set apart and reserves besides: after a
  -- withdrawal that succeeds the vaults hold the fees set apart and reserves of which a pool token
  -- is worth no less than before, and the pool counts the pool tokens that were given less.
  pub withdraw_keeps_value :
      (x y : ℕ)
      → SeparateLp ctx
      → Holds spl ctx.pool_state bank x y
      → withdraw spl pda memo_id clock ctx memo bank lp min_0 min_1 ≡ ok s
      → (x' : ℕ) × (y' : ℕ) × Holds spl s.pool_state s.bank x' y'
        × (x * s.pool_state.lp_supply ≤ x' * ctx.pool_state.lp_supply)
        × (y * s.pool_state.lp_supply ≤ y' * ctx.pool_state.lp_supply)
        × (ctx.pool_state.lp_supply ≡ s.pool_state.lp_supply + lp)
  withdraw_keeps_value x y sep held h =
      let r =
        withdraw-Redemption spl laws pda memo_id clock ctx memo bank lp min_0 min_1 x y sep held
          h in
      let old : ℕ = ctx.pool_state.lp_supply in
      (
        r.x',
        r.y',
        r.held,
        rest_keeps_part lp old x r.paid_0 s.pool_state.lp_supply r.x' r.down_0 r.out_0 r.count,
        rest_keeps_part lp old y r.paid_1 s.pool_state.lp_supply r.y' r.down_1 r.out_1 r.count,
        r.count,
      )

  -- The mint of the pool tokens is the pool's, before and after.
  pub withdraw_mint :
      SeparateLp ctx
      → withdraw spl pda memo_id clock ctx memo bank lp min_0 min_1 ≡ ok s
      → (ctx.lp_mint ≡ ctx.pool_state.lp_mint) × (s.pool_state.lp_mint ≡ ctx.pool_state.lp_mint)
  withdraw_mint sep h =
      let run =
        withdraw-Withdrawn spl laws clock ctx pda memo_id memo bank lp min_0 min_1
          (λ e. sep.account_0_vault_0 (sym e)) (λ e. sep.account_1_vault_1 (sym e)) h in
      (run.mint, ap (λ p. p.lp_mint) run.supplied)

  -- Over token programs that keep the laws of Token/Laws, with the owner's accounts and the vaults
  -- all different: a withdrawal that succeeds takes the amount of pool tokens from the owner's
  -- account and from the supply of their mint, and the owner receives at least the minimum of each
  -- token, after the mint's fee.
  pub withdraw_limits :
      SeparateLp ctx
      → SeparateOwner ctx
      → withdraw spl pda memo_id clock ctx memo bank lp min_0 min_1 ≡ ok s
      → (spl.amount bank ctx.owner_lp_token.key ≡ spl.amount s.bank ctx.owner_lp_token.key + lp)
        × (spl.supply bank ctx.lp_mint ≡ spl.supply s.bank ctx.lp_mint + lp)
        × (spl.amount bank ctx.token_0_account.key + min_0
            ≤ spl.amount s.bank ctx.token_0_account.key)
        × (spl.amount bank ctx.token_1_account.key + min_1
            ≤ spl.amount s.bank ctx.token_1_account.key)
  withdraw_limits sep own h =
      let run =
        withdraw-Withdrawn spl laws clock ctx pda memo_id memo bank lp min_0 min_1
          (λ e. sep.account_0_vault_0 (sym e)) (λ e. sep.account_1_vault_1 (sym e)) h in
      let out_0 = run.sent_0.moved in
      let out_1 = run.sent_1.moved in
      (
        omega (
          arith,
          run.retired.debited,
          out_0.others ctx.owner_lp_token.key sep.lp_vault_0 own.lp_account_0,
          out_1.others ctx.owner_lp_token.key sep.lp_vault_1 own.lp_account_1,
        ),
        omega (arith, run.retired.retired, out_0.supplies ctx.lp_mint, out_1.supplies ctx.lp_mint),
        omega (
          arith,
          run.sent_0.arrives,
          out_0.credited,
          run.retired.others ctx.token_0_account.key (λ e. own.lp_account_0 (sym e)),
          out_1.others ctx.token_0_account.key sep.account_0_vault_1 own.accounts,
        ),
        omega (
          arith,
          run.sent_1.arrives,
          out_1.credited,
          run.retired.others ctx.token_1_account.key (λ e. own.lp_account_1 (sym e)),
          out_0.others ctx.token_1_account.key sep.account_1_vault_0 (λ e. own.accounts (sym e)),
        ),
      )
