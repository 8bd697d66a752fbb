-- ===== src/Instructions/Liquidity/DepositValue.antt =====
-- deposit.rs: the value of the old pool tokens, the supply, and the owner's limits.
use solana_dex.Base.{ℕ, ◌+◌, ◌*◌, ◌≤◌, ◌<◌, ◌≡◌, ok, arith, subst₂, sym, ap, inl, inr}
use solana_dex.Keys.{Pubkey}
use solana_dex.Curve.ConstantProduct.Shares.{IsRoundedUp, rounded_up_part}
use solana_dex.Token.Interface.{Spl, Clock}
use solana_dex.Token.Laws.{Laws, inverse_fee_of_zero}
use solana_dex.Instructions.Reserves.{Holds}
use solana_dex.Instructions.Liquidity.{LpAccounts, LpOutcome}
use solana_dex.Instructions.Liquidity.Accounts.{SeparateLp, SeparateOwner}
use solana_dex.Instructions.Liquidity.Deposit.{deposit}
use solana_dex.Instructions.Liquidity.DepositReserves.{reserves_after, deposit-Funding}
use solana_dex.Instructions.Liquidity.DepositRun.{deposit-Deposited}

worth_nothing : (lp s x t : ℕ) → lp * x < s → IsRoundedUp lp s x t → t ≡ 0
worth_nothing lp s x t less (inl (nil, _)) = nil
worth_nothing lp s x t less (inr (one, _, _)) = absurd (omega arith)

module _ {MintData FeeConfig Bank : Type 0} (spl : Spl MintData FeeConfig Bank) (laws : Laws spl)
    (pda : Pubkey) (clock : Clock) (ctx : LpAccounts MintData) (bank : Bank) (lp max_0 max_1 : ℕ)
    {s : LpOutcome Bank} where
  -- The mint of the pool tokens is the pool's, before and after.
  pub deposit_mint :
      SeparateLp ctx
      → deposit spl pda clock ctx bank lp max_0 max_1 ≡ ok s
      → (ctx.lp_mint ≡ ctx.pool_state.lp_mint) × (s.pool_state.lp_mint ≡ ctx.pool_state.lp_mint)
  deposit_mint sep h =
      let run =
        deposit-Deposited spl laws clock ctx pda bank lp max_0 max_1 sep.account_0_vault_0
          sep.account_1_vault_1 h in
      (run.mint, ap (λ p. p.lp_mint) run.supplied)

  -- Over token programs that keep the laws of Token/Laws, with the owner's accounts and the two
  -- vaults different, from vaults that hold the fees set apart and reserves besides: after a
  -- deposit that succeeds and whose pool tokens are worth at least one unit of each reserve, the
  -- vaults hold the fees set apart and reserves of which a pool token is worth no less than before.
  pub deposit_keeps_value :
      (x y : ℕ)
      → SeparateLp ctx
      → Holds spl ctx.pool_state bank x y
      → ctx.pool_state.lp_supply ≤ lp * x
      → ctx.pool_state.lp_supply ≤ lp * y
      → deposit spl pda clock ctx bank lp max_0 max_1 ≡ ok s
      → (x' : ℕ) × (y' : ℕ) × Holds spl s.pool_state s.bank x' y'
        × (x * s.pool_state.lp_supply ≤ x' * ctx.pool_state.lp_supply)
        × (y * s.pool_state.lp_supply ≤ y' * ctx.pool_state.lp_supply)
  deposit_keeps_value x y sep held one_x one_y h =
      let f = deposit-Funding spl laws pda clock ctx bank lp max_0 max_1 x y sep held h in
      let old : ℕ = ctx.pool_state.lp_supply in
      (
        f.x',
        f.y',
        f.held,
        rounded_up_part lp old x f.cost_0 s.pool_state.lp_supply f.x' one_x f.up_0 f.in_0 f.count,
        rounded_up_part lp old y f.cost_1 s.pool_state.lp_supply f.y' one_y f.up_1 f.in_1 f.count,
      )

  -- Over token programs that keep the laws of Token/Laws, with the owner's accounts and the vaults
  -- all different: a deposit that succeeds adds the amount of pool tokens to the pool's count, to
  -- the supply of their mint and to the owner's account.
  pub deposit_issues :
      SeparateLp ctx
      → SeparateOwner ctx
      → deposit spl pda clock ctx bank lp max_0 max_1 ≡ ok s
      → (s.pool_state.lp_supply ≡ ctx.pool_state.lp_supply + lp)
        × (spl.supply s.bank ctx.lp_mint ≡ spl.supply bank ctx.lp_mint + lp)
        × (spl.amount s.bank ctx.owner_lp_token.key ≡ spl.amount bank ctx.owner_lp_token.key + lp)
  deposit_issues sep own h =
      let run =
        deposit-Deposited spl laws clock ctx pda bank lp max_0 max_1 sep.account_0_vault_0
          sep.account_1_vault_1 h in
      let in_0 = run.funded_0.moved in
      let in_1 = run.funded_1.moved in
      (
        ap (λ p. p.lp_supply) run.supplied,
        omega (arith, run.minted.issued, in_0.supplies ctx.lp_mint, in_1.supplies ctx.lp_mint),
        omega (
          arith,
          run.minted.credited,
          in_0.others ctx.owner_lp_token.key own.lp_account_0 sep.lp_vault_0,
          in_1.others ctx.owner_lp_token.key own.lp_account_1 sep.lp_vault_1,
        ),
      )

  -- Over token programs that keep the laws of Token/Laws, with the owner's accounts and the vaults
  -- all different: a deposit that succeeds takes at most the maximum of each token from the owner's
  -- account.
  pub deposit_limits :
      SeparateLp ctx
      → SeparateOwner ctx
      → deposit spl pda clock ctx bank lp max_0 max_1 ≡ ok s
      → (spl.amount bank ctx.token_0_account.key
          ≤ spl.amount s.bank ctx.token_0_account.key + max_0)
        × (spl.amount bank ctx.token_1_account.key
            ≤ spl.amount s.bank ctx.token_1_account.key + max_1)
  deposit_limits sep own h =
      let run =
        deposit-Deposited spl laws clock ctx pda bank lp max_0 max_1 sep.account_0_vault_0
          sep.account_1_vault_1 h in
      let in_0 = run.funded_0.moved in
      let in_1 = run.funded_1.moved in
      (
        omega (
          arith,
          run.limit_0,
          in_0.debited,
          in_1.others ctx.token_0_account.key own.accounts sep.account_0_vault_1,
          run.minted.others ctx.token_0_account.key (λ e. own.lp_account_0 (sym e)),
        ),
        omega (
          arith,
          run.limit_1,
          in_1.debited,
          in_0.others ctx.token_1_account.key (λ e. own.accounts (sym e)) sep.account_1_vault_0,
          run.minted.others ctx.token_1_account.key (λ e. own.lp_account_1 (sym e)),
        ),
      )

  -- Over token programs that keep the laws of Token/Laws, with the owner's accounts and the two
  -- vaults different, from vaults that hold the fees set apart and reserves besides: a deposit that
  -- succeeds, of pool tokens that are worth less than one unit of each reserve, adds nothing to the
  -- reserves, and the pool's count and the supply of their mint grow by the pool tokens all the
  -- same.
  pub deposit_for_nothing :
      (x y : ℕ)
      → SeparateLp ctx
      → Holds spl ctx.pool_state bank x y
      → lp * x < ctx.pool_state.lp_supply
      → lp * y < ctx.pool_state.lp_supply
      → deposit spl pda clock ctx bank lp max_0 max_1 ≡ ok s
      → Holds spl s.pool_state s.bank x y
        × (s.pool_state.lp_supply ≡ ctx.pool_state.lp_supply + lp)
        × (spl.supply s.bank ctx.lp_mint ≡ spl.supply bank ctx.lp_mint + lp)
  deposit_for_nothing x y sep held less_x less_y h =
      let run =
        deposit-Deposited spl laws clock ctx pda bank lp max_0 max_1 sep.account_0_vault_0
          sep.account_1_vault_1 h in
      let (x', y', held', gain_x, gain_y, up_x, up_y) =
        reserves_after spl laws pda clock ctx bank lp max_0 max_1 x y sep held run in
      let nil_0 = worth_nothing lp _ x _ less_x up_x in
      let nil_1 = worth_nothing lp _ y _ less_y up_y in
      let free_0 = inverse_fee_of_zero spl clock ctx.vault_0_mint _ _ nil_0 run.funded_0.fee in
      let free_1 = inverse_fee_of_zero spl clock ctx.vault_1_mint _ _ nil_1 run.funded_1.fee in
      let same_x : x' ≡ x = omega (arith, gain_x, run.funded_0.total, nil_0, free_0) in
      let same_y : y' ≡ y = omega (arith, gain_y, run.funded_1.total, nil_1, free_1) in
      (
        subst₂ (λ m n. Holds spl s.pool_state s.bank m n) same_x same_y held',
        ap (λ p. p.lp_supply) run.supplied,
        omega (
          arith,
          run.minted.issued,
          run.funded_0.moved.supplies ctx.lp_mint,
          run.funded_1.moved.supplies ctx.lp_mint,
        ),
      )
