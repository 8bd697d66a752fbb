-- ===== src/Instructions/Liquidity/DepositReserves.antt =====
-- deposit.rs: the reserves that a deposit leaves.
use solana_dex.Base.{ℕ, ◌+◌, ◌-◌, ◌≤◌, ◌≡◌, ok, arith, subst, sym, ap, refl}
use solana_dex.Keys.{Pubkey}
use solana_dex.Curve.ConstantProduct.Shares.{IsRoundedUp, ceiling_amounts}
use solana_dex.States.Pool.{PoolState}
use solana_dex.States.Pool.Reserves.{fees_0, fees_1}
use solana_dex.Token.Interface.{Spl, Clock}
use solana_dex.Token.Laws.{Laws}
use solana_dex.Instructions.Reserves.{Holds, vault_0_of, vault_1_of, of_vaults}
use solana_dex.Instructions.Liquidity.{LpAccounts, LpOutcome}
use solana_dex.Instructions.Liquidity.Accounts.{SeparateLp}
use solana_dex.Instructions.Liquidity.Deposit.{deposit}
use solana_dex.Instructions.Liquidity.DepositRun.{Deposited, deposit-Deposited}

module _ {MintData FeeConfig Bank : Type 0} (spl : Spl MintData FeeConfig Bank) (p p' : PoolState)
    (b' : Bank) (lp x y : ℕ) where
  -- A deposit of `lp` pool tokens over the reserves `x` and `y`: their price is rounded up, and at
  -- least the price arrives.
  pub record Funding : Type 0 where
    pub x' : ℕ
    pub y' : ℕ
    pub cost_0 : ℕ
    pub cost_1 : ℕ
    pub held : Holds spl p' b' x' y'
    pub up_0 : IsRoundedUp lp p.lp_supply x cost_0
    pub up_1 : IsRoundedUp lp p.lp_supply y cost_1
    pub in_0 : x + cost_0 ≤ x'
    pub in_1 : y + cost_1 ≤ y'
    pub count : p'.lp_supply ≡ p.lp_supply + lp

module _ {MintData FeeConfig Bank : Type 0} (spl : Spl MintData FeeConfig Bank) (laws : Laws spl)
    (pda : Pubkey) (clock : Clock) (ctx : LpAccounts MintData) (bank : Bank) (lp max_0 max_1 : ℕ)
    {s : LpOutcome Bank} where
  -- The reserves after a deposit hold what arrives more.
  pub reserves_after :
      (x y : ℕ)
      → SeparateLp ctx
      → Holds spl ctx.pool_state bank x y
      → (run : Deposited spl laws clock ctx bank lp max_0 max_1 s)
      → (x' : ℕ) × (y' : ℕ) × Holds spl s.pool_state s.bank x' y'
        × (x' ≡ x + (run.sent_0 - run.funded_0.withheld))
        × (y' ≡ y + (run.sent_1 - run.funded_1.withheld))
        × IsRoundedUp lp ctx.pool_state.lp_supply x run.results.token_0_amount
        × IsRoundedUp lp ctx.pool_state.lp_supply y run.results.token_1_amount
  reserves_after x y sep held run =
      let in_0 = run.funded_0.moved in
      let in_1 = run.funded_1.moved in
      let x' : ℕ = x + (run.sent_0 - run.funded_0.withheld) in
      let y' : ℕ = y + (run.sent_1 - run.funded_1.withheld) in
      let before_0 = vault_0_of spl ctx.token_0_vault.key run.vault_0 held in
      let before_1 = vault_1_of spl ctx.token_1_vault.key run.vault_1 held in
      let after_0 : spl.amount s.bank ctx.token_0_vault.key ≡ x' + fees_0 ctx.pool_state = omega (
        arith,
        before_0,
        run.funded_0.arrives,
        in_0.credited,
        in_1.others ctx.token_0_vault.key (λ e. sep.account_1_vault_0 (sym e)) sep.vaults,
        run.minted.others ctx.token_0_vault.key (λ e. sep.lp_vault_0 (sym e)),
      ) in
      let after_1 : spl.amount s.bank ctx.token_1_vault.key ≡ y' + fees_1 ctx.pool_state = omega (
        arith,
        before_1,
        run.funded_1.arrives,
        in_1.credited,
        in_0.others ctx.token_1_vault.key (λ e. sep.account_0_vault_1 (sym e))
            (λ e. sep.vaults (sym e)),
        run.minted.others ctx.token_1_vault.key (λ e. sep.lp_vault_1 (sym e)),
      ) in
      let same_x : run.total_0 ≡ x = omega (arith, run.net_0, before_0) in
      let same_y : run.total_1 ≡ y = omega (arith, run.net_1, before_1) in
      let (up_x, up_y) =
        ceiling_amounts lp ctx.pool_state.lp_supply run.total_0 run.total_1 run.curve in
      (
        x',
        y',
        subst (λ p. Holds spl p s.bank x' y') (sym run.supplied)
            (of_vaults spl ctx.token_0_vault.key ctx.token_1_vault.key run.vault_0 run.vault_1
              after_0 after_1),
        refl,
        refl,
        subst (λ z. IsRoundedUp lp ctx.pool_state.lp_supply z run.results.token_0_amount) same_x
            up_x,
        subst (λ z. IsRoundedUp lp ctx.pool_state.lp_supply z run.results.token_1_amount) same_y
            up_y,
      )

  pub deposit-Funding :
      (x y : ℕ)
      → SeparateLp ctx
      → Holds spl ctx.pool_state bank x y
      → deposit spl pda clock ctx bank lp max_0 max_1 ≡ ok s
      → Funding spl ctx.pool_state s.pool_state s.bank lp x y
  deposit-Funding x y sep held h =
      let run =
        deposit-Deposited spl laws clock ctx pda bank lp max_0 max_1 sep.account_0_vault_0
          sep.account_1_vault_1 h in
      let (x', y', held', gain_x, gain_y, up_x, up_y) = reserves_after x y sep held run in
      record {
        x' = x';
        y' = y';
        cost_0 = run.results.token_0_amount;
        cost_1 = run.results.token_1_amount;
        held = held';
        up_0 = up_x;
        up_1 = up_y;
        in_0 = omega (arith, gain_x, run.funded_0.arrives);
        in_1 = omega (arith, gain_y, run.funded_1.arrives);
        count = ap (λ p. p.lp_supply) run.supplied;
      }
