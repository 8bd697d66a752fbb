-- ===== src/Instructions/Liquidity/WithdrawReserves.antt =====
-- withdraw.rs: the reserves that a withdrawal leaves.
use solana_dex.Base.{ℕ, ◌+◌, ◌-◌, ◌≡◌, ok, arith, subst, sym, ap}
use solana_dex.Keys.{Pubkey}
use solana_dex.Curve.ConstantProduct.Shares.{IsRoundedDown, floor_amounts, withdrawal_keeps_share}
use solana_dex.States.Pool.{PoolState}
use solana_dex.States.Pool.Reserves.{fees_0, fees_1}
use solana_dex.Token.Interface.{Spl, Clock}
use solana_dex.Token.Laws.{Laws}
use solana_dex.Instructions.Reserves.{Holds, vault_0_of, vault_1_of, of_vaults}
use solana_dex.Instructions.Liquidity.{LpAccounts, LpOutcome}
use solana_dex.Instructions.Liquidity.Accounts.{SeparateLp}
use solana_dex.Instructions.Liquidity.Withdraw.{withdraw}
use solana_dex.Instructions.Liquidity.WithdrawRun.{Withdrawn, withdraw-Withdrawn}

module _ {MintData FeeConfig Bank : Type 0} (spl : Spl MintData FeeConfig Bank) (p p' : PoolState)
    (b' : Bank) (lp x y : ℕ) where
  -- A withdrawal of `lp` pool tokens over the reserves `x` and `y`: their part is rounded down and
  -- leaves the reserves.
  pub record Redemption : Type 0 where
    pub x' : ℕ
    pub y' : ℕ
    pub paid_0 : ℕ
    pub paid_1 : ℕ
    pub held : Holds spl p' b' x' y'
    pub down_0 : IsRoundedDown lp p.lp_supply x paid_0
    pub down_1 : IsRoundedDown lp p.lp_supply y paid_1
    pub out_0 : x ≡ x' + paid_0
    pub out_1 : y ≡ y' + paid_1
    pub count : p.lp_supply ≡ p'.lp_supply + lp

module _ {MintData FeeConfig Bank : Type 0} (spl : Spl MintData FeeConfig Bank) (laws : Laws spl)
    (pda memo_id : Pubkey) (clock : Clock) (ctx : LpAccounts MintData) (memo : Pubkey) (bank : Bank)
    (lp min_0 min_1 : ℕ) {s : LpOutcome Bank} where
  redemption :
      (x y : ℕ)
      → SeparateLp ctx
      → Holds spl ctx.pool_state bank x y
      → Withdrawn spl laws clock ctx bank lp min_0 min_1 s
      → Redemption spl ctx.pool_state s.pool_state s.bank lp x y
  redemption x y sep held run =
      let out_0 = run.sent_0.moved in
      let out_1 = run.sent_1.moved in
      let old : ℕ = ctx.pool_state.lp_supply in
      let ((most_0, _), (most_1, _)) =
        withdrawal_keeps_share lp old run.total_0 run.total_1 run.curve
          (omega (arith, run.supply)) in
      let (down_x, down_y) = floor_amounts lp old run.total_0 run.total_1 run.curve in
      let before_0 = vault_0_of spl ctx.token_0_vault.key run.vault_0 held in
      let before_1 = vault_1_of spl ctx.token_1_vault.key run.vault_1 held in
      let same_x : run.total_0 ≡ x = omega (arith, run.net_0, before_0) in
      let same_y : run.total_1 ≡ y = omega (arith, run.net_1, before_1) in
      let x' : ℕ = x - run.results.token_0_amount in
      let y' : ℕ = y - run.results.token_1_amount in
      let after_0 : spl.amount s.bank ctx.token_0_vault.key ≡ x' + fees_0 ctx.pool_state = omega (
        arith,
        before_0,
        out_0.debited,
        out_1.others ctx.token_0_vault.key sep.vaults (λ e. sep.account_1_vault_0 (sym e)),
        run.retired.others ctx.token_0_vault.key (λ e. sep.lp_vault_0 (sym e)),
      ) in
      let after_1 : spl.amount s.bank ctx.token_1_vault.key ≡ y' + fees_1 ctx.pool_state = omega (
        arith,
        before_1,
        out_1.debited,
        out_0.others ctx.token_1_vault.key (λ e. sep.vaults (sym e))
            (λ e. sep.account_0_vault_1 (sym e)),
        run.retired.others ctx.token_1_vault.key (λ e. sep.lp_vault_1 (sym e)),
      ) in
      let left : s.pool_state.lp_supply ≡ run.left = ap (λ p. p.lp_supply) run.supplied in
      record {
        x' = x';
        y' = y';
        paid_0 = run.results.token_0_amount;
        paid_1 = run.results.token_1_amount;
        held =
            subst (λ p. Holds spl p s.bank x' y') (sym run.supplied)
              (of_vaults spl ctx.token_0_vault.key ctx.token_1_vault.key run.vault_0 run.vault_1
                after_0 after_1);
        down_0 = subst (λ z. IsRoundedDown lp old z run.results.token_0_amount) same_x down_x;
        down_1 = subst (λ z. IsRoundedDown lp old z run.results.token_1_amount) same_y down_y;
        out_0 = omega (arith, most_0, same_x);
        out_1 = omega (arith, most_1, same_y);
        count = omega (arith, run.supply, left);
      }

  pub withdraw-Redemption :
      (x y : ℕ)
      → SeparateLp ctx
      → Holds spl ctx.pool_state bank x y
      → withdraw spl pda memo_id clock ctx memo bank lp min_0 min_1 ≡ ok s
      → Redemption spl ctx.pool_state s.pool_state s.bank lp x y
  withdraw-Redemption x y sep held h = redemption x y sep held (
      withdraw-Withdrawn spl laws clock ctx pda memo_id memo bank lp min_0 min_1
        (λ e. sep.account_0_vault_0 (sym e)) (λ e. sep.account_1_vault_1 (sym e)) h)
