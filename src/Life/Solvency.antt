-- ===== src/Life/Solvency.antt =====
-- Solvency in every reachable state of a pool.
use solana_dex.Base.{
  ℕ, ◌+◌, ◌-◌, ◌≤◌, ◌≡◌, ok, arith, sym, subst, refl, anchor, constraint_address,
  require_gte_violated, require_gte, guard, >>-elim, ok-injective, ◌==◌,
}
use solana_dex.Keys.{Pubkey, admin}
use solana_dex.States.Config.{IsValid}
use solana_dex.States.Pool.{PoolState, set_status}
use solana_dex.States.Pool.Reserves.{fees_0, fees_1}
use solana_dex.Token.Interface.{Spl, Clock}
use solana_dex.Token.Laws.{Laws}
use solana_dex.Instructions.Reserves.{Holds}
use solana_dex.Instructions.Swap.{SwapAccounts, SwapOutcome}
use solana_dex.Instructions.Swap.BaseInput.{swap_base_input}
use solana_dex.Instructions.Swap.BaseOutput.{swap_base_output}
use solana_dex.Instructions.Swap.Settlement.{Separate}
use solana_dex.Instructions.Swap.InputValue.{swap_base_input_keeps_value, swap_base_input_supply}
use solana_dex.Instructions.Swap.OutputValue.{swap_base_output_keeps_value, swap_base_output_supply}
use solana_dex.Instructions.Liquidity.{LpAccounts, LpOutcome}
use solana_dex.Instructions.Liquidity.Accounts.{SeparateLp, SeparateOwner}
use solana_dex.Instructions.Liquidity.Deposit.{deposit}
use solana_dex.Instructions.Liquidity.DepositValue.{deposit_mint, deposit_issues}
use solana_dex.Instructions.Liquidity.DepositReserves.{deposit-Funding}
use solana_dex.Instructions.Liquidity.Withdraw.{withdraw}
use solana_dex.Instructions.Liquidity.WithdrawValue.{
  withdraw_keeps_value, withdraw_mint, withdraw_limits,
}
use solana_dex.Instructions.Admin.{update_pool_status}
use solana_dex.Instructions.Admin.Collect.{CollectAccounts, CollectOutcome}
use solana_dex.Instructions.Admin.CollectValue.{
  Collected, collect_protocol_fee_pays, collect_fund_fee_pays,
}
use solana_dex.Life.{Step, Run}

module _ {MintData FeeConfig Bank : Type 0} (spl : Spl MintData FeeConfig Bank) where
  -- The vaults cover the fees that are set apart, and the pool counts at least the locked tokens
  -- more than the mint of its pool tokens has issued.
  pub record IsSolvent (p : PoolState) (b : Bank) : Type 0 where
    pub reserve_0 : ℕ
    pub reserve_1 : ℕ
    pub held : Holds spl p b reserve_0 reserve_1
    pub counted : spl.supply b p.lp_mint + 100 ≤ p.lp_supply

  outside-IsSolvent :
      (p : PoolState) (b b' : Bank)
      → spl.amount b p.token_0_vault ≤ spl.amount b' p.token_0_vault
      → spl.amount b p.token_1_vault ≤ spl.amount b' p.token_1_vault
      → spl.supply b' p.lp_mint ≤ spl.supply b p.lp_mint
      → IsSolvent p b
      → IsSolvent p b'
  outside-IsSolvent p b b' h₀ h₁ hs v = record {
    reserve_0 = spl.amount b' p.token_0_vault - fees_0 p;
    reserve_1 = spl.amount b' p.token_1_vault - fees_1 p;
    held = record {
      vault_0 = omega (arith, v.held.vault_0);
      vault_1 = omega (arith, v.held.vault_1);
    };
    counted = omega (arith, v.counted);
  }

  status-IsSolvent :
      (k : Pubkey) (p p' : PoolState) (b : Bank) (n : ℕ)
      → update_pool_status k p n ≡ ok p'
      → IsSolvent p b
      → IsSolvent p' b
  unfolding update_pool_status set_status
  status-IsSolvent k p p' b n h v =
      >>-elim (guard (k == admin) (anchor constraint_address)) _ h λ _ h.
        >>-elim (require_gte 255 n (anchor require_gte_violated)) _ h λ _ h.
          subst (λ q. IsSolvent q b) (ok-injective h)
            (record {
              reserve_0 = v.reserve_0;
              reserve_1 = v.reserve_1;
              held = record { vault_0 = v.held.vault_0; vault_1 = v.held.vault_1 };
              counted = v.counted;
            })

  -- Where the count of the pool tokens moves with the supply of their mint.
  counted_with :
      {p p' : PoolState} {b b' : Bank} (x y : ℕ)
      → Holds spl p' b' x y
      → spl.supply b' p'.lp_mint + p.lp_supply ≡ spl.supply b p.lp_mint + p'.lp_supply
      → IsSolvent p b
      → IsSolvent p' b'
  counted_with x y held e v = record {
    reserve_0 = x;
    reserve_1 = y;
    held = held;
    counted = omega (arith, v.counted);
  }

  module _ (laws : Laws spl) where
    lp-IsSolvent :
        {p p' : PoolState} {b b' : Bank} (m : Pubkey) (x y : ℕ)
        → Holds spl p' b' x y
        → m ≡ p.lp_mint
        → p'.lp_mint ≡ p.lp_mint
        → spl.supply b' m + p.lp_supply ≡ spl.supply b m + p'.lp_supply
        → IsSolvent p b
        → IsSolvent p' b'
    lp-IsSolvent {p} {p'} {b} {b'} m x y held same kept e v =
        counted_with x y held
          (subst (λ k. spl.supply b' k + p.lp_supply ≡ spl.supply b p.lp_mint + p'.lp_supply)
            (sym kept)
            (subst (λ k. spl.supply b' k + p.lp_supply ≡ spl.supply b k + p'.lp_supply) same e))
          v

    input-IsSolvent :
        (pda : Pubkey) (clock : Clock) (ctx : SwapAccounts MintData) (bank : Bank) (n m : ℕ)
        {s : SwapOutcome Bank}
        → Separate ctx
        → IsValid ctx.amm_config
        → swap_base_input spl pda clock ctx bank n m ≡ ok s
        → IsSolvent ctx.pool_state bank
        → IsSolvent s.pool_state s.bank
    input-IsSolvent pda clock ctx bank n m sep valid h v =
        let (_, _, x, _) =
          swap_base_input_keeps_value spl laws pda clock ctx bank n m sep valid h in
        let (supply, count) = swap_base_input_supply spl laws pda clock ctx bank n m sep h in
        counted_with x.x₁ x.y₁ x.after (omega (arith, supply, count)) v

    output-IsSolvent :
        (pda : Pubkey) (clock : Clock) (ctx : SwapAccounts MintData) (bank : Bank) (n m : ℕ)
        {s : SwapOutcome Bank}
        → Separate ctx
        → IsValid ctx.amm_config
        → swap_base_output spl pda clock ctx bank n m ≡ ok s
        → IsSolvent ctx.pool_state bank
        → IsSolvent s.pool_state s.bank
    output-IsSolvent pda clock ctx bank n m sep valid h v =
        let (_, _, x, _) =
          swap_base_output_keeps_value spl laws pda clock ctx bank n m sep valid h in
        let (supply, count) = swap_base_output_supply spl laws pda clock ctx bank n m sep h in
        counted_with x.x₁ x.y₁ x.after (omega (arith, supply, count)) v

    deposit-IsSolvent :
        (pda : Pubkey) (clock : Clock) (ctx : LpAccounts MintData) (bank : Bank) (lp m₀ m₁ : ℕ)
        {s : LpOutcome Bank}
        → SeparateLp ctx
        → SeparateOwner ctx
        → deposit spl pda clock ctx bank lp m₀ m₁ ≡ ok s
        → IsSolvent ctx.pool_state bank
        → IsSolvent s.pool_state s.bank
    deposit-IsSolvent pda clock ctx bank lp m₀ m₁ sep own h v =
        let f =
          deposit-Funding spl laws pda clock ctx bank lp m₀ m₁ v.reserve_0 v.reserve_1 sep v.held
            h in
        let (same, kept) = deposit_mint spl laws pda clock ctx bank lp m₀ m₁ sep h in
        let (count, supply, _) = deposit_issues spl laws pda clock ctx bank lp m₀ m₁ sep own h in
        lp-IsSolvent ctx.lp_mint f.x' f.y' f.held same kept (omega (arith, count, supply)) v

    withdraw-IsSolvent :
        (pda memo_id : Pubkey) (clock : Clock) (ctx : LpAccounts MintData) (memo : Pubkey)
        (bank : Bank) (lp m₀ m₁ : ℕ) {s : LpOutcome Bank}
        → SeparateLp ctx
        → SeparateOwner ctx
        → withdraw spl pda memo_id clock ctx memo bank lp m₀ m₁ ≡ ok s
        → IsSolvent ctx.pool_state bank
        → IsSolvent s.pool_state s.bank
    withdraw-IsSolvent pda memo_id clock ctx memo bank lp m₀ m₁ sep own h v =
        let (x, y, held, _, _, count) =
          withdraw_keeps_value spl laws pda memo_id clock ctx memo bank lp m₀ m₁ v.reserve_0
            v.reserve_1 sep v.held h in
        let (same, kept) = withdraw_mint spl laws pda memo_id clock ctx memo bank lp m₀ m₁ sep h in
        let (_, supply, _, _) =
          withdraw_limits spl laws pda memo_id clock ctx memo bank lp m₀ m₁ sep own h in
        lp-IsSolvent ctx.lp_mint x y held same kept (omega (arith, count, supply)) v

    Collected-IsSolvent :
        (pda : Pubkey) (clock : Clock) (ctx : CollectAccounts MintData) (bank : Bank) (who : Pubkey)
        (r₀ r₁ o₀ o₁ x y : ℕ) {s : CollectOutcome Bank}
        → Collected spl laws pda clock ctx bank who r₀ r₁ o₀ o₁ x y s
        → IsSolvent ctx.pool_state bank
        → IsSolvent s.pool_state s.bank
    Collected-IsSolvent pda clock ctx bank who r₀ r₁ o₀ o₁ x y c v =
        lp-IsSolvent ctx.pool_state.lp_mint x y c.held refl c.lp_mint
          (omega (arith, c.lp_supply, c.supply ctx.pool_state.lp_mint)) v

    pub Step-IsSolvent :
        {p p' : PoolState} {b b' : Bank} → Step spl p b p' b' → IsSolvent p b → IsSolvent p' b'
    Step-IsSolvent (Step.swapped_input pda clock ctx bank n m s sep valid h) v =
        input-IsSolvent pda clock ctx bank n m sep valid h v
    Step-IsSolvent (Step.swapped_output pda clock ctx bank n m s sep valid h) v =
        output-IsSolvent pda clock ctx bank n m sep valid h v
    Step-IsSolvent (Step.deposited pda clock ctx bank lp m₀ m₁ s sep own h) v =
        deposit-IsSolvent pda clock ctx bank lp m₀ m₁ sep own h v
    Step-IsSolvent (Step.withdrew pda memo_id clock ctx memo bank lp m₀ m₁ s sep own h) v =
        withdraw-IsSolvent pda memo_id clock ctx memo bank lp m₀ m₁ sep own h v
    Step-IsSolvent (Step.collected_protocol pda clock ctx bank n m s sep h) v =
        Collected-IsSolvent pda clock ctx bank _ n m _ _ v.reserve_0 v.reserve_1
          (collect_protocol_fee_pays spl laws pda clock ctx bank n m v.reserve_0 v.reserve_1 sep
            v.held h)
          v
    Step-IsSolvent (Step.collected_fund pda clock ctx bank n m s sep h) v =
        Collected-IsSolvent pda clock ctx bank _ n m _ _ v.reserve_0 v.reserve_1
          (collect_fund_fee_pays spl laws pda clock ctx bank n m v.reserve_0 v.reserve_1 sep v.held
            h)
          v
    Step-IsSolvent (Step.status_set k p p' bank n h) v = status-IsSolvent k p p' bank n h v
    Step-IsSolvent (Step.outside p b b' h₀ h₁ hs) v = outside-IsSolvent p b b' h₀ h₁ hs v

    -- Over token programs that keep the laws of Token/Laws: a pool that is solvent stays so through
    -- any run of steps of Life. These are the swaps, deposits, withdrawals and fee collections that
    -- succeed, each with vaults that differ from one another and from the other token accounts that
    -- are named, the three accounts of a provider different from one another too, and the
    -- configuration of a swap with its rates in their bounds; the status changes that succeed; and
    -- changes of the bank by others that take nothing from the vaults and issue no pool tokens.
    pub Run-IsSolvent :
        {p p' : PoolState} {b b' : Bank} → Run spl p b p' b' → IsSolvent p b → IsSolvent p' b'
    Run-IsSolvent (Run.stop p b) v = v
    Run-IsSolvent (Run.more step rest) v = Run-IsSolvent rest (Step-IsSolvent step v)
