-- ===== src/Life/Refine.antt =====
-- The steps of a pool's life as moves of the book that its pool tokens are shares in.
use solana_dex.Base.{
  ℕ, ◌-◌, ◌≤◌, ◌≡◌, ok, arith, subst, refl, anchor, constraint_address, require_gte_violated,
  require_gte, guard, >>-elim, ok-injective, ◌==◌,
}
use solana_dex.Keys.{Pubkey, admin}
use solana_dex.States.Pool.{PoolState, set_status}
use solana_dex.States.Pool.Reserves.{fees_0, fees_1}
use solana_dex.Token.Interface.{Spl, Clock}
use solana_dex.Token.Laws.{Laws}
use solana_dex.Instructions.Reserves.{Holds, Exchanged}
use solana_dex.Instructions.Swap.InputValue.{swap_base_input_keeps_value, swap_base_input_supply}
use solana_dex.Instructions.Swap.OutputValue.{swap_base_output_keeps_value, swap_base_output_supply}
use solana_dex.Instructions.Liquidity.DepositReserves.{Funding, deposit-Funding}
use solana_dex.Instructions.Liquidity.WithdrawReserves.{Redemption, withdraw-Redemption}
use solana_dex.Instructions.Admin.{update_pool_status}
use solana_dex.Instructions.Admin.Collect.{CollectAccounts, CollectOutcome}
use solana_dex.Instructions.Admin.CollectValue.{
  Collected, collect_protocol_fee_pays, collect_fund_fee_pays,
}
use solana_dex.Life.{Step, Run}
use solana_dex.Life.Solvency.{IsSolvent, Step-IsSolvent}
use solana_dex.Life.Book.{
  Book, Action, trade, fund, redeem, gift, keep, Move, IsPaid, KeepsWorth, KeepsWorth-refl,
  KeepsWorth-trans, Move-KeepsWorth,
}

module _ {MintData FeeConfig Bank : Type 0} (spl : Spl MintData FeeConfig Bank) where
  -- The book of a pool: the vaults less the fees that are set apart, and the count of pool tokens.
  abbrev pub book : PoolState → Bank → Book
  book p b = record {
    reserve_0 = spl.amount b p.token_0_vault - fees_0 p;
    reserve_1 = spl.amount b p.token_1_vault - fees_1 p;
    shares = p.lp_supply;
  }

  -- What a step does to the book.
  abbrev pub action_of : {p p' : PoolState} {b b' : Bank} → Step spl p b p' b' → Action
  action_of (Step.swapped_input pda clock ctx bank n m s sep valid h) = trade
  action_of (Step.swapped_output pda clock ctx bank n m s sep valid h) = trade
  action_of (Step.deposited pda clock ctx bank lp m₀ m₁ s sep own h) = fund lp
  action_of (Step.withdrew pda memo_id clock ctx memo bank lp m₀ m₁ s sep own h) = redeem lp
  action_of (Step.collected_protocol pda clock ctx bank n m s sep h) = keep
  action_of (Step.collected_fund pda clock ctx bank n m s sep h) = keep
  action_of (Step.status_set k p p' bank n h) = keep
  action_of (Step.outside p b b' h₀ h₁ hs) = gift

  -- Every step of a run moves the book of its pool as its action may.
  abbrev pub Follows : {p p' : PoolState} {b b' : Bank} → Run spl p b p' b' → Type 0
  Follows (Run.stop p b) = Unit {0}
  Follows (Run.more {p} {p'} {p''} {b} {b'} {b''} step rest) =
      Move (action_of step) (book p b) (book p' b') × Follows rest

  -- A deposit of pool tokens that are worth at least one unit of each reserve, and any other step.
  abbrev pub IsFair : {p p' : PoolState} {b b' : Bank} → Step spl p b p' b' → Type 0
  IsFair {p} {b = b} step = IsPaid (action_of step) (book p b)

  abbrev pub AllFair : {p p' : PoolState} {b b' : Bank} → Run spl p b p' b' → Type 0
  AllFair (Run.stop p b) = Unit {0}
  AllFair (Run.more step rest) = IsFair step × AllFair rest

  -- The reserves that the vaults hold are the book's.
  pub reserves_of :
      (p : PoolState) (b : Bank) (x y : ℕ)
      → Holds spl p b x y
      → (x ≡ (book p b).reserve_0) × (y ≡ (book p b).reserve_1)
  reserves_of p b x y v = (omega (arith, v.vault_0), omega (arith, v.vault_1))

  book-Holds :
      (p : PoolState) (b : Bank)
      → IsSolvent spl p b
      → Holds spl p b (book p b).reserve_0 (book p b).reserve_1
  book-Holds p b v = record {
    vault_0 = omega (arith, v.held.vault_0);
    vault_1 = omega (arith, v.held.vault_1);
  }

  exchange_refines :
      (p p' : PoolState) (b b' : Bank) (k k' : ℕ)
      → Exchanged spl p p' b b' k k'
      → k ≤ k'
      → p'.lp_supply ≡ p.lp_supply
      → Move trade (book p b) (book p' b')
  exchange_refines p p' b b' k k' x h e =
      let (x₀, y₀) = reserves_of p b x.x₀ x.y₀ x.before in
      let (x₁, y₁) = reserves_of p' b' x.x₁ x.y₁ x.after in
      record {
        product = rw (← x₀, ← y₀, ← x₁, ← y₁, x.product_before, x.product_after) h;
        one_way = rw (← x₀, ← y₀, ← x₁, ← y₁) x.one_way;
        count = e;
      }

  same_reserves :
      (p p' : PoolState) (b b' : Bank)
      → Holds spl p' b' (book p b).reserve_0 (book p b).reserve_1
      → p'.lp_supply ≡ p.lp_supply
      → Move keep (book p b) (book p' b')
  same_reserves p p' b b' v e = record {
    reserve_0 = omega (arith, v.vault_0);
    reserve_1 = omega (arith, v.vault_1);
    count = e;
  }

  funding_refines :
      (p p' : PoolState) (b b' : Bank) (lp : ℕ)
      → Funding spl p p' b' lp (book p b).reserve_0 (book p b).reserve_1
      → Move (fund lp) (book p b) (book p' b')
  funding_refines p p' b b' lp f =
      let (x₁, y₁) = reserves_of p' b' f.x' f.y' f.held in
      record {
        cost_0 = f.cost_0;
        cost_1 = f.cost_1;
        up_0 = f.up_0;
        up_1 = f.up_1;
        in_0 = omega (arith, f.in_0, x₁);
        in_1 = omega (arith, f.in_1, y₁);
        count = f.count;
      }

  redemption_refines :
      (p p' : PoolState) (b b' : Bank) (lp : ℕ)
      → Redemption spl p p' b' lp (book p b).reserve_0 (book p b).reserve_1
      → Move (redeem lp) (book p b) (book p' b')
  redemption_refines p p' b b' lp r =
      let (x₁, y₁) = reserves_of p' b' r.x' r.y' r.held in
      record {
        paid_0 = r.paid_0;
        paid_1 = r.paid_1;
        down_0 = r.down_0;
        down_1 = r.down_1;
        out_0 = omega (arith, r.out_0, x₁);
        out_1 = omega (arith, r.out_1, y₁);
        count = r.count;
      }

  module _ (laws : Laws spl) where
    collection_refines :
        (pda : Pubkey) (clock : Clock) (ctx : CollectAccounts MintData) (bank : Bank) (who : Pubkey)
        (r₀ r₁ o₀ o₁ : ℕ) {s : CollectOutcome Bank}
        → Collected spl laws pda clock ctx bank who r₀ r₁ o₀ o₁
            (book ctx.pool_state bank).reserve_0
            (book ctx.pool_state bank).reserve_1
            s
        → Move keep (book ctx.pool_state bank) (book s.pool_state s.bank)
    collection_refines pda clock ctx bank who r₀ r₁ o₀ o₁ {s} c =
        same_reserves ctx.pool_state s.pool_state bank s.bank c.held c.lp_supply

    status_refines :
        (k : Pubkey) (p p' : PoolState) (b : Bank) (n : ℕ)
        → update_pool_status k p n ≡ ok p'
        → Move keep (book p b) (book p' b)
    unfolding update_pool_status set_status
    status_refines k p p' b n h =
        >>-elim (guard (k == admin) (anchor constraint_address)) _ h λ _ h.
          >>-elim (require_gte 255 n (anchor require_gte_violated)) _ h λ _ h.
            subst (λ q. Move keep (book p b) (book q b)) (ok-injective h)
              (record { reserve_0 = refl; reserve_1 = refl; count = refl })

    -- The move that a step of a solvent pool makes.
    pub Step-refines :
        {p p' : PoolState} {b b' : Bank}
        → (step : Step spl p b p' b') → IsSolvent spl p b
        → Move (action_of step) (book p b) (book p' b')
    Step-refines (Step.swapped_input pda clock ctx bank n m s sep valid h) v =
        let (k, k', x, grows) =
          swap_base_input_keeps_value spl laws pda clock ctx bank n m sep valid h in
        let (_, count) = swap_base_input_supply spl laws pda clock ctx bank n m sep h in
        exchange_refines ctx.pool_state s.pool_state bank s.bank k k' x grows count
    Step-refines (Step.swapped_output pda clock ctx bank n m s sep valid h) v =
        let (k, k', x, grows) =
          swap_base_output_keeps_value spl laws pda clock ctx bank n m sep valid h in
        let (_, count) = swap_base_output_supply spl laws pda clock ctx bank n m sep h in
        exchange_refines ctx.pool_state s.pool_state bank s.bank k k' x grows count
    Step-refines (Step.deposited pda clock ctx bank lp m₀ m₁ s sep own h) v =
        funding_refines ctx.pool_state s.pool_state bank s.bank lp (
          deposit-Funding spl laws pda clock ctx bank lp m₀ m₁ _ _ sep
            (book-Holds ctx.pool_state bank v) h)
    Step-refines (Step.withdrew pda memo_id clock ctx memo bank lp m₀ m₁ s sep own h) v =
        redemption_refines ctx.pool_state s.pool_state bank s.bank lp (
          withdraw-Redemption spl laws pda memo_id clock ctx memo bank lp m₀ m₁ _ _ sep
            (book-Holds ctx.pool_state bank v) h)
    Step-refines (Step.collected_protocol pda clock ctx bank n m s sep h) v =
        collection_refines pda clock ctx bank _ n m _ _ (
          collect_protocol_fee_pays spl laws pda clock ctx bank n m _ _ sep
            (book-Holds ctx.pool_state bank v) h)
    Step-refines (Step.collected_fund pda clock ctx bank n m s sep h) v =
        collection_refines pda clock ctx bank _ n m _ _ (
          collect_fund_fee_pays spl laws pda clock ctx bank n m _ _ sep
            (book-Holds ctx.pool_state bank v) h)
    Step-refines (Step.status_set k p p' bank n h) v = status_refines k p p' bank n h
    Step-refines (Step.outside p b b' h₀ h₁ hs) v = record {
      in_0 = omega (arith, h₀);
      in_1 = omega (arith, h₁);
      count = refl;
    }

    -- Over token programs that keep the laws of Token/Laws: from a pool that is solvent, every step
    -- of a run of steps of Life, where the vaults differ from one another and from the other token
    -- accounts that are named, the three accounts of a provider differ, and the configuration of a
    -- swap has its rates in their bounds, moves the book of the pool, its reserves beyond the fees
    -- that are set apart and its count of pool tokens, as the action of that step may. A swap
    -- raises at most one of the reserves and lowers at most the other, does not lower their
    -- product, and leaves the count; a deposit of n pool tokens adds n to the count and to each
    -- reserve at least its part rounded up, or nothing where that is below one unit; a withdrawal
    -- of n takes n from the count and from each reserve exactly its part rounded down; a collection
    -- of fees or a change of status leaves the book as it is; and what others send only raises the
    -- reserves.
    pub Run-refines :
        {p p' : PoolState} {b b' : Bank}
        → (run : Run spl p b p' b') → IsSolvent spl p b
        → Follows run
    Run-refines (Run.stop p b) v = tt
    Run-refines (Run.more step rest) v =
        (Step-refines step v, Run-refines rest (Step-IsSolvent spl laws step v))

    Step-KeepsWorth :
        {p p' : PoolState} {b b' : Bank}
        → (step : Step spl p b p' b') → IsFair step
        → IsSolvent spl p b
        → KeepsWorth (book p b) (book p' b')
    Step-KeepsWorth {p} {p'} {b} {b'} step fair v =
        Move-KeepsWorth (action_of step) (book p b) (book p' b') (Step-refines step v) fair

    -- Over token programs that keep the laws of Token/Laws: from a pool that is solvent, a run of
    -- steps of Life of which every deposit is of pool tokens that are worth at least one unit of
    -- each reserve does not lower the product of the reserves per square of the pool tokens.
    pub Run-KeepsWorth :
        {p p' : PoolState} {b b' : Bank}
        → (run : Run spl p b p' b') → AllFair run
        → IsSolvent spl p b
        → KeepsWorth (book p b) (book p' b')
    Run-KeepsWorth (Run.stop p b) _ v = KeepsWorth-refl (book p b)
    Run-KeepsWorth (Run.more {p} {p'} {p''} {b} {b'} {b''} step rest) (fair, fairs) v =
        let v' = Step-IsSolvent spl laws step v in
        KeepsWorth-trans (book p b) (book p' b') (book p'' b'') (omega (arith, v'.counted))
          (Step-KeepsWorth step fair v) (Run-KeepsWorth rest fairs v')
