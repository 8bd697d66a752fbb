-- ===== src/Market/Solvency.antt =====
-- Every pool of the market stays solvent, from a market without pools on.
use solana_dex.Base.{
  ℕ, ◌≡◌, ◌≢◌, none, some, ok, arith, ok-injective, some-injective, subst, inl, inr, false, ◌==◌,
  if-cases, >>=-elim,
}
use solana_dex.Keys.{Pubkey}
use solana_dex.States.Pool.{PoolState}
use solana_dex.Token.Interface.{Spl, Clock}
use solana_dex.Token.Laws.{Laws}
use solana_dex.Token.Creation.{Creation, CreationLaws}
use solana_dex.Instructions.Initialize.{Seeds, InitializeAccounts, InitializeOutcome, initialize}
use solana_dex.Instructions.Initialize.Value.{IsSqrt}
use solana_dex.Program.{Instruction, Effect, created, process}
use solana_dex.Program.Foreign.{IsSeparate, bank_after}
use solana_dex.Program.Kept.{Kept}
use solana_dex.Program.Frame.{process-Kept}
use solana_dex.Life.{Step}
use solana_dex.Life.Solvency.{IsSolvent, Step-IsSolvent}
use solana_dex.Life.Opening.{opened-IsSolvent}
use solana_dex.Market.{Pools, set_pool, pool_after, Spares, Advance, Trace}
use solana_dex.Market.Steps.{process-Step}

unequal : (j id : Pubkey) → (j == id) ≡ false → j ≢ id
unequal j id h = ground arith

created_injective : {Bank : Type 0} {s t : InitializeOutcome Bank} → created s ≡ created t → s ≡ t
created_injective h = cc

module _ {MintData FeeConfig Bank : Type 0} (spl : Spl MintData FeeConfig Bank)
    (laws : Laws spl) where
  pub AllSolvent : Pools → Bank → Type 0
  AllSolvent pools bank = (j : Pubkey) (q : PoolState) → pools j ≡ some q → IsSolvent spl q bank

  others-IsSolvent :
      (q : PoolState) (b b' : Bank)
      → Kept spl laws q.token_0_vault q.lp_mint b b'
      → Kept spl laws q.token_1_vault q.lp_mint b b'
      → IsSolvent spl q b
      → IsSolvent spl q b'
  others-IsSolvent q b b' k₀ k₁ v =
      Step-IsSolvent spl laws
        (Step.outside q b b' (omega (arith, k₀.balance)) (omega (arith, k₁.balance))
          (omega (arith, k₀.supply)))
        v

  -- A pool at `id`, and the others at the bank that is left.
  set-AllSolvent :
      (pools : Pools) (id : Pubkey) (p : PoolState) (b : Bank)
      → IsSolvent spl p b
      → ((j : Pubkey) (q : PoolState) → j ≢ id → pools j ≡ some q → IsSolvent spl q b)
      → AllSolvent (set_pool pools id p) b
  unfolding AllSolvent
  set-AllSolvent pools id p b own others j q h = elim (if-cases (j == id) _ _ h) [
    | inl (_, e) ↦ subst (λ q. IsSolvent spl q b) (some-injective e) own
    | inr (away, e) ↦ others j q (unequal j id away) e
  ]

  module _ (creation : Creation Bank) (issues : CreationLaws spl creation) (integer_sqrt : ℕ → ℕ)
      (sqrt : IsSqrt integer_sqrt) (seeds : Seeds) (memo_id : Pubkey) where
    spared-IsSolvent :
        (clock : Clock) (bank : Bank) (i : Instruction MintData) (e : Effect Bank) (q : PoolState)
        → IsSeparate i
        → Spares q i
        → process spl creation integer_sqrt seeds memo_id clock bank i ≡ ok e
        → IsSolvent spl q bank
        → IsSolvent spl q (bank_after bank e)
    spared-IsSolvent clock bank i e q sep (away_0, away_1) h v =
        others-IsSolvent q bank (bank_after bank e)
          (process-Kept seeds spl laws creation issues integer_sqrt memo_id clock bank
            q.token_0_vault q.lp_mint i sep away_0 h)
          (process-Kept seeds spl laws creation issues integer_sqrt memo_id clock bank
            q.token_1_vault q.lp_mint i sep away_1 h)
          v

    created-initialize :
        (clock : Clock) (bank : Bank) (ctx : InitializeAccounts MintData) (n₀ n₁ open_time : ℕ)
        {s : InitializeOutcome Bank}
        → process spl creation integer_sqrt seeds memo_id clock bank
            (Instruction.initialize ctx n₀ n₁ open_time)
          ≡ ok (created s)
        → initialize spl creation integer_sqrt seeds clock ctx bank n₀ n₁ open_time ≡ ok s
    unfolding process
    created-initialize clock bank ctx n₀ n₁ open_time h =
        >>=-elim (initialize spl creation integer_sqrt seeds clock ctx bank n₀ n₁ open_time) _ h
          λ t h e.
            subst
              (λ s.
                initialize spl creation integer_sqrt seeds clock ctx bank n₀ n₁ open_time ≡ ok s)
              (created_injective (ok-injective e)) h

    Advance-AllSolvent :
        {pools pools' : Pools} {bank bank' : Bank}
        → Advance spl creation integer_sqrt seeds memo_id pools bank pools' bank'
        → AllSolvent pools bank
        → AllSolvent pools' bank'
    unfolding AllSolvent
    Advance-AllSolvent {pools} {bank = bank}
          (Advance.acted clock i e id p at about sep proper spared h) all =
        set-AllSolvent pools id (pool_after p e) (bank_after bank e)
          (Step-IsSolvent spl laws
            (process-Step spl creation integer_sqrt seeds memo_id clock bank i about sep proper h)
            (all id p at))
          (λ j q ne has. spared-IsSolvent clock bank i e q sep (spared j q ne has) h (all j q has))
    Advance-AllSolvent {pools} {bank = bank}
          (Advance.opened clock ctx n₀ n₁ open_time s sep lp_0 lp_1 fresh spared h) all =
        set-AllSolvent pools ctx.pool_id s.pool_state s.bank
          (opened-IsSolvent spl laws creation issues integer_sqrt sqrt seeds clock ctx bank n₀ n₁
            open_time sep.0 sep.1 lp_0 lp_1 fresh
            (created-initialize clock bank ctx n₀ n₁ open_time h))
          (λ j q ne has.
            spared-IsSolvent clock bank (Instruction.initialize ctx n₀ n₁ open_time) (created s) q
              sep (spared j q has) h (all j q has))
    Advance-AllSolvent (Advance.configuring clock i h) all = all
    Advance-AllSolvent {bank = bank} (Advance.elsewhere bank' spared) all = λ j q has.
        let (kept_0, kept_1, issued) = spared j q has in
        Step-IsSolvent spl laws (Step.outside q bank bank' kept_0 kept_1 issued) (all j q has)

    Trace-AllSolvent :
        {pools pools' : Pools} {bank bank' : Bank}
        → Trace spl creation integer_sqrt seeds memo_id pools bank pools' bank'
        → AllSolvent pools bank
        → AllSolvent pools' bank'
    Trace-AllSolvent (Trace.start pools bank) all = all
    Trace-AllSolvent (Trace.next step rest) all =
        Trace-AllSolvent rest (Advance-AllSolvent step all)

    -- Over token programs and account creation that keep their laws, and an integer root that is
    -- one: in every state that steps of Market lead to from a market without pools, every pool is
    -- solvent: its vaults cover the fees that it sets apart, and it counts at least the locked
    -- tokens more than its mint has issued. The steps are the instructions that succeed, where the
    -- vaults differ from one another and from the other token accounts that are named, the three
    -- accounts of a provider differ, the configuration of a swap has its rates in their bounds, a
    -- new pool's mint has issued nothing, and no vault or mint of another pool is named; and
    -- changes of the bank by others that take nothing from the vaults and issue no pool tokens.
    pub market-IsSolvent :
        {pools : Pools} {bank bank' : Bank} (j : Pubkey) (q : PoolState)
        → Trace spl creation integer_sqrt seeds memo_id (λ _. none) bank pools bank'
        → pools j ≡ some q
        → IsSolvent spl q bank'
    unfolding AllSolvent
    market-IsSolvent j q trace = Trace-AllSolvent trace (λ j q h. cc) j q
