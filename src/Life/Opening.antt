-- ===== src/Life/Opening.antt =====
-- The life of a pool from its creation by instructions/initialize.rs on.
use solana_dex.Base.{ℕ, ◌*◌, ◌≤◌, ◌<◌, ◌≡◌, ◌≢◌, ok, arith, subst, subst₂}
use solana_dex.States.Pool.{PoolState}
use solana_dex.Token.Interface.{Spl, Clock}
use solana_dex.Token.Laws.{Laws}
use solana_dex.Token.Creation.{Creation, CreationLaws}
use solana_dex.Instructions.Initialize.{Seeds, InitializeAccounts, InitializeOutcome, initialize}
use solana_dex.Instructions.Initialize.Value.{IsSqrt, initialize-Opened}
use solana_dex.Life.{Run}
use solana_dex.Life.Book.{backed_after}
use solana_dex.Life.Refine.{book, AllFair, reserves_of, Run-KeepsWorth}
use solana_dex.Life.Solvency.{IsSolvent, Run-IsSolvent}

module _ {MintData FeeConfig Bank : Type 0} (spl : Spl MintData FeeConfig Bank) (laws : Laws spl)
    (creation : Creation Bank) (issues : CreationLaws spl creation) (integer_sqrt : ℕ → ℕ)
    (sqrt : IsSqrt integer_sqrt) (seeds : Seeds) (clock : Clock) (ctx : InitializeAccounts MintData)
    (bank : Bank) (n₀ n₁ open_time : ℕ) {s : InitializeOutcome Bank} where
  -- What follows for a pool that has just been created.
  pub opened-IsSolvent :
      ctx.creator_token_0 ≢ ctx.token_0_vault
      → ctx.creator_token_1 ≢ ctx.token_1_vault
      → ctx.creator_lp_token ≢ ctx.token_0_vault
      → ctx.creator_lp_token ≢ ctx.token_1_vault
      → spl.supply bank ctx.lp_mint.key ≡ 0
      → initialize spl creation integer_sqrt seeds clock ctx bank n₀ n₁ open_time ≡ ok s
      → IsSolvent spl s.pool_state s.bank
  opened-IsSolvent ne_0 ne_1 lp_0 lp_1 fresh h =
      let opened =
        initialize-Opened spl creation integer_sqrt laws issues seeds clock ctx bank n₀ n₁ open_time
          sqrt ne_0 ne_1 lp_0 lp_1 h in
      record {
        reserve_0 = opened.reserve_0;
        reserve_1 = opened.reserve_1;
        held = opened.held;
        counted = omega (arith, opened.locked, fresh);
      }

  -- Over token programs and account creation that keep their laws, and an integer root that is one:
  -- a pool that initialize creates with a mint of pool tokens of no supply, its vaults not the
  -- creator's accounts, is solvent in every state that steps of Life lead to: the vaults cover the
  -- fees that are set apart, and the pool counts at least the locked tokens more than its mint has
  -- issued.
  pub life-IsSolvent :
      {p : PoolState} {b : Bank}
      → ctx.creator_token_0 ≢ ctx.token_0_vault
      → ctx.creator_token_1 ≢ ctx.token_1_vault
      → ctx.creator_lp_token ≢ ctx.token_0_vault
      → ctx.creator_lp_token ≢ ctx.token_1_vault
      → spl.supply bank ctx.lp_mint.key ≡ 0
      → initialize spl creation integer_sqrt seeds clock ctx bank n₀ n₁ open_time ≡ ok s
      → Run spl s.pool_state s.bank p b
      → IsSolvent spl p b
  life-IsSolvent ne_0 ne_1 lp_0 lp_1 fresh h run =
      Run-IsSolvent spl laws run (opened-IsSolvent ne_0 ne_1 lp_0 lp_1 fresh h)

  -- Over token programs and account creation that keep their laws, and an integer root that is one:
  -- for a pool that initialize creates with a mint of pool tokens of no supply, its vaults not the
  -- creator's accounts, and after steps of Life of which every deposit is of pool tokens that are
  -- worth at least one unit of each reserve, the count of the pool tokens is at most the geometric
  -- mean of the two reserves.
  pub life-backed :
      {p : PoolState} {b : Bank}
      → ctx.creator_token_0 ≢ ctx.token_0_vault
      → ctx.creator_token_1 ≢ ctx.token_1_vault
      → ctx.creator_lp_token ≢ ctx.token_0_vault
      → ctx.creator_lp_token ≢ ctx.token_1_vault
      → spl.supply bank ctx.lp_mint.key ≡ 0
      → initialize spl creation integer_sqrt seeds clock ctx bank n₀ n₁ open_time ≡ ok s
      → (run : Run spl s.pool_state s.bank p b) → AllFair spl run
      → p.lp_supply * p.lp_supply ≤ (book spl p b).reserve_0 * (book spl p b).reserve_1
  life-backed {p} {b} ne_0 ne_1 lp_0 lp_1 fresh h run fair =
      let opened =
        initialize-Opened spl creation integer_sqrt laws issues seeds clock ctx bank n₀ n₁ open_time
          sqrt ne_0 ne_1 lp_0 lp_1 h in
      let (e₀, e₁) = reserves_of spl s.pool_state s.bank _ _ opened.held in
      backed_after (book spl s.pool_state s.bank) (book spl p b)
        (subst (λ z. 0 < z) e₀ opened.opened.positive_0)
        (subst (λ z. 0 < z) e₁ opened.opened.positive_1)
        (subst₂ (λ x y. s.pool_state.lp_supply * s.pool_state.lp_supply ≤ x * y) e₀ e₁
          opened.opened.root_below)
        (Run-KeepsWorth spl laws run fair (opened-IsSolvent ne_0 ne_1 lp_0 lp_1 fresh h))
