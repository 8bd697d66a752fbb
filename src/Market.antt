-- ===== src/Market.antt =====
-- The pools of the program side by side: which sequences of the instructions of
-- programs/cp-swap/src/lib.rs lead from one state of all pools and of the bank to another.
pub mod Steps
pub mod Solvency
pub mod Pausing
use solana_dex.Base.{ℕ, ◌≤◌, ◌≡◌, ◌≢◌, Option, none, some, ok, ◌==◌, if◌then◌else◌}
use solana_dex.Keys.{Pubkey}
use solana_dex.States.Config.{IsValid}
use solana_dex.States.Pool.{PoolState}
use solana_dex.Token.Interface.{Spl, Clock}
use solana_dex.Token.Creation.{Creation}
use solana_dex.Instructions.Liquidity.Accounts.{SeparateOwner}
use solana_dex.Instructions.Initialize.{Seeds, InitializeAccounts, InitializeOutcome}
use solana_dex.Program.{
  Instruction, Effect, configured, status_set, collected, created, liquidity_changed, swapped,
  process,
}
use solana_dex.Program.Foreign.{IsSeparate, IsForeign, bank_after}

-- The pool that an instruction is about.
abbrev pub pool_of : {MintData : Type 0} → Instruction MintData → Option PoolState
pool_of (Instruction.create_amm_config owner account bump index trade protocol fund) = none
pool_of (Instruction.update_amm_config owner config keys param value) = none
pool_of (Instruction.update_pool_status authority pool status) = some pool
pool_of (Instruction.collect_protocol_fee ctx n m) = some ctx.pool_state
pool_of (Instruction.collect_fund_fee ctx n m) = some ctx.pool_state
pool_of (Instruction.initialize ctx n m open_time) = none
pool_of (Instruction.deposit ctx lp n m) = some ctx.pool_state
pool_of (Instruction.withdraw ctx memo lp n m) = some ctx.pool_state
pool_of (Instruction.swap_base_input ctx n m) = some ctx.pool_state
pool_of (Instruction.swap_base_output ctx n m) = some ctx.pool_state

-- What an instruction leaves of the pool `p` that it is about.
abbrev pub pool_after : {Bank : Type 0} → PoolState → Effect Bank → PoolState
pool_after p (configured c) = p
pool_after p (status_set p') = p'
pool_after p (collected s) = s.pool_state
pool_after p (created s) = s.pool_state
pool_after p (liquidity_changed s) = s.pool_state
pool_after p (swapped s) = s.pool_state

-- A provider's three accounts differ, and the configuration of a swap has its rates in their
-- bounds.
abbrev pub IsProper : {MintData : Type 0} → Instruction MintData → Type 0
IsProper (Instruction.create_amm_config owner account bump index trade protocol fund) = Unit {0}
IsProper (Instruction.update_amm_config owner config keys param value) = Unit {0}
IsProper (Instruction.update_pool_status authority pool status) = Unit {0}
IsProper (Instruction.collect_protocol_fee ctx n m) = Unit {0}
IsProper (Instruction.collect_fund_fee ctx n m) = Unit {0}
IsProper (Instruction.initialize ctx n m open_time) = Unit {0}
IsProper (Instruction.deposit ctx lp n m) = SeparateOwner ctx
IsProper (Instruction.withdraw ctx memo lp n m) = SeparateOwner ctx
IsProper (Instruction.swap_base_input ctx n m) = IsValid ctx.amm_config
IsProper (Instruction.swap_base_output ctx n m) = IsValid ctx.amm_config

-- The pools that exist, by their addresses.
abbrev pub Pools : Type 0
Pools = Pubkey → Option PoolState

abbrev pub set_pool : Pools → Pubkey → PoolState → Pools
set_pool pools id p j = if j == id then some p else pools j

-- An instruction names neither the vaults nor the mint of pool tokens of a pool.
abbrev pub Spares : {MintData : Type 0} → PoolState → Instruction MintData → Type 0
Spares p i = IsForeign p.token_0_vault p.lp_mint i × IsForeign p.token_1_vault p.lp_mint i

module _ {MintData FeeConfig Bank : Type 0} (spl : Spl MintData FeeConfig Bank)
    (creation : Creation Bank) (integer_sqrt : ℕ → ℕ) (seeds : Seeds) (memo_id : Pubkey) where
  -- One step of the market: an instruction about one of the pools, the creation of a pool with a
  -- mint of pool tokens of which there are none, a configuration that is made or changed, or a
  -- change of the bank by others, who take nothing from a vault and issue no pool tokens. The pools
  -- have vaults and mints of their own, so an instruction names those of its own pool only.
  pub data Advance (pools : Pools) (bank : Bank) : Pools → Bank → Type 0 where
    acted :
        (clock : Clock) (i : Instruction MintData) (e : Effect Bank) (id : Pubkey) (p : PoolState)
        → pools id ≡ some p
        → pool_of i ≡ some p
        → IsSeparate i
        → IsProper i
        → ((j : Pubkey) (q : PoolState) → j ≢ id → pools j ≡ some q → Spares q i)
        → process spl creation integer_sqrt seeds memo_id clock bank i ≡ ok e
        → Advance pools bank (set_pool pools id (pool_after p e)) (bank_after bank e)
    opened :
        (clock : Clock) (ctx : InitializeAccounts MintData) (n₀ n₁ open_time : ℕ)
        (s : InitializeOutcome Bank)
        → IsSeparate (Instruction.initialize ctx n₀ n₁ open_time)
        → ctx.creator_lp_token ≢ ctx.token_0_vault
        → ctx.creator_lp_token ≢ ctx.token_1_vault
        → spl.supply bank ctx.lp_mint.key ≡ 0
        → ((j : Pubkey) (q : PoolState)
            → pools j ≡ some q
            → Spares q (Instruction.initialize ctx n₀ n₁ open_time))
        → process spl creation integer_sqrt seeds memo_id clock bank
            (Instruction.initialize ctx n₀ n₁ open_time)
          ≡ ok (created s)
        → Advance pools bank (set_pool pools ctx.pool_id s.pool_state) s.bank
    configuring :
        (clock : Clock) (i : Instruction MintData) {c : _}
        → process spl creation integer_sqrt seeds memo_id clock bank i ≡ ok (configured c)
        → Advance pools bank pools bank
    elsewhere :
        (bank' : Bank)
        → ((j : Pubkey) (q : PoolState)
            → pools j ≡ some q
            → (spl.amount bank q.token_0_vault ≤ spl.amount bank' q.token_0_vault)
              × (spl.amount bank q.token_1_vault ≤ spl.amount bank' q.token_1_vault)
              × (spl.supply bank' q.lp_mint ≤ spl.supply bank q.lp_mint))
        → Advance pools bank pools bank'

  -- Any number of steps.
  pub data Trace : Pools → Bank → Pools → Bank → Type 0 where
    start : (pools : Pools) (bank : Bank) → Trace pools bank pools bank
    next :
        {p p' p'' : Pools} {b b' b'' : Bank}
        → Advance p b p' b'
        → Trace p' b' p'' b''
        → Trace p b p'' b''
