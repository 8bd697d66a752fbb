-- ===== src/Market/Steps.antt =====
-- An instruction about a pool is a step of the pool's life.
use solana_dex.Base.{ℕ, ◌≡◌, some, ok, ok-injective, some-injective, subst, >>=-elim}
use solana_dex.Keys.{Pubkey}
use solana_dex.States.Pool.{PoolState}
use solana_dex.Token.Interface.{Spl, Clock}
use solana_dex.Token.Creation.{Creation}
use solana_dex.Instructions.Swap.BaseInput.{swap_base_input}
use solana_dex.Instructions.Swap.BaseOutput.{swap_base_output}
use solana_dex.Instructions.Liquidity.Deposit.{deposit}
use solana_dex.Instructions.Liquidity.Withdraw.{withdraw}
use solana_dex.Instructions.Admin.{update_pool_status}
use solana_dex.Instructions.Admin.Collect.{collect_protocol_fee, collect_fund_fee}
use solana_dex.Instructions.Initialize.{Seeds}
use solana_dex.Program.{Instruction, Effect, process}
use solana_dex.Program.Foreign.{IsSeparate, bank_after}
use solana_dex.Life.{Step}
use solana_dex.Market.{pool_of, pool_after, IsProper}

module _ {MintData FeeConfig Bank : Type 0} (spl : Spl MintData FeeConfig Bank)
    (creation : Creation Bank) (integer_sqrt : ℕ → ℕ) (seeds : Seeds) (memo_id : Pubkey)
    (clock : Clock) (bank : Bank) where
  abbrev Steps : PoolState → Effect Bank → Type 0
  Steps p e = Step spl p bank (pool_after p e) (bank_after bank e)

  pub process-Step :
      (i : Instruction MintData) {e : Effect Bank} {p : PoolState}
      → pool_of i ≡ some p
      → IsSeparate i
      → IsProper i
      → process spl creation integer_sqrt seeds memo_id clock bank i ≡ ok e
      → Step spl p bank (pool_after p e) (bank_after bank e)
  unfolding process
  process-Step (Instruction.update_pool_status authority pool status) {e} {p} about sep proper h =
      >>=-elim (update_pool_status authority pool status) _ h λ s h e'.
        subst (λ p. Steps p e) (some-injective about)
          (subst (Steps pool) (ok-injective e') (Step.status_set authority pool s bank status h))
  process-Step (Instruction.collect_protocol_fee ctx n m) {e} {p} about sep proper h =
      >>=-elim (collect_protocol_fee spl seeds.authority clock ctx bank n m) _ h λ s h e'.
        subst (λ p. Steps p e) (some-injective about)
          (subst (Steps ctx.pool_state) (ok-injective e')
            (Step.collected_protocol seeds.authority clock ctx bank n m s sep h))
  process-Step (Instruction.collect_fund_fee ctx n m) {e} {p} about sep proper h =
      >>=-elim (collect_fund_fee spl seeds.authority clock ctx bank n m) _ h λ s h e'.
        subst (λ p. Steps p e) (some-injective about)
          (subst (Steps ctx.pool_state) (ok-injective e')
            (Step.collected_fund seeds.authority clock ctx bank n m s sep h))
  process-Step (Instruction.deposit ctx lp n m) {e} {p} about sep proper h =
      >>=-elim (deposit spl seeds.authority clock ctx bank lp n m) _ h λ s h e'.
        subst (λ p. Steps p e) (some-injective about)
          (subst (Steps ctx.pool_state) (ok-injective e')
            (Step.deposited seeds.authority clock ctx bank lp n m s sep proper h))
  process-Step (Instruction.withdraw ctx memo lp n m) {e} {p} about sep proper h =
      >>=-elim (withdraw spl seeds.authority memo_id clock ctx memo bank lp n m) _ h λ s h e'.
        subst (λ p. Steps p e) (some-injective about)
          (subst (Steps ctx.pool_state) (ok-injective e')
            (Step.withdrew seeds.authority memo_id clock ctx memo bank lp n m s sep proper h))
  process-Step (Instruction.swap_base_input ctx n m) {e} {p} about sep proper h =
      >>=-elim (swap_base_input spl seeds.authority clock ctx bank n m) _ h λ s h e'.
        subst (λ p. Steps p e) (some-injective about)
          (subst (Steps ctx.pool_state) (ok-injective e')
            (Step.swapped_input seeds.authority clock ctx bank n m s sep proper h))
  process-Step (Instruction.swap_base_output ctx n m) {e} {p} about sep proper h =
      >>=-elim (swap_base_output spl seeds.authority clock ctx bank n m) _ h λ s h e'.
        subst (λ p. Steps p e) (some-injective about)
          (subst (Steps ctx.pool_state) (ok-injective e')
            (Step.swapped_output seeds.authority clock ctx bank n m s sep proper h))
  process-Step (Instruction.create_amm_config owner account bump index trade protocol fund) about
        sep proper h =
      cc
  process-Step (Instruction.update_amm_config owner config keys param value) about sep proper h = cc
  process-Step (Instruction.initialize ctx n m open_time) about sep proper h = cc
