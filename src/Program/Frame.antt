-- ===== src/Program/Frame.antt =====
-- Every instruction of lib.rs leaves alone what is not of its accounts.
use solana_dex.Base.{ℕ, ◌≡◌, ok, refl, ok-injective, subst, >>=-elim}
use solana_dex.Keys.{Pubkey}
use solana_dex.Token.Interface.{Spl, Clock}
use solana_dex.Token.Laws.{Laws}
use solana_dex.Token.Creation.{Creation, CreationLaws}
use solana_dex.Instructions.Swap.BaseInput.{swap_base_input}
use solana_dex.Instructions.Swap.BaseOutput.{swap_base_output}
use solana_dex.Instructions.Swap.InputValue.{swap_base_input_parts}
use solana_dex.Instructions.Swap.OutputValue.{swap_base_output_parts}
use solana_dex.Instructions.Liquidity.Deposit.{deposit}
use solana_dex.Instructions.Liquidity.Withdraw.{withdraw}
use solana_dex.Instructions.Admin.{create_amm_config, update_amm_config, update_pool_status}
use solana_dex.Instructions.Admin.Collect.{collect_protocol_fee, collect_fund_fee}
use solana_dex.Instructions.Initialize.{Seeds, initialize}
use solana_dex.Program.{Instruction, Effect, process}
use solana_dex.Program.Foreign.{IsSeparate, IsForeign, bank_after}
use solana_dex.Program.Kept.{
  Kept, Settled-Kept, deposit-Kept, withdraw-Kept, collect_protocol_fee-Kept, collect_fund_fee-Kept,
}
use solana_dex.Program.KeptPool.{initialize-Kept}

module _ (seeds : Seeds) {MintData FeeConfig Bank : Type 0} (spl : Spl MintData FeeConfig Bank)
    (laws : Laws spl) (creation : Creation Bank) (issues : CreationLaws spl creation)
    (integer_sqrt : ℕ → ℕ) (memo_id : Pubkey) (clock : Clock) (bank : Bank) (k m : Pubkey) where
  -- Over token programs and account creation that keep their laws: an instruction that the program
  -- processes with success, between accounts that differ, leaves alone the balance of every token
  -- account and the supply of every mint that are not among those that its context names.
  pub process-Kept :
      (i : Instruction MintData) {e : Effect Bank}
      → IsSeparate i
      → IsForeign k m i
      → process spl creation integer_sqrt seeds memo_id clock bank i ≡ ok e
      → Kept spl laws k m bank (bank_after bank e)
  unfolding process
  process-Kept (Instruction.create_amm_config owner account bump index trade protocol fund) sep away
        h =
      >>=-elim (create_amm_config seeds.amm_config owner account bump index trade protocol fund) _ h
        λ s h e.
          subst (λ e. Kept spl laws k m bank (bank_after bank e)) (ok-injective e)
            (record { balance = refl; supply = refl })
  process-Kept (Instruction.update_amm_config owner config keys param value) sep away h =
      >>=-elim (update_amm_config owner config keys param value) _ h λ s h e.
        subst (λ e. Kept spl laws k m bank (bank_after bank e)) (ok-injective e)
          (record { balance = refl; supply = refl })
  process-Kept (Instruction.update_pool_status authority pool status) sep away h =
      >>=-elim (update_pool_status authority pool status) _ h λ s h e.
        subst (λ e. Kept spl laws k m bank (bank_after bank e)) (ok-injective e)
          (record { balance = refl; supply = refl })
  process-Kept (Instruction.collect_protocol_fee ctx r₀ r₁) sep away h =
      >>=-elim (collect_protocol_fee spl seeds.authority clock ctx bank r₀ r₁) _ h λ s h e.
        subst (λ e. Kept spl laws k m bank (bank_after bank e)) (ok-injective e)
          (collect_protocol_fee-Kept spl laws k m seeds.authority clock bank ctx r₀ r₁ sep away h)
  process-Kept (Instruction.collect_fund_fee ctx r₀ r₁) sep away h =
      >>=-elim (collect_fund_fee spl seeds.authority clock ctx bank r₀ r₁) _ h λ s h e.
        subst (λ e. Kept spl laws k m bank (bank_after bank e)) (ok-injective e)
          (collect_fund_fee-Kept spl laws k m seeds.authority clock bank ctx r₀ r₁ sep away h)
  process-Kept (Instruction.initialize ctx n₀ n₁ open_time) sep away h =
      >>=-elim (initialize spl creation integer_sqrt seeds clock ctx bank n₀ n₁ open_time) _ h
        λ s h e.
          subst (λ e. Kept spl laws k m bank (bank_after bank e)) (ok-injective e)
            (initialize-Kept spl laws k m creation issues integer_sqrt clock ctx bank n₀ n₁ seeds
              open_time sep.0 sep.1 away h)
  process-Kept (Instruction.deposit ctx lp n₀ n₁) sep away h =
      >>=-elim (deposit spl seeds.authority clock ctx bank lp n₀ n₁) _ h λ s h e.
        subst (λ e. Kept spl laws k m bank (bank_after bank e)) (ok-injective e)
          (deposit-Kept spl laws k m seeds.authority clock bank ctx lp n₀ n₁ sep away h)
  process-Kept (Instruction.withdraw ctx memo lp n₀ n₁) sep away h =
      >>=-elim (withdraw spl seeds.authority memo_id clock ctx memo bank lp n₀ n₁) _ h λ s h e.
        subst (λ e. Kept spl laws k m bank (bank_after bank e)) (ok-injective e)
          (withdraw-Kept spl laws k m seeds.authority clock bank memo_id ctx memo lp n₀ n₁ sep away
            h)
  process-Kept (Instruction.swap_base_input ctx n₀ n₁) sep away h =
      >>=-elim (swap_base_input spl seeds.authority clock ctx bank n₀ n₁) _ h λ s h e.
        subst (λ e. Kept spl laws k m bank (bank_after bank e)) (ok-injective e)
          (let (q, _, st) =
              swap_base_input_parts spl laws seeds.authority clock ctx bank n₀ n₁ sep h in
            Settled-Kept spl laws k m clock ctx bank _ q _ _ away st)
  process-Kept (Instruction.swap_base_output ctx n₀ n₁) sep away h =
      >>=-elim (swap_base_output spl seeds.authority clock ctx bank n₀ n₁) _ h λ s h e.
        subst (λ e. Kept spl laws k m bank (bank_after bank e)) (ok-injective e)
          (let (q, f, g, parts) =
              swap_base_output_parts spl laws seeds.authority clock ctx bank n₀ n₁ sep h in
            Settled-Kept spl laws k m clock ctx bank _ q f g away parts.settled)
