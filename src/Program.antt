-- ===== src/Program.antt =====
-- The entry points of programs/cp-swap/src/lib.rs: the instructions that the program takes, with
-- their accounts and arguments, and what each hands to its handler.
pub mod Access
pub mod Closed
pub mod Foreign
pub mod Kept
pub mod KeptPool
pub mod Frame
use solana_dex.Base.{ℕ, List, Result, ok, ◌>>=◌}
use solana_dex.Keys.{Pubkey}
use solana_dex.States.Config.{AmmConfig}
use solana_dex.States.Pool.{PoolState}
use solana_dex.Token.Interface.{Spl, Clock}
use solana_dex.Token.Creation.{Creation}
use solana_dex.Instructions.Swap.{SwapAccounts, SwapOutcome}
use solana_dex.Instructions.Swap.BaseInput as BaseInput
use solana_dex.Instructions.Swap.BaseOutput as BaseOutput
use solana_dex.Instructions.Liquidity.{LpAccounts, LpOutcome}
use solana_dex.Instructions.Liquidity.Deposit as Deposit
use solana_dex.Instructions.Liquidity.Withdraw as Withdraw
use solana_dex.Instructions.Admin as Admin
use solana_dex.Instructions.Admin.Collect.{CollectAccounts, CollectOutcome}
use solana_dex.Instructions.Admin.Collect as Collect
use solana_dex.Instructions.Initialize.{Seeds, InitializeAccounts, InitializeOutcome}
use solana_dex.Instructions.Initialize as Initialize

-- An instruction: the accounts of its context, then its arguments in the order of the source. The
-- signer of an administrator's instruction comes first, with what it acts on; the bump of a new
-- configuration is of its derived address.
pub data Instruction (MintData : Type 0) : Type 0 where
  create_amm_config :
      (owner amm_config : Pubkey) (bump index trade_fee_rate protocol_fee_rate fund_fee_rate : ℕ)
      → Instruction MintData
  update_amm_config :
      (owner : Pubkey) (amm_config : AmmConfig) (remaining_accounts : List Pubkey) (param value : ℕ)
      → Instruction MintData
  update_pool_status :
      (authority : Pubkey) (pool_state : PoolState) (status : ℕ) → Instruction MintData
  collect_protocol_fee :
      (ctx : CollectAccounts MintData) (amount_0_requested amount_1_requested : ℕ)
      → Instruction MintData
  collect_fund_fee :
      (ctx : CollectAccounts MintData) (amount_0_requested amount_1_requested : ℕ)
      → Instruction MintData
  initialize :
      (ctx : InitializeAccounts MintData) (init_amount_0 init_amount_1 open_time : ℕ)
      → Instruction MintData
  deposit :
      (ctx : LpAccounts MintData)
      (lp_token_amount maximum_token_0_amount maximum_token_1_amount : ℕ)
      → Instruction MintData
  withdraw :
      (ctx : LpAccounts MintData) (memo_program : Pubkey)
      (lp_token_amount minimum_token_0_amount minimum_token_1_amount : ℕ)
      → Instruction MintData
  swap_base_input :
      (ctx : SwapAccounts MintData) (amount_in minimum_amount_out : ℕ) → Instruction MintData
  swap_base_output :
      (ctx : SwapAccounts MintData) (max_amount_in amount_out : ℕ) → Instruction MintData

-- What an instruction leaves.
pub data Effect (Bank : Type 0) : Type 0 where
  configured : AmmConfig → Effect Bank
  status_set : PoolState → Effect Bank
  collected : CollectOutcome Bank → Effect Bank
  created : InitializeOutcome Bank → Effect Bank
  liquidity_changed : LpOutcome Bank → Effect Bank
  swapped : SwapOutcome Bank → Effect Bank

module _ {MintData FeeConfig Bank : Type 0} (spl : Spl MintData FeeConfig Bank)
    (creation : Creation Bank) (integer_sqrt : ℕ → ℕ) (seeds : Seeds) (memo_id : Pubkey)
    (clock : Clock) (bank : Bank) where
  unfoldable pub process : Instruction MintData → Result (Effect Bank)
  process (Instruction.create_amm_config owner account bump index trade protocol fund) =
      Admin.create_amm_config seeds.amm_config owner account bump index trade protocol fund >>= λ c.
      ok (configured c)
  process (Instruction.update_amm_config owner config remaining param value) =
      Admin.update_amm_config owner config remaining param value >>= λ c. ok (configured c)
  process (Instruction.update_pool_status authority pool status) =
      Admin.update_pool_status authority pool status >>= λ p. ok (status_set p)
  process (Instruction.collect_protocol_fee ctx requested_0 requested_1) =
      Collect.collect_protocol_fee spl seeds.authority clock ctx bank requested_0 requested_1
      >>= λ s. ok (collected s)
  process (Instruction.collect_fund_fee ctx requested_0 requested_1) =
      Collect.collect_fund_fee spl seeds.authority clock ctx bank requested_0 requested_1 >>= λ s.
      ok (collected s)
  process (Instruction.initialize ctx init_0 init_1 open_time) =
      Initialize.initialize spl creation integer_sqrt seeds clock ctx bank init_0 init_1 open_time
      >>= λ s. ok (created s)
  process (Instruction.deposit ctx lp maximum_0 maximum_1) =
      Deposit.deposit spl seeds.authority clock ctx bank lp maximum_0 maximum_1 >>= λ s.
      ok (liquidity_changed s)
  process (Instruction.withdraw ctx memo lp minimum_0 minimum_1) =
      Withdraw.withdraw spl seeds.authority memo_id clock ctx memo bank lp minimum_0 minimum_1
      >>= λ s. ok (liquidity_changed s)
  process (Instruction.swap_base_input ctx amount_in minimum_out) =
      BaseInput.swap_base_input spl seeds.authority clock ctx bank amount_in minimum_out >>= λ s.
      ok (swapped s)
  process (Instruction.swap_base_output ctx maximum_in amount_out) =
      BaseOutput.swap_base_output spl seeds.authority clock ctx bank maximum_in amount_out >>= λ s.
      ok (swapped s)
