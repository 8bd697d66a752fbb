-- ===== src/Life.antt =====
-- The life of a pool: which instructions of programs/cp-swap/src/lib.rs lead from one state of the
-- pool and of the bank to the next, and what others may do to the bank in between.
pub mod Book
pub mod Refine
pub mod Solvency
pub mod Opening
pub mod Updates
pub mod Changes
pub mod Sizes
use solana_dex.Base.{ℕ, ◌≤◌, ◌≡◌, ◌≢◌, ok}
use solana_dex.Keys.{Pubkey}
use solana_dex.States.Config.{IsValid}
use solana_dex.States.Pool.{PoolState}
use solana_dex.Token.Interface.{Spl, Clock}
use solana_dex.Instructions.Swap.{SwapAccounts, SwapOutcome}
use solana_dex.Instructions.Swap.BaseInput.{swap_base_input}
use solana_dex.Instructions.Swap.BaseOutput.{swap_base_output}
use solana_dex.Instructions.Swap.Settlement.{Separate}
use solana_dex.Instructions.Liquidity.{LpAccounts, LpOutcome}
use solana_dex.Instructions.Liquidity.Accounts.{SeparateLp, SeparateOwner}
use solana_dex.Instructions.Liquidity.Deposit.{deposit}
use solana_dex.Instructions.Liquidity.Withdraw.{withdraw}
use solana_dex.Instructions.Admin.{update_pool_status}
use solana_dex.Instructions.Admin.Collect.{
  CollectAccounts, CollectOutcome, collect_protocol_fee, collect_fund_fee,
}
use solana_dex.Instructions.Admin.CollectRun.{SeparateCollect}

-- One step: an instruction that succeeds, or a change of the bank by others, who may send to the
-- vaults and burn pool tokens, but not take from the vaults or issue pool tokens.
pub data Step {MintData FeeConfig Bank : Type 0} (spl : Spl MintData FeeConfig Bank)
    : PoolState → Bank → PoolState → Bank → Type 0 where
  swapped_input :
      (pda : Pubkey) (clock : Clock) (ctx : SwapAccounts MintData) (bank : Bank) (n m : ℕ)
      (s : SwapOutcome Bank)
      → Separate ctx
      → IsValid ctx.amm_config
      → swap_base_input spl pda clock ctx bank n m ≡ ok s
      → Step spl ctx.pool_state bank s.pool_state s.bank
  swapped_output :
      (pda : Pubkey) (clock : Clock) (ctx : SwapAccounts MintData) (bank : Bank) (n m : ℕ)
      (s : SwapOutcome Bank)
      → Separate ctx
      → IsValid ctx.amm_config
      → swap_base_output spl pda clock ctx bank n m ≡ ok s
      → Step spl ctx.pool_state bank s.pool_state s.bank
  deposited :
      (pda : Pubkey) (clock : Clock) (ctx : LpAccounts MintData) (bank : Bank) (lp m₀ m₁ : ℕ)
      (s : LpOutcome Bank)
      → SeparateLp ctx
      → SeparateOwner ctx
      → deposit spl pda clock ctx bank lp m₀ m₁ ≡ ok s
      → Step spl ctx.pool_state bank s.pool_state s.bank
  withdrew :
      (pda memo_id : Pubkey) (clock : Clock) (ctx : LpAccounts MintData) (memo : Pubkey)
      (bank : Bank) (lp m₀ m₁ : ℕ) (s : LpOutcome Bank)
      → SeparateLp ctx
      → SeparateOwner ctx
      → withdraw spl pda memo_id clock ctx memo bank lp m₀ m₁ ≡ ok s
      → Step spl ctx.pool_state bank s.pool_state s.bank
  collected_protocol :
      (pda : Pubkey) (clock : Clock) (ctx : CollectAccounts MintData) (bank : Bank) (n m : ℕ)
      (s : CollectOutcome Bank)
      → SeparateCollect ctx
      → collect_protocol_fee spl pda clock ctx bank n m ≡ ok s
      → Step spl ctx.pool_state bank s.pool_state s.bank
  collected_fund :
      (pda : Pubkey) (clock : Clock) (ctx : CollectAccounts MintData) (bank : Bank) (n m : ℕ)
      (s : CollectOutcome Bank)
      → SeparateCollect ctx
      → collect_fund_fee spl pda clock ctx bank n m ≡ ok s
      → Step spl ctx.pool_state bank s.pool_state s.bank
  status_set :
      (signer : Pubkey) (p p' : PoolState) (bank : Bank) (status : ℕ)
      → update_pool_status signer p status ≡ ok p'
      → Step spl p bank p' bank
  outside :
      (p : PoolState) (b b' : Bank)
      → spl.amount b p.token_0_vault ≤ spl.amount b' p.token_0_vault
      → spl.amount b p.token_1_vault ≤ spl.amount b' p.token_1_vault
      → spl.supply b' p.lp_mint ≤ spl.supply b p.lp_mint
      → Step spl p b p b'

-- Any number of steps.
pub data Run {MintData FeeConfig Bank : Type 0} (spl : Spl MintData FeeConfig Bank)
    : PoolState → Bank → PoolState → Bank → Type 0 where
  stop : (p : PoolState) (b : Bank) → Run spl p b p b
  more :
      {p p' p'' : PoolState} {b b' b'' : Bank}
      → Step spl p b p' b'
      → Run spl p' b' p'' b''
      → Run spl p b p'' b''
