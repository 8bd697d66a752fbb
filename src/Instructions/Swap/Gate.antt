-- ===== src/Instructions/Swap/Gate.antt =====
-- The gate of swap_base_input.rs and swap_base_output.rs: which swaps are refused.
use solana_dex.Base.{
  ℕ, ◌≤◌, ◌≡◌, Bool, true, not, ◌||◌, ok, arith, same-elim, guard-eq-ok, >>=-elim, >>-elim, ltb,
  inl, inr, ◌⊎◌,
}
use solana_dex.Keys.{Pubkey}
use solana_dex.States.Pool.{PoolState, swap, get_status_by_bit}
use solana_dex.Token.Interface.{Spl, Clock}
use solana_dex.Instructions.Swap.{SwapAccounts, SwapOutcome, check_swap_accounts, check_open}
use solana_dex.Instructions.Swap.BaseInput.{quote_base_input, swap_base_input}
use solana_dex.Instructions.Swap.BaseOutput.{quote_base_output, swap_base_output}

-- A pool is open for swaps: the status bit is clear and the opening time has come.
pub record IsOpen (p : PoolState) (now : ℕ) : Type 0 where
  pub enabled : get_status_by_bit p swap ≡ true
  pub started : p.open_time ≤ now

gate_cases : (a : Bool) (o now : ℕ) → not (not a || ltb now o) ≡ true → (a ≡ true) × (o ≤ now)
gate_cases a o now h = ground arith

check_open-IsOpen : (p : PoolState) (now : ℕ) → check_open p now ≡ ok tt → IsOpen p now
unfolding check_open
check_open-IsOpen p now h =
    let (on, late) = gate_cases (get_status_by_bit p swap) p.open_time now (guard-eq-ok _ _ h) in
    record { enabled = on; started = late }

pub authority_of :
    {MintData : Type 0} (pda : Pubkey) (ctx : SwapAccounts MintData)
    → check_swap_accounts pda ctx ≡ ok tt
    → ctx.authority ≡ pda
unfolding check_swap_accounts
authority_of pda ctx h = same-elim ctx.authority pda _ _ h λ e _. e

module _ {MintData FeeConfig Bank : Type 0} (spl : Spl MintData FeeConfig Bank) (pda : Pubkey)
    (clock : Clock) (ctx : SwapAccounts MintData) (bank : Bank) (m n : ℕ) where
  -- Either swap succeeds only for a pool whose status allows swaps and whose opening time has come,
  -- and only with the authority's address that the program's seed derives.
  pub swaps-IsOpen :
      {s : SwapOutcome Bank}
      → (swap_base_input spl pda clock ctx bank m n ≡ ok s)
        ⊎ (swap_base_output spl pda clock ctx bank m n ≡ ok s)
      → IsOpen ctx.pool_state clock.unix_timestamp × (ctx.authority ≡ pda)
  unfolding swap_base_input swap_base_output quote_base_input quote_base_output
  swaps-IsOpen (inl h) = >>-elim (check_swap_accounts pda ctx) _ h λ e h.
      >>=-elim (quote_base_input spl clock ctx bank m n) _ h λ q h _.
        >>-elim (check_open ctx.pool_state clock.unix_timestamp) _ h
          λ g _. (check_open-IsOpen _ _ g, authority_of pda ctx e)
  swaps-IsOpen (inr h) = >>-elim (check_swap_accounts pda ctx) _ h λ e h.
      >>=-elim (quote_base_output spl clock ctx bank m n) _ h λ q h _.
        >>-elim (check_open ctx.pool_state clock.unix_timestamp) _ h
          λ g _. (check_open-IsOpen _ _ g, authority_of pda ctx e)
