-- ===== src/Program/Closed.antt =====
-- Instructions on a pool whose status or opening time does not allow them.
use solana_dex.Base.{
  ℕ, ◌<◌, ◌≡◌, ◌⊎◌, Bool, false, Result, refl, sym, ◌∙◌, ◌>>◌, >>-before, not, ◌||◌, err, ok, arith,
  anchor, code, not_approved, constraint_address, require_gt_violated, guard, guard_err, require_gt,
  ltb, ◌==◌, >>-err_first, >>=-err_first,
}
use solana_dex.Keys.{Pubkey}
use solana_dex.States.Pool.{PoolState, get_status_by_bit}
use solana_dex.States.Pool as Pool
use solana_dex.Token.Interface.{Spl, Clock}
use solana_dex.Token.Creation.{Creation}
use solana_dex.Instructions.Swap.{check_swap_accounts, check_open}
use solana_dex.Instructions.Swap.BaseInput.{quote_base_input, swap_base_input}
use solana_dex.Instructions.Swap.BaseOutput.{quote_base_output, swap_base_output}
use solana_dex.Instructions.Liquidity.{check_lp_accounts}
use solana_dex.Instructions.Liquidity.Deposit.{deposit}
use solana_dex.Instructions.Liquidity.Withdraw.{withdraw}
use solana_dex.Instructions.Initialize.{Seeds}
use solana_dex.Program.{Instruction, Effect, process}

shut_cases : (a : Bool) (o now : ℕ) → (a ≡ false) ⊎ (now < o) → not (not a || ltb now o) ≡ false
shut_cases a o now h = ground arith

>>-assoc {ℓ} :
    {A : Type ℓ} (a b c : Result (Unit {0})) (r : Result A)
    → ((a >> (b >> c)) >> r) ≡ (a >> (b >> (c >> r)))
>>-assoc (err e) b c r = refl
>>-assoc (ok u) (err e) c r = refl
>>-assoc (ok u) (ok v) c r = refl

module _ {MintData FeeConfig Bank : Type 0} (spl : Spl MintData FeeConfig Bank)
    (creation : Creation Bank) (integer_sqrt : ℕ → ℕ) (seeds : Seeds) (memo_id : Pubkey)
    (clock : Clock) (bank : Bank) where
  -- An instruction that its pool does not allow: the status bit of the instruction is set, or a swap
  -- comes before the opening time.
  abbrev pub IsShut : Instruction MintData → Type 0
  IsShut (Instruction.deposit ctx lp n m) = get_status_by_bit ctx.pool_state Pool.deposit ≡ false
  IsShut (Instruction.withdraw ctx memo lp n m) =
      get_status_by_bit ctx.pool_state Pool.withdraw ≡ false
  IsShut (Instruction.swap_base_input ctx n m) =
      (get_status_by_bit ctx.pool_state Pool.swap ≡ false)
      ⊎ (clock.unix_timestamp < ctx.pool_state.open_time)
  IsShut (Instruction.swap_base_output ctx n m) =
      (get_status_by_bit ctx.pool_state Pool.swap ≡ false)
      ⊎ (clock.unix_timestamp < ctx.pool_state.open_time)
  IsShut (Instruction.create_amm_config owner account bump index trade protocol fund) = ⊥
  IsShut (Instruction.update_amm_config owner config keys param value) = ⊥
  IsShut (Instruction.update_pool_status authority pool status) = ⊥
  IsShut (Instruction.collect_protocol_fee ctx n m) = ⊥
  IsShut (Instruction.collect_fund_fee ctx n m) = ⊥
  IsShut (Instruction.initialize ctx n m open_time) = ⊥

  -- The checks of the accounts of an instruction that moves tokens for its signer; of a withdrawal
  -- also that the memo program is the one, and that pool tokens are issued.
  abbrev pub admission : Instruction MintData → Result (Unit {0})
  admission (Instruction.deposit ctx lp n m) = check_lp_accounts seeds.authority ctx
  admission (Instruction.withdraw ctx memo lp n m) = do
    check_lp_accounts seeds.authority ctx
    guard (memo == memo_id) (anchor constraint_address)
    require_gt (spl.supply bank ctx.lp_mint) 0 (anchor require_gt_violated)
  admission (Instruction.swap_base_input ctx n m) = check_swap_accounts seeds.authority ctx
  admission (Instruction.swap_base_output ctx n m) = check_swap_accounts seeds.authority ctx
  admission (Instruction.create_amm_config owner account bump index trade protocol fund) = ok tt
  admission (Instruction.update_amm_config owner config keys param value) = ok tt
  admission (Instruction.update_pool_status authority pool status) = ok tt
  admission (Instruction.collect_protocol_fee ctx n m) = ok tt
  admission (Instruction.collect_fund_fee ctx n m) = ok tt
  admission (Instruction.initialize ctx n m open_time) = ok tt

  -- The failure of the first account that is refused, or that the pool does not allow it.
  abbrev pub refusal : Instruction MintData → Result (Effect Bank)
  refusal i = admission i >> err (code not_approved)

  shut :
      (p : PoolState)
      → (get_status_by_bit p Pool.swap ≡ false) ⊎ (clock.unix_timestamp < p.open_time)
      → check_open p clock.unix_timestamp ≡ err (code not_approved)
  unfolding check_open
  shut p h = guard_err _ _ (shut_cases (get_status_by_bit p Pool.swap) p.open_time _ h)

  -- An instruction that its pool does not allow is refused, whatever its accounts and amounts.
  pub closed_refuses :
      (i : Instruction MintData)
      → IsShut i
      → process spl creation integer_sqrt seeds memo_id clock bank i ≡ refusal i
  unfolding process deposit withdraw swap_base_input swap_base_output quote_base_input
      quote_base_output
  closed_refuses (Instruction.deposit ctx lp n m) off =
      >>-before (check_lp_accounts seeds.authority ctx) _ _ (
        >>=-err_first _ _ (
          >>-err_first (guard (get_status_by_bit ctx.pool_state Pool.deposit) (code not_approved)) _
            (guard_err _ _ off)))
  closed_refuses (Instruction.withdraw ctx memo lp n m) off =
      >>-before (check_lp_accounts seeds.authority ctx) _ _ (
        >>-before (guard (memo == memo_id) (anchor constraint_address)) _ _ (
          >>-before (require_gt (spl.supply bank ctx.lp_mint) 0 (anchor require_gt_violated)) _ _ (
            >>=-err_first _ _ (
              >>-err_first
                (guard (get_status_by_bit ctx.pool_state Pool.withdraw) (code not_approved)) _
                (guard_err _ _ off)))))
      ∙ sym (
          >>-assoc (check_lp_accounts seeds.authority ctx)
            (guard (memo == memo_id) (anchor constraint_address))
            (require_gt (spl.supply bank ctx.lp_mint) 0 (anchor require_gt_violated))
            (err (code not_approved)))
  closed_refuses (Instruction.swap_base_input ctx n m) h =
      >>-before (check_swap_accounts seeds.authority ctx) _ _ (
        >>=-err_first _ _ (
          >>=-err_first (quote_base_input spl clock ctx bank n m) _
            (>>-err_first (check_open ctx.pool_state clock.unix_timestamp) _ (shut _ h))))
  closed_refuses (Instruction.swap_base_output ctx n m) h =
      >>-before (check_swap_accounts seeds.authority ctx) _ _ (
        >>=-err_first _ _ (
          >>=-err_first (quote_base_output spl clock ctx bank n m) _
            (>>-err_first (check_open ctx.pool_state clock.unix_timestamp) _ (shut _ h))))
  closed_refuses (Instruction.create_amm_config owner account bump index trade protocol fund) h =
      absurd h
  closed_refuses (Instruction.update_amm_config owner config keys param value) h = absurd h
  closed_refuses (Instruction.update_pool_status authority pool status) h = absurd h
  closed_refuses (Instruction.collect_protocol_fee ctx n m) h = absurd h
  closed_refuses (Instruction.collect_fund_fee ctx n m) h = absurd h
  closed_refuses (Instruction.initialize ctx n m open_time) h = absurd h
