-- ===== src/Market/Pausing.antt =====
-- What the administrator's update of a pool's status does to later instructions on the pool.
use solana_dex.Base.{
  ℕ, ◌%◌, ◌/◌, ◌<◌, ◌≤◌, ◌≡◌, some, ok, arith, sym, subst, refl, false, inl, ◌∙◌, anchor,
  constraint_address, require_gte_violated, require_gte, guard, guard-eq-ok, leb→le, >>=-elim,
  >>-elim, ok-injective, some-injective, ◌==◌,
}
use solana_dex.Keys.{Pubkey, admin}
use solana_dex.States.Pool.{PoolState, get_status_by_bit, set_status}
use solana_dex.States.Pool as Pool
use solana_dex.States.Pool.Status.{digit, get_status_by_bit-digit}
use solana_dex.Token.Interface.{Spl, Clock}
use solana_dex.Token.Creation.{Creation}
use solana_dex.Instructions.Admin.{update_pool_status}
use solana_dex.Instructions.Initialize.{Seeds}
use solana_dex.Program.{Instruction, Effect, status_set, process}
use solana_dex.Program.Closed.{IsShut, refusal, closed_refuses}
use solana_dex.Market.{pool_of}

-- A status byte whose digit for the instruction's operation is one.
abbrev pub Forbids : {MintData : Type 0} → ℕ → Instruction MintData → Type 0
Forbids n (Instruction.deposit ctx lp m₀ m₁) = n % 2 ≡ 1
Forbids n (Instruction.withdraw ctx memo lp m₀ m₁) = n / 2 % 2 ≡ 1
Forbids n (Instruction.swap_base_input ctx a b) = n / 4 % 2 ≡ 1
Forbids n (Instruction.swap_base_output ctx a b) = n / 4 % 2 ≡ 1
Forbids n (Instruction.create_amm_config owner account bump index trade protocol fund) = ⊥
Forbids n (Instruction.update_amm_config owner config keys param value) = ⊥
Forbids n (Instruction.update_pool_status authority pool status) = ⊥
Forbids n (Instruction.collect_protocol_fee ctx a b) = ⊥
Forbids n (Instruction.collect_fund_fee ctx a b) = ⊥
Forbids n (Instruction.initialize ctx a b open_time) = ⊥

-- An operation is closed on a pool with the status `n`.
off :
    (b : Pool.PoolStatusBitIndex) {p q : PoolState} (n : ℕ)
    → some p ≡ some q
    → q.status ≡ n
    → n < 256
    → digit b n ≡ 1
    → get_status_by_bit p b ≡ false
off b {p} n about e byte one =
    let status : p.status ≡ n = subst (λ q. q.status ≡ n) (sym (some-injective about)) e in
    get_status_by_bit-digit p b (subst (λ k. k < 256) (sym status) byte)
      (subst (λ k. digit b k ≡ 1) (sym status) one)

status_set_injective :
    {Bank : Type 0} {p q : PoolState} → ◌≡◌ {A = Effect Bank} (status_set p) (status_set q) → p ≡ q
status_set_injective h = cc

module _ {MintData FeeConfig Bank : Type 0} (spl : Spl MintData FeeConfig Bank)
    (creation : Creation Bank) (integer_sqrt : ℕ → ℕ) (seeds : Seeds) (memo_id : Pubkey) where
  status-IsShut :
      (clock : Clock) (bank : Bank) (i : Instruction MintData) {q : PoolState} (n : ℕ)
      → pool_of i ≡ some q
      → q.status ≡ n
      → n < 256
      → Forbids n i
      → IsShut spl creation integer_sqrt seeds memo_id clock bank i
  status-IsShut clock bank (Instruction.deposit ctx lp m₀ m₁) n about e byte one =
      off Pool.deposit n about e byte one
  status-IsShut clock bank (Instruction.withdraw ctx memo lp m₀ m₁) n about e byte one =
      off Pool.withdraw n about e byte one
  status-IsShut clock bank (Instruction.swap_base_input ctx a b) n about e byte one =
      inl (off Pool.swap n about e byte one)
  status-IsShut clock bank (Instruction.swap_base_output ctx a b) n about e byte one =
      inl (off Pool.swap n about e byte one)
  status-IsShut clock bank
        (Instruction.create_amm_config owner account bump index trade protocol fund) n about e byte
        h =
      absurd h
  status-IsShut clock bank (Instruction.update_amm_config owner config keys param value) n about e
        byte h =
      absurd h
  status-IsShut clock bank (Instruction.update_pool_status authority pool status) n about e byte h =
      absurd h
  status-IsShut clock bank (Instruction.collect_protocol_fee ctx a b) n about e byte h = absurd h
  status-IsShut clock bank (Instruction.collect_fund_fee ctx a b) n about e byte h = absurd h
  status-IsShut clock bank (Instruction.initialize ctx a b open_time) n about e byte h = absurd h

  -- The status that an update sets is the byte that was sent.
  update-status :
      (clock : Clock) (bank : Bank) (signer : Pubkey) (p : PoolState) (n : ℕ) {p' : PoolState}
      → process spl creation integer_sqrt seeds memo_id clock bank
          (Instruction.update_pool_status signer p n)
        ≡ ok (status_set p')
      → (p'.status ≡ n) × (n < 256)
  unfolding process update_pool_status set_status
  update-status clock bank signer p n h = >>=-elim (update_pool_status signer p n) _ h λ q h e.
      >>-elim (guard (signer == admin) (anchor constraint_address)) _ h λ _ h.
        >>-elim (require_gte 255 n (anchor require_gte_violated)) _ h λ k h.
          let most : n ≤ 255 = leb→le n 255 (guard-eq-ok _ _ k) in
          (
            subst (λ q. q.status ≡ n) (ok-injective h ∙ status_set_injective (ok-injective e)) refl,
            omega (arith, most),
          )

  -- After an update_pool_status that succeeds, a deposit, a withdrawal or a swap on the pool, its
  -- status still the one that was set, is refused at any later time and with any bank, accounts and
  -- amounts, where the digit of the status byte for that operation, the lowest for deposits, the
  -- second for withdrawals and the third for swaps, is one. It fails as the first of its checks of
  -- accounts fails, to which those of the memo program and of a supply of pool tokens belong for a
  -- withdrawal, and as not approved where they all pass.
  pub pausing_refuses :
      (clock : Clock) (bank : Bank) (signer : Pubkey) (p : PoolState) (n : ℕ) {p' : PoolState}
      (later : Clock) (left : Bank) (i : Instruction MintData) (q : PoolState)
      → process spl creation integer_sqrt seeds memo_id clock bank
          (Instruction.update_pool_status signer p n)
        ≡ ok (status_set p')
      → pool_of i ≡ some q
      → q.status ≡ p'.status
      → Forbids n i
      → process spl creation integer_sqrt seeds memo_id later left i
        ≡ refusal spl creation integer_sqrt seeds memo_id later left i
  pausing_refuses clock bank signer p n later left i q paused about same forbids =
      let (status, byte) = update-status clock bank signer p n paused in
      closed_refuses spl creation integer_sqrt seeds memo_id later left i
        (status-IsShut later left i n about (same ∙ status) byte forbids)
