-- ===== src/Life/Updates.antt =====
-- How an instruction may change a pool's state, states/pool.rs, and what each change keeps.
use solana_dex.Base.{
  ℕ, ◌<◌, ◌≤◌, ◌⊎◌, inl, inr, refl, sym, ◌≡◌, ok, arith, subst, >>=-elim, ok-injective, unwrap,
  unwrap-eq-ok, u64_mod, checked_add, checked_add-eq-ok,
}
use solana_dex.Curve.Calculator.{TradeDirection, zero_for_one, one_for_zero}
use solana_dex.States.Pool.{PoolState}
use solana_dex.Instructions.Swap.{accrue_fees}

-- A new value fits in 64 bits, or is at most the old one.
abbrev pub Fits : ℕ → ℕ → Type 0
Fits old new = (new < u64_mod) ⊎ (new ≤ old)

-- The fees, the count of the pool tokens, or the status change, and nothing else.
pub data Update (p p' : PoolState) : Type 0 where
  fees :
      (a b c d : ℕ)
      → Fits p.protocol_fees_token_0 a
      → Fits p.protocol_fees_token_1 b
      → Fits p.fund_fees_token_0 c
      → Fits p.fund_fees_token_1 d
      → p' ≡ record p {
        protocol_fees_token_0 = a;
        protocol_fees_token_1 = b;
        fund_fees_token_0 = c;
        fund_fees_token_1 = d;
      }
      → Update p p'
  supply : (l : ℕ) → Fits p.lp_supply l → p' ≡ record p { lp_supply = l } → Update p p'
  status : (n : ℕ) → n < 256 → p' ≡ record p { status = n } → Update p p'
  same : p' ≡ p → Update p p'

-- A `u8`, and the `u64` fields.
pub record IsSized (p : PoolState) : Type 0 where
  pub status : p.status < 256
  pub lp_supply : p.lp_supply < u64_mod
  pub protocol_0 : p.protocol_fees_token_0 < u64_mod
  pub protocol_1 : p.protocol_fees_token_1 < u64_mod
  pub fund_0 : p.fund_fees_token_0 < u64_mod
  pub fund_1 : p.fund_fees_token_1 < u64_mod
  pub open_time : p.open_time < u64_mod

Fits-after : {old new : ℕ} → Fits old new → old < u64_mod → new < u64_mod
Fits-after (inl h) v = h
Fits-after (inr h) v = omega (arith, h, v)

pub Update-IsSized : {p p' : PoolState} → Update p p' → IsSized p → IsSized p'
Update-IsSized (Update.fees a b c d fa fb fc fd e) v = subst IsSized (sym e) (record {
  status = v.status;
  lp_supply = v.lp_supply;
  protocol_0 = Fits-after fa v.protocol_0;
  protocol_1 = Fits-after fb v.protocol_1;
  fund_0 = Fits-after fc v.fund_0;
  fund_1 = Fits-after fd v.fund_1;
  open_time = v.open_time;
})
Update-IsSized (Update.supply l f e) v = subst IsSized (sym e) (record {
  status = v.status;
  lp_supply = Fits-after f v.lp_supply;
  protocol_0 = v.protocol_0;
  protocol_1 = v.protocol_1;
  fund_0 = v.fund_0;
  fund_1 = v.fund_1;
  open_time = v.open_time;
})
Update-IsSized (Update.status n f e) v = subst IsSized (sym e) (record {
  status = f;
  lp_supply = v.lp_supply;
  protocol_0 = v.protocol_0;
  protocol_1 = v.protocol_1;
  fund_0 = v.fund_0;
  fund_1 = v.fund_1;
  open_time = v.open_time;
})
Update-IsSized (Update.same e) v = subst IsSized (sym e) v

-- The accounts of the pool stay.
pub record SameAccounts (p p' : PoolState) : Type 0 where
  pub vault_0 : p'.token_0_vault ≡ p.token_0_vault
  pub vault_1 : p'.token_1_vault ≡ p.token_1_vault
  pub lp_mint : p'.lp_mint ≡ p.lp_mint
  pub mint_0 : p'.token_0_mint ≡ p.token_0_mint
  pub mint_1 : p'.token_1_mint ≡ p.token_1_mint

by_fields :
    {p : PoolState} (q : PoolState) {p' : PoolState} → p' ≡ q → SameAccounts p q → SameAccounts p p'
by_fields {p} q e v = subst (SameAccounts p) (sym e) v

pub SameAccounts-refl : (p : PoolState) → SameAccounts p p
SameAccounts-refl p = record {
  vault_0 = refl;
  vault_1 = refl;
  lp_mint = refl;
  mint_0 = refl;
  mint_1 = refl;
}

pub SameAccounts-trans :
    {p q r : PoolState} → SameAccounts p q → SameAccounts q r → SameAccounts p r
SameAccounts-trans v w = record {
  vault_0 = cc;
  vault_1 = cc;
  lp_mint = cc;
  mint_0 = cc;
  mint_1 = cc;
}

pub Update-SameAccounts : {p p' : PoolState} → Update p p' → SameAccounts p p'
Update-SameAccounts (Update.fees a b c d fa fb fc fd e) =
    by_fields _ e
      (record { vault_0 = refl; vault_1 = refl; lp_mint = refl; mint_0 = refl; mint_1 = refl })
Update-SameAccounts (Update.supply l f e) =
    by_fields _ e
      (record { vault_0 = refl; vault_1 = refl; lp_mint = refl; mint_0 = refl; mint_1 = refl })
Update-SameAccounts (Update.status n f e) =
    by_fields _ e
      (record { vault_0 = refl; vault_1 = refl; lp_mint = refl; mint_0 = refl; mint_1 = refl })
Update-SameAccounts {p} (Update.same e) = by_fields p e (SameAccounts-refl p)

pub sum_fits : (a b : ℕ) {c : ℕ} → unwrap (checked_add u64_mod a b) ≡ ok c → c < u64_mod
sum_fits a b h =
    let (e, fits) = checked_add-eq-ok u64_mod a b (unwrap-eq-ok (checked_add u64_mod a b) h) in
    omega (arith, e, fits)

pub accrue_fees-Update :
    (p : PoolState) (d : TradeDirection) (pf ff : ℕ) {q : PoolState}
    → accrue_fees p d pf ff ≡ ok q
    → Update p q
unfolding accrue_fees
accrue_fees-Update p zero_for_one pf ff h =
    >>=-elim (unwrap (checked_add u64_mod p.protocol_fees_token_0 pf)) _ h λ a e h.
      >>=-elim (unwrap (checked_add u64_mod p.fund_fees_token_0 ff)) _ h λ b k h.
        Update.fees a p.protocol_fees_token_1 b p.fund_fees_token_1 (inl (sum_fits _ _ e))
          (inr (omega arith)) (inl (sum_fits _ _ k)) (inr (omega arith)) (sym (ok-injective h))
accrue_fees-Update p one_for_zero pf ff h =
    >>=-elim (unwrap (checked_add u64_mod p.protocol_fees_token_1 pf)) _ h λ a e h.
      >>=-elim (unwrap (checked_add u64_mod p.fund_fees_token_1 ff)) _ h λ b k h.
        Update.fees p.protocol_fees_token_0 a p.fund_fees_token_0 b (inr (omega arith))
          (inl (sum_fits _ _ e)) (inr (omega arith)) (inl (sum_fits _ _ k)) (sym (ok-injective h))
