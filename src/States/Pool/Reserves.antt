-- ===== src/States/Pool/Reserves.antt =====
-- The reserves of states/pool.rs: the vaults less the fees that are set apart.
use solana_dex.Base.{
  ℕ, ◌+◌, ◌<◌, ◌≡◌, ok, arith, >>=-elim, ok-injective, subst, u64_mod, plus, plus-eq-ok,
  checked_sub, checked_sub-eq-ok, unwrap, unwrap-eq-ok,
}
use solana_dex.States.Pool.{PoolState, vault_amount_without_fee}

abbrev pub fees_0 : PoolState → ℕ
fees_0 p = p.protocol_fees_token_0 + p.fund_fees_token_0

abbrev pub fees_1 : PoolState → ℕ
fees_1 p = p.protocol_fees_token_1 + p.fund_fees_token_1

pub vault_amount_without_fee-eq-ok :
    (p : PoolState) (v₀ v₁ : ℕ) {r : ℕ × ℕ}
    → vault_amount_without_fee p v₀ v₁ ≡ ok r
    → (v₀ ≡ r.0 + fees_0 p) × (v₁ ≡ r.1 + fees_1 p)
unfolding vault_amount_without_fee
vault_amount_without_fee-eq-ok p v₀ v₁ {r} h =
    >>=-elim (plus u64_mod p.protocol_fees_token_0 p.fund_fees_token_0) _ h λ f₀ e₀ h.
      >>=-elim (unwrap (checked_sub v₀ f₀)) _ h λ a₀ s₀ h.
        >>=-elim (plus u64_mod p.protocol_fees_token_1 p.fund_fees_token_1) _ h λ f₁ e₁ h.
          >>=-elim (unwrap (checked_sub v₁ f₁)) _ h λ a₁ s₁ h.
            subst (λ (r : ℕ × ℕ). (v₀ ≡ r.0 + fees_0 p) × (v₁ ≡ r.1 + fees_1 p)) (ok-injective h)
              (
                omega (
                  arith,
                  checked_sub-eq-ok v₀ f₀ (unwrap-eq-ok (checked_sub v₀ f₀) s₀),
                  plus-eq-ok u64_mod _ _ e₀,
                ),
                omega (
                  arith,
                  checked_sub-eq-ok v₁ f₁ (unwrap-eq-ok (checked_sub v₁ f₁) s₁),
                  plus-eq-ok u64_mod _ _ e₁,
                ),
              )

pub vault_amount_without_fee_total :
    (p : PoolState) (v₀ v₁ x y : ℕ)
    → fees_0 p < u64_mod
    → fees_1 p < u64_mod
    → v₀ ≡ x + fees_0 p
    → v₁ ≡ y + fees_1 p
    → vault_amount_without_fee p v₀ v₁ ≡ ok (x, y)
unfolding vault_amount_without_fee plus checked_sub
vault_amount_without_fee_total p v₀ v₁ x y f₀ f₁ h₀ h₁ = ground arith
