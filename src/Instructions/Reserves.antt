-- ===== src/Instructions/Reserves.antt =====
-- The reserves that belong to the pool tokens: what is in the vaults beyond the fees set apart.
use solana_dex.Base.{ℕ, ◌+◌, ◌*◌, ◌≤◌, ◌⊎◌, ◌≡◌, subst, sym}
use solana_dex.Keys.{Pubkey}
use solana_dex.States.Pool.{PoolState}
use solana_dex.States.Pool.Reserves.{fees_0, fees_1}
use solana_dex.Token.Interface.{Spl}

module _ {MintData FeeConfig Bank : Type 0} (spl : Spl MintData FeeConfig Bank) where
  -- The vaults hold the fees set apart and the reserves `x` and `y` besides.
  pub record Holds (p : PoolState) (b : Bank) (x y : ℕ) : Type 0 where
    pub vault_0 : spl.amount b p.token_0_vault ≡ x + fees_0 p
    pub vault_1 : spl.amount b p.token_1_vault ≡ y + fees_1 p

  -- The reserves before and after an exchange, with their products: one of them does not fall and
  -- the other does not rise.
  pub record Exchanged (p p' : PoolState) (b b' : Bank) (k k' : ℕ) : Type 0 where
    pub x₀ : ℕ
    pub y₀ : ℕ
    pub x₁ : ℕ
    pub y₁ : ℕ
    pub before : Holds p b x₀ y₀
    pub after : Holds p' b' x₁ y₁
    pub product_before : x₀ * y₀ ≡ k
    pub product_after : x₁ * y₁ ≡ k'
    pub one_way : ((x₀ ≤ x₁) × (y₁ ≤ y₀)) ⊎ ((x₁ ≤ x₀) × (y₀ ≤ y₁))

  -- The vaults by the keys of their accounts.
  pub vault_0_of :
      {p : PoolState} {b : Bank} {x y : ℕ} (k : Pubkey)
      → k ≡ p.token_0_vault
      → Holds p b x y
      → spl.amount b k ≡ x + fees_0 p
  vault_0_of {p} {b} {x} k e v = subst (λ j. spl.amount b j ≡ x + fees_0 p) (sym e) v.vault_0

  pub vault_1_of :
      {p : PoolState} {b : Bank} {x y : ℕ} (k : Pubkey)
      → k ≡ p.token_1_vault
      → Holds p b x y
      → spl.amount b k ≡ y + fees_1 p
  vault_1_of {p} {b} {y = y} k e v = subst (λ j. spl.amount b j ≡ y + fees_1 p) (sym e) v.vault_1

  pub of_vaults :
      {p : PoolState} {b : Bank} {x y : ℕ} (k₀ k₁ : Pubkey)
      → k₀ ≡ p.token_0_vault
      → k₁ ≡ p.token_1_vault
      → spl.amount b k₀ ≡ x + fees_0 p
      → spl.amount b k₁ ≡ y + fees_1 p
      → Holds p b x y
  of_vaults {p} {b} {x} {y} k₀ k₁ e₀ e₁ h₀ h₁ = record {
    vault_0 = subst (λ j. spl.amount b j ≡ x + fees_0 p) e₀ h₀;
    vault_1 = subst (λ j. spl.amount b j ≡ y + fees_1 p) e₁ h₁;
  }
