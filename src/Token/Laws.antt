-- ===== src/Token/Laws.antt =====
-- What the instructions rely on of the token programs, as the programs document it, and what
-- follows for the wrappers of utils/token.rs.
use solana_dex.Base.{
  ℕ, ◌+◌, ◌≤◌, ◌≡◌, ◌≢◌, Option, none, some, ok, arith, ok-injective, ◌==◌, if-cases, if◌then◌else◌,
  inl, inr, refl, sym, subst, ==_iff,
}
use solana_dex.Keys.{Pubkey}
use solana_dex.Token.Interface.{Spl, MintAccount, Clock}
use solana_dex.Token.{
  get_transfer_fee, get_transfer_inverse_fee, transfer_from_user_to_pool_vault,
  transfer_from_pool_vault_to_user, token_mint_to, token_burn, invoke,
}

module _ {MintData FeeConfig Bank : Type 0} (spl : Spl MintData FeeConfig Bank) where
  -- A transfer of `n` from `s` to `d` between different accounts, of which the mint withholds `f`.
  pub record Moved (b b' : Bank) (s d : Pubkey) (n f : ℕ) : Type 0 where
    pub debited : spl.amount b s ≡ spl.amount b' s + n
    pub credited : spl.amount b' d + f ≡ spl.amount b d + n
    pub others : (k : Pubkey) → k ≢ s → k ≢ d → spl.amount b' k ≡ spl.amount b k
    pub supplies : (m : Pubkey) → spl.supply b' m ≡ spl.supply b m

  -- Minting and burning change one account and the supply by the amount, and nothing else.
  pub record Minted (b b' : Bank) (m d : Pubkey) (n : ℕ) : Type 0 where
    pub credited : spl.amount b' d ≡ spl.amount b d + n
    pub issued : spl.supply b' m ≡ spl.supply b m + n
    pub others : (k : Pubkey) → k ≢ d → spl.amount b' k ≡ spl.amount b k
    pub other_supplies : (k : Pubkey) → k ≢ m → spl.supply b' k ≡ spl.supply b k

  pub record Burned (b b' : Bank) (m s : Pubkey) (n : ℕ) : Type 0 where
    pub debited : spl.amount b s ≡ spl.amount b' s + n
    pub retired : spl.supply b m ≡ spl.supply b' m + n
    pub others : (k : Pubkey) → k ≢ s → spl.amount b' k ≡ spl.amount b k
    pub other_supplies : (k : Pubkey) → k ≢ m → spl.supply b' k ≡ spl.supply b k

  pub record Laws : Type 0 where
    -- the fee that is withheld is the one that the fee query tells, and it is within the amount
    pub transfer_moves :
        (b b' : Bank) (c : Clock) (p a s d : Pubkey) (m : MintAccount MintData) (n k f : ℕ)
        → s ≢ d
        → spl.transfer_checked b c p a s d m n k ≡ some b'
        → get_transfer_fee spl c m n ≡ ok f
        → Moved b b' s d n f
    -- a transfer that succeeds has read its mint, and so does the fee query
    pub fee_known :
        (b b' : Bank) (c : Clock) (p a s d : Pubkey) (m : MintAccount MintData) (n k : ℕ)
        → spl.transfer_checked b c p a s d m n k ≡ some b'
        → (f : ℕ) × (get_transfer_fee spl c m n ≡ ok f)
    pub fee_within :
        (c : Clock) (m : MintAccount MintData) (n f : ℕ) → get_transfer_fee spl c m n ≡ ok f → f ≤ n
    -- the fee that the inverse query adds covers the fee that is withheld
    pub inverse_covers :
        (c : Clock) (m : MintAccount MintData) (n i : ℕ)
        → get_transfer_inverse_fee spl c m n ≡ ok i
        → (f : ℕ) × (get_transfer_fee spl c m (n + i) ≡ ok f) × (f ≤ i)
    pub mint_issues :
        (b b' : Bank) (p a m d : Pubkey) (n : ℕ)
        → spl.mint_to b p a m d n ≡ some b'
        → Minted b b' m d n
    pub burn_retires :
        (b b' : Bank) (p a m s : Pubkey) (n : ℕ)
        → spl.burn b p a m s n ≡ some b'
        → Burned b b' m s n

  unmoved : (b : Bank) (s d : Pubkey) (f : ℕ) → f ≤ 0 → Moved b b s d 0 f
  unmoved b s d f h = record {
    debited = omega arith;
    credited = omega arith;
    others = λ k _ _. refl;
    supplies = λ m. refl;
  }

  invoke-eq-ok : (m : Option Bank) {b : Bank} → invoke m ≡ ok b → m ≡ some b
  invoke-eq-ok none h = cc
  invoke-eq-ok (some b) h = cc

  -- The inverse query answers for an amount of zero only where there is no fee.
  pub inverse_fee_of_zero :
      (c : Clock) (m : MintAccount MintData) (n i : ℕ)
      → n ≡ 0
      → get_transfer_inverse_fee spl c m n ≡ ok i
      → i ≡ 0
  unfolding get_transfer_inverse_fee
  inverse_fee_of_zero c m n i z h = ground arith

  module _ (laws : Laws) where
    -- Both wrappers skip the call for an amount of zero, which moves nothing.
    moves :
        (b : Bank) (c : Clock) (p a s d : Pubkey) (m : MintAccount MintData) (n k f : ℕ) {b' : Bank}
        → s ≢ d
        → (if n == 0 then ok b else invoke (spl.transfer_checked b c p a s d m n k)) ≡ ok b'
        → get_transfer_fee spl c m n ≡ ok f
        → Moved b b' s d n f
    moves b c p a s d m n k f {b'} ne h e = elim (if-cases (n == 0) _ _ h) [
      | inl (z, same) ↦
          let n_zero : n ≡ 0 = (==_iff n 0).0 z in
          let none_withheld : f ≤ 0 = omega (arith, laws.fee_within c m n f e) in
          subst (λ x. Moved b x s d n f) (ok-injective same)
            (subst (λ x. Moved b b s d x f) (sym n_zero) (unmoved b s d f none_withheld))
      | inr (z, call) ↦ laws.transfer_moves b b' c p a s d m n k f ne (invoke-eq-ok _ call) e
    ]

    pub transfer_from_user-Moved :
        (b : Bank) (a s d : Pubkey) (c : Clock) (m : MintAccount MintData) (p : Pubkey) (n k f : ℕ)
        {b' : Bank}
        → s ≢ d
        → transfer_from_user_to_pool_vault spl b a s d c m p n k ≡ ok b'
        → get_transfer_fee spl c m n ≡ ok f
        → Moved b b' s d n f
    unfolding transfer_from_user_to_pool_vault
    transfer_from_user-Moved b a s d c m p n k f = moves b c p a s d m n k f

    pub transfer_from_vault-Moved :
        (b : Bank) (a s d : Pubkey) (c : Clock) (m : MintAccount MintData) (p : Pubkey) (n k f : ℕ)
        {b' : Bank}
        → s ≢ d
        → transfer_from_pool_vault_to_user spl b a s d c m p n k ≡ ok b'
        → get_transfer_fee spl c m n ≡ ok f
        → Moved b b' s d n f
    unfolding transfer_from_pool_vault_to_user
    transfer_from_vault-Moved b a s d c m p n k f = moves b c p a s d m n k f

    -- The same where the code does not ask for the fee.
    moves_some :
        (b : Bank) (c : Clock) (p a s d : Pubkey) (m : MintAccount MintData) (n k : ℕ) {b' : Bank}
        → s ≢ d
        → (if n == 0 then ok b else invoke (spl.transfer_checked b c p a s d m n k)) ≡ ok b'
        → (f : ℕ) × Moved b b' s d n f
    moves_some b c p a s d m n k {b'} ne h = elim (if-cases (n == 0) _ _ h) [
      | inl (z, same) ↦
          let n_zero : n ≡ 0 = (==_iff n 0).0 z in
          (
            0,
            subst (λ x. Moved b x s d n 0) (ok-injective same)
                (subst (λ x. Moved b b s d x 0) (sym n_zero) (unmoved b s d 0 (omega arith))),
          )
      | inr (_, call) ↦
          let (f, e) = laws.fee_known b b' c p a s d m n k (invoke-eq-ok _ call) in
          (f, laws.transfer_moves b b' c p a s d m n k f ne (invoke-eq-ok _ call) e)
    ]

    pub transfer_from_vault-some :
        (b : Bank) (a s d : Pubkey) (c : Clock) (m : MintAccount MintData) (p : Pubkey) (n k : ℕ)
        {b' : Bank}
        → s ≢ d
        → transfer_from_pool_vault_to_user spl b a s d c m p n k ≡ ok b'
        → (f : ℕ) × Moved b b' s d n f
    unfolding transfer_from_pool_vault_to_user
    transfer_from_vault-some b a s d c m p n k = moves_some b c p a s d m n k

    pub transfer_from_user-some :
        (b : Bank) (a s d : Pubkey) (c : Clock) (m : MintAccount MintData) (p : Pubkey) (n k : ℕ)
        {b' : Bank}
        → s ≢ d
        → transfer_from_user_to_pool_vault spl b a s d c m p n k ≡ ok b'
        → (f : ℕ) × Moved b b' s d n f
    unfolding transfer_from_user_to_pool_vault
    transfer_from_user-some b a s d c m p n k = moves_some b c p a s d m n k

    pub token_mint_to-Minted :
        (b : Bank) (a p m d : Pubkey) (n : ℕ) {b' : Bank}
        → token_mint_to spl b a p m d n ≡ ok b'
        → Minted b b' m d n
    unfolding token_mint_to
    token_mint_to-Minted b a p m d n h = laws.mint_issues b _ p a m d n (invoke-eq-ok _ h)

    pub token_burn-Burned :
        (b : Bank) (a p m s : Pubkey) (n : ℕ) {b' : Bank}
        → token_burn spl b a p m s n ≡ ok b'
        → Burned b b' m s n
    unfolding token_burn
    token_burn-Burned b a p m s n h = laws.burn_retires b _ p a m s n (invoke-eq-ok _ h)
