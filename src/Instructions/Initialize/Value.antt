-- ===== src/Instructions/Initialize/Value.antt =====
-- initialize.rs: the first reserves, the pool tokens that they are worth, and the opening.
use solana_dex.Base.{
  refl, ℕ, ◌+◌, ◌*◌, ◌≤◌, ◌<◌, ◌≡◌, ◌≢◌, Bool, true, false, not, ok, arith, code, guard,
  guard-eq-ok, >>=-elim, >>-elim, ok-injective, subst, subst₂, sym, ◌∙◌, ◌==◌, unwrap, unwrap-eq-ok,
  ok_or, ok_or-eq-ok, u128_mod, plus, checked_mul, checked_mul-eq-ok, checked_sub,
  checked_sub-eq-ok, try_u64, try_u64-eq-ok, empty_supply, not_support_mint, not_approved,
  init_lp_amount_too_less,
}
use solana_dex.Curve.Calculator.{validate_supply}
use solana_dex.States.Pool as Pool
use solana_dex.States.Pool.Reserves.{fees_0, fees_1}
use solana_dex.Token.Interface.{Spl, Clock}
use solana_dex.Token.Creation.{
  Creation, CreationLaws, create_token_account, create_token_account_supply,
}
use solana_dex.Token.{invoke, transfer_from_user_to_pool_vault, token_mint_to}
use solana_dex.Token.Laws.{Laws, transfer_from_user-some, token_mint_to-Minted}
use solana_dex.Instructions.Reserves.{Holds}
use solana_dex.Instructions.Initialize.{
  Seeds, InitializeAccounts, InitializeOutcome, check_initialize_accounts, opening, lock_lp_amount,
  both_supported, fund_vaults, initial_liquidity, initialize,
}

opening-later : (t now : ℕ) {o : ℕ} → opening t now ≡ ok o → (now < o) × (t ≤ o)
unfolding opening plus
opening-later t now h = ground arith

not-true : (b : Bool) → not b ≡ true → b ≡ false
not-true b h = ground arith

nonzero : (n : ℕ) → not (n == 0) ≡ true → 0 < n
nonzero n h = ground arith

validate_supply-eq-ok : (m n : ℕ) → validate_supply m n ≡ ok tt → (0 < m) × (0 < n)
unfolding validate_supply
validate_supply-eq-ok m n h =
    >>-elim (guard (not (m == 0)) (code empty_supply)) _ h
      λ e₁ e₂. (nonzero m (guard-eq-ok _ _ e₁), nonzero n (guard-eq-ok _ _ e₂))

-- What `integer_sqrt` of the `uint` crate documents: the root rounded down.
pub record IsSqrt (integer_sqrt : ℕ → ℕ) : Type 0 where
  pub below : (n : ℕ) → integer_sqrt n * integer_sqrt n ≤ n
  pub above : (n : ℕ) → n < (integer_sqrt n + 1) * (integer_sqrt n + 1)

-- The amounts of a pool that opens with `l` pool tokens.
pub record IsOpened (x y l : ℕ) : Type 0 where
  pub positive_0 : 0 < x
  pub positive_1 : 0 < y
  pub root_below : l * l ≤ x * y
  pub root_above : x * y < (l + 1) * (l + 1)

module _ {MintData FeeConfig Bank : Type 0} (spl : Spl MintData FeeConfig Bank)
    (creation : Creation Bank) (integer_sqrt : ℕ → ℕ) where
  initial_liquidity-IsOpened :
      (x y : ℕ) {l : ℕ}
      → IsSqrt integer_sqrt
      → initial_liquidity spl creation integer_sqrt x y ≡ ok l
      → IsOpened x y l
  unfolding initial_liquidity
  initial_liquidity-IsOpened x y {l} sqrt h = >>-elim (validate_supply x y) _ h λ e₁ h.
      >>=-elim (unwrap (checked_mul u128_mod x y)) _ h λ n e₂ h.
        let (pos_0, pos_1) = validate_supply-eq-ok x y e₁ in
        let product : n ≡ x * y =
          (checked_mul-eq-ok u128_mod x y (unwrap-eq-ok (checked_mul u128_mod x y) e₂)).0 in
        let root : l ≡ integer_sqrt n =
          (try_u64-eq-ok _ (unwrap-eq-ok (try_u64 (integer_sqrt n)) h)).0 in
        record {
          positive_0 = pos_0;
          positive_1 = pos_1;
          root_below = subst₂ (λ m k. m * m ≤ k) (sym root) product (sqrt.below n);
          root_above = subst₂ (λ m k. k < (m + 1) * (m + 1)) (sym root) product (sqrt.above n);
        }

  module _ (laws : Laws spl) (issues : CreationLaws spl creation) where
    fund_vaults_supply :
        (clock : Clock) (ctx : InitializeAccounts MintData) (bank : Bank) (n₀ n₁ : ℕ) {b : Bank}
        → ctx.creator_token_0 ≢ ctx.token_0_vault
        → ctx.creator_token_1 ≢ ctx.token_1_vault
        → fund_vaults spl creation integer_sqrt clock ctx bank n₀ n₁ ≡ ok b
        → spl.supply b ctx.lp_mint.key ≡ spl.supply bank ctx.lp_mint.key
    unfolding fund_vaults
    fund_vaults_supply clock ctx bank n₀ n₁ ne_0 ne_1 h =
        >>=-elim
          (invoke (
            creation.create_associated_token_account_idempotent bank ctx.creator
              ctx.creator_lp_token ctx.lp_mint.key ctx.token_program))
          _ h
          λ b₁ e₁ h.
            >>=-elim (create_token_account spl creation b₁ _ _ ctx.token_0_vault _ _) _ h λ b₂ e₂ h.
              >>=-elim (create_token_account spl creation b₂ _ _ ctx.token_1_vault _ _) _ h
                λ b₃ e₃ h.
                  >>=-elim (transfer_from_user_to_pool_vault spl b₃ _ _ _ _ _ _ n₀ _) _ h λ b₄ e₄ h.
                    let (_, in_0) =
                      transfer_from_user-some spl laws b₃ _ _ _ clock ctx.token_0_mint _ n₀ _ ne_0
                        e₄ in
                    let (_, in_1) =
                      transfer_from_user-some spl laws b₄ _ _ _ clock ctx.token_1_mint _ n₁ _ ne_1
                        h in
                    in_1.supplies ctx.lp_mint.key
                    ∙ (in_0.supplies ctx.lp_mint.key
                        ∙ (create_token_account_supply spl creation issues b₂ _ _ _ ctx.token_1_mint
                              _ ctx.lp_mint.key e₃
                            ∙ (create_token_account_supply spl creation issues b₁ _ _ _
                                  ctx.token_0_mint _ ctx.lp_mint.key e₂
                                ∙ issues.associated_supply bank _ _ _ _ ctx.lp_mint.key e₁)))

    module _ (seeds : Seeds) (clock : Clock) (ctx : InitializeAccounts MintData) (bank : Bank)
        (n₀ n₁ open_time : ℕ) where
      -- What the creation of a pool has established.
      pub record Opened (s : InitializeOutcome Bank) : Type 0 where
        pub reserve_0 : ℕ
        pub reserve_1 : ℕ
        pub held : Holds spl s.pool_state s.bank reserve_0 reserve_1
        pub no_fees_0 : fees_0 s.pool_state ≡ 0
        pub no_fees_1 : fees_1 s.pool_state ≡ 0
        pub opened : IsOpened reserve_0 reserve_1 s.pool_state.lp_supply
        pub locked :
            spl.supply s.bank s.pool_state.lp_mint + lock_lp_amount
            ≡ spl.supply bank ctx.lp_mint.key + s.pool_state.lp_supply
        pub later : clock.unix_timestamp < s.pool_state.open_time
        pub enabled : ctx.amm_config.disable_create_pool ≡ false

      -- Over token programs and account creation that keep their laws, and an integer root that is
      -- one, with the creator's accounts not the vaults: a pool that initialize creates holds
      -- reserves that are not empty and owes no fees, counts the root of their product rounded down
      -- as its pool tokens, of which all but the locked ones are issued, opens later than the block
      -- of its creation, and its configuration allows new pools.
      pub initialize-Opened :
          {s : InitializeOutcome Bank}
          → IsSqrt integer_sqrt
          → ctx.creator_token_0 ≢ ctx.token_0_vault
          → ctx.creator_token_1 ≢ ctx.token_1_vault
          → ctx.creator_lp_token ≢ ctx.token_0_vault
          → ctx.creator_lp_token ≢ ctx.token_1_vault
          → initialize spl creation integer_sqrt seeds clock ctx bank n₀ n₁ open_time ≡ ok s
          → Opened s
      unfolding initialize Pool.initialize
      initialize-Opened {s} sqrt ne_0 ne_1 lp_0 lp_1 h =
          >>-elim (check_initialize_accounts seeds ctx) _ h λ _ h.
            >>=-elim (both_supported spl creation integer_sqrt ctx.token_0_mint ctx.token_1_mint) _
              h
              λ supported _ h. >>-elim (guard supported (code not_support_mint)) _ h λ _ h.
                >>-elim (guard (not ctx.amm_config.disable_create_pool) (code not_approved)) _ h
                  λ e₁ h. >>=-elim (opening open_time clock.unix_timestamp) _ h λ o e₂ h.
                    >>=-elim (fund_vaults spl creation integer_sqrt clock ctx bank n₀ n₁) _ h
                      λ b₁ e₃ h.
                        >>=-elim (initial_liquidity spl creation integer_sqrt _ _) _ h λ l e₄ h.
                          >>=-elim (ok_or (checked_sub l lock_lp_amount) init_lp_amount_too_less) _
                            h
                            λ m e₅ h. >>=-elim (token_mint_to spl b₁ _ _ _ _ m) _ h λ b₂ e₆ h.
                              let minted = token_mint_to-Minted spl laws b₁ _ _ _ _ m e₆ in
                              subst Opened (ok-injective h) (record {
                                reserve_0 = spl.amount b₁ ctx.token_0_vault;
                                reserve_1 = spl.amount b₁ ctx.token_1_vault;
                                held = record {
                                  vault_0 =
                                      omega (
                                        arith,
                                        minted.others ctx.token_0_vault (λ e. lp_0 (sym e)),
                                      );
                                  vault_1 =
                                      omega (
                                        arith,
                                        minted.others ctx.token_1_vault (λ e. lp_1 (sym e)),
                                      );
                                };
                                no_fees_0 = refl;
                                no_fees_1 = refl;
                                opened =
                                    initial_liquidity-IsOpened (spl.amount b₁ ctx.token_0_vault)
                                      (spl.amount b₁ ctx.token_1_vault) sqrt e₄;
                                locked = omega (
                                  arith,
                                  minted.issued,
                                  fund_vaults_supply clock ctx bank n₀ n₁ ne_0 ne_1 e₃,
                                  checked_sub-eq-ok l lock_lp_amount (ok_or-eq-ok _ _ e₅),
                                );
                                later = (opening-later open_time clock.unix_timestamp e₂).0;
                                enabled = not-true _ (guard-eq-ok _ _ e₁);
                              })
