-- ===== src/Instructions/Admin/CollectRun.antt =====
-- collect_protocol_fee.rs and collect_fund_fee.rs: what the checks and the amounts establish.
use solana_dex.Base.{
  ℕ, ◌+◌, ◌≡◌, ◌≢◌, ◌⊎◌, inl, inr, Bool, true, ◌||◌, min, ok, arith, code, anchor, invalid_owner,
  constraint_seeds, constraint_address, constraint_raw, guard, guard-eq-ok, >>=-elim, >>-elim,
  ok-injective, subst, refl, ◌==◌, ==_iff, unwrap, unwrap-eq-ok, checked_sub, checked_sub-eq-ok,
}
use solana_dex.Keys.{Pubkey, admin}
use solana_dex.Instructions.Admin.Collect.{CollectAccounts, check_collect_accounts, take_fees}

or_cases : (a b : Bool) → (a || b) ≡ true → (a ≡ true) ⊎ (b ≡ true)
or_cases a b h = ground arith

-- The recipients' accounts and the vaults are different accounts.
pub record SeparateCollect {MintData : Type 0} (ctx : CollectAccounts MintData) : Type 0 where
  pub vaults : ctx.token_0_vault ≢ ctx.token_1_vault
  pub vault_0_recipient_0 : ctx.token_0_vault ≢ ctx.recipient_token_0_account
  pub vault_0_recipient_1 : ctx.token_0_vault ≢ ctx.recipient_token_1_account
  pub vault_1_recipient_0 : ctx.token_1_vault ≢ ctx.recipient_token_0_account
  pub vault_1_recipient_1 : ctx.token_1_vault ≢ ctx.recipient_token_1_account

pub check_collect_accounts-eq-ok :
    {MintData : Type 0} (pda owner : Pubkey) (ctx : CollectAccounts MintData)
    → check_collect_accounts pda owner ctx ≡ ok tt
    → ((ctx.owner ≡ owner) ⊎ (ctx.owner ≡ admin))
      × (ctx.token_0_vault ≡ ctx.pool_state.token_0_vault)
      × (ctx.token_1_vault ≡ ctx.pool_state.token_1_vault)
unfolding check_collect_accounts
check_collect_accounts-eq-ok pda owner ctx h =
    >>-elim (guard (ctx.owner == owner || ctx.owner == admin) (code invalid_owner)) _ h λ o h.
      >>-elim (guard (ctx.authority == pda) (anchor constraint_seeds)) _ h λ _ h.
        >>-elim
          (guard (ctx.amm_config_key == ctx.pool_state.amm_config) (anchor constraint_address)) _ h
          λ _ h. >>-elim (guard (ctx.token_0_vault == _) (anchor constraint_raw)) _ h λ a h.
            >>-elim (guard (ctx.token_1_vault == _) (anchor constraint_raw)) _ h λ b _.
              let who = or_cases _ _ (guard-eq-ok _ _ o) in
              (
                elim who [ inl e ↦ inl ((==_iff _ _).0 e) | inr e ↦ inr ((==_iff _ _).0 e) ],
                (==_iff _ _).0 (guard-eq-ok _ _ a),
                (==_iff _ _).0 (guard-eq-ok _ _ b),
              )

-- The amounts are what is requested, at most what is owed, and they are taken off what is owed.
pub record Taken (r₀ r₁ f₀ f₁ a₀ a₁ l₀ l₁ : ℕ) : Type 0 where
  pub amount_0 : a₀ ≡ min r₀ f₀
  pub amount_1 : a₁ ≡ min r₁ f₁
  pub left_0 : f₀ ≡ a₀ + l₀
  pub left_1 : f₁ ≡ a₁ + l₁

pub take_fees-Taken :
    (r₀ r₁ f₀ f₁ : ℕ) {t : ℕ × ℕ × ℕ × ℕ}
    → take_fees r₀ r₁ f₀ f₁ ≡ ok t
    → Taken r₀ r₁ f₀ f₁ t.0 t.1 t.2 t.3
unfolding take_fees
take_fees-Taken r₀ r₁ f₀ f₁ h = >>=-elim (unwrap (checked_sub f₀ (min r₀ f₀))) _ h λ a e₁ h.
    >>=-elim (unwrap (checked_sub f₁ (min r₁ f₁))) _ h λ b e₂ h.
      subst (λ (t : ℕ × ℕ × ℕ × ℕ). Taken r₀ r₁ f₀ f₁ t.0 t.1 t.2 t.3) (ok-injective h)
        (record {
          amount_0 = refl;
          amount_1 = refl;
          left_0 = (checked_sub-eq-ok f₀ (min r₀ f₀) (unwrap-eq-ok _ e₁)).0;
          left_1 = (checked_sub-eq-ok f₁ (min r₁ f₁) (unwrap-eq-ok _ e₂)).0;
        })

-- A vault of which `a` of the fees `f` is paid, with the other fees `g` and the reserve `x`.
pub fees_left : (v v' x f g a l : ℕ) → f ≡ a + l → v ≡ x + (f + g) → v ≡ v' + a → v' ≡ x + (l + g)
fees_left v v' x f g a l hf hv hp = omega arith

pub fees_left_second :
    (v v' x f g a l : ℕ) → f ≡ a + l → v ≡ x + (g + f) → v ≡ v' + a → v' ≡ x + (g + l)
fees_left_second v v' x f g a l hf hv hp = omega arith
