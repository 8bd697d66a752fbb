-- ===== src/Instructions/Admin/Changes.antt =====
-- What an update of the configuration changes, parameter by parameter: update_config.rs.
use solana_dex.Base.{
  ℕ, ◌≤◌, ◌<◌, ◌+◌, ◌≡◌, ◌≢◌, inl, inr, not, List, [], ◌∷◌, ok, arith, code, anchor, true,
  require_keys_neq_violated, invalid_owner, guard, guard-eq-ok, assert, >>=-elim, >>-elim,
  ok-injective, sym, subst, refl, ltb, leb, ltb→lt, leb→le, ◌==◌, ==_iff, if-cases, u64_mod, plus,
  plus-eq-ok,
}
use solana_dex.Keys.{Pubkey, admin, default_key}
use solana_dex.Curve.Fees.{fee_rate_denominator_value}
use solana_dex.States.Config.{AmmConfig}
use solana_dex.Instructions.Admin.{
  update_protocol_fee_rate, update_trade_fee_rate, update_fund_fee_rate, set_new_protocol_owner,
  set_new_fund_owner, first_key, update_param, update_amm_config,
}

-- The one field that each parameter sets, to what, and the bound that the new value keeps.
pub data Change (c : AmmConfig) (keys : List Pubkey) (v : ℕ) (c' : AmmConfig) : ℕ → Type 0 where
  trade_rate :
      v < fee_rate_denominator_value → c' ≡ record c { trade_fee_rate = v } → Change c keys v c' 0
  protocol_rate :
      v + c.fund_fee_rate ≤ fee_rate_denominator_value
      → c' ≡ record c { protocol_fee_rate = v }
      → Change c keys v c' 1
  fund_rate :
      v + c.protocol_fee_rate ≤ fee_rate_denominator_value
      → c' ≡ record c { fund_fee_rate = v }
      → Change c keys v c' 2
  protocol_owner :
      (k : Pubkey) (rest : List Pubkey)
      → keys ≡ k ∷ rest
      → k ≢ default_key
      → c' ≡ record c { protocol_owner = k }
      → Change c keys v c' 3
  fund_owner :
      (k : Pubkey) (rest : List Pubkey)
      → keys ≡ k ∷ rest
      → k ≢ default_key
      → c' ≡ record c { fund_owner = k }
      → Change c keys v c' 4
  creation : c' ≡ record c { disable_create_pool = not (v == 0) } → Change c keys v c' 5

first_key-eq-ok :
    (keys : List Pubkey) {k : Pubkey}
    → first_key keys ≡ ok k
    → (rest : List Pubkey) × (keys ≡ k ∷ rest)
unfolding first_key
first_key-eq-ok [] h = cc
first_key-eq-ok (k ∷ rest) h = (rest, subst (λ z. k ∷ rest ≡ z ∷ rest) (ok-injective h) refl)

different : (j k : Pubkey) → not (j == k) ≡ true → j ≢ k
different j k h = ground arith

module _ (c : AmmConfig) (keys : List Pubkey) (v : ℕ) {c' : AmmConfig} where
  trade_change : update_trade_fee_rate c v ≡ ok c' → Change c keys v c' 0
  unfolding update_trade_fee_rate
  trade_change h =
      >>-elim (assert (ltb v fee_rate_denominator_value)) _ h
        λ e h. Change.trade_rate (ltb→lt _ _ (guard-eq-ok _ _ e)) (sym (ok-injective h))

  protocol_change : update_protocol_fee_rate c v ≡ ok c' → Change c keys v c' 1
  unfolding update_protocol_fee_rate
  protocol_change h = >>-elim (assert (leb v fee_rate_denominator_value)) _ h λ _ h.
      >>=-elim (plus u64_mod v c.fund_fee_rate) _ h λ n e₁ h.
        >>-elim (assert (leb n fee_rate_denominator_value)) _ h λ e₂ h.
          let most : n ≤ fee_rate_denominator_value = leb→le _ _ (guard-eq-ok _ _ e₂) in
          Change.protocol_rate (omega (arith, plus-eq-ok u64_mod v c.fund_fee_rate e₁, most))
            (sym (ok-injective h))

  fund_change : update_fund_fee_rate c v ≡ ok c' → Change c keys v c' 2
  unfolding update_fund_fee_rate
  fund_change h = >>-elim (assert (leb v fee_rate_denominator_value)) _ h λ _ h.
      >>=-elim (plus u64_mod v c.protocol_fee_rate) _ h λ n e₁ h.
        >>-elim (assert (leb n fee_rate_denominator_value)) _ h λ e₂ h.
          let most : n ≤ fee_rate_denominator_value = leb→le _ _ (guard-eq-ok _ _ e₂) in
          Change.fund_rate (omega (arith, plus-eq-ok u64_mod v c.protocol_fee_rate e₁, most))
            (sym (ok-injective h))

  protocol_owner_change :
      (k : Pubkey)
      → first_key keys ≡ ok k
      → set_new_protocol_owner c k ≡ ok c'
      → Change c keys v c' 3
  unfolding set_new_protocol_owner
  protocol_owner_change k e h =
      >>-elim (guard (not (k == default_key)) (anchor require_keys_neq_violated)) _ h λ ne h.
        let (rest, has) = first_key-eq-ok keys e in
        Change.protocol_owner k rest has (different _ _ (guard-eq-ok _ _ ne)) (sym (ok-injective h))

  fund_owner_change :
      (k : Pubkey) → first_key keys ≡ ok k → set_new_fund_owner c k ≡ ok c' → Change c keys v c' 4
  unfolding set_new_fund_owner
  fund_owner_change k e h =
      >>-elim (guard (not (k == default_key)) (anchor require_keys_neq_violated)) _ h λ ne h.
        let (rest, has) = first_key-eq-ok keys e in
        Change.fund_owner k rest has (different _ _ (guard-eq-ok _ _ ne)) (sym (ok-injective h))

  -- For a parameter that is known by its equation.
  at : (p n : ℕ) → (p == n) ≡ true → Change c keys v c' n → Change c keys v c' p
  at p n e = subst (Change c keys v c') (sym ((==_iff p n).0 e))

  update_param-Change : (p : ℕ) → update_param c keys p v ≡ ok c' → Change c keys v c' p
  unfolding update_param
  update_param-Change p h = elim (if-cases (p == 0) _ _ h) [
    | inl (e, h) ↦ at p 0 e (trade_change h)
    | inr (_, h) ↦ elim (if-cases (p == 1) _ _ h) [
      | inl (e, h) ↦ at p 1 e (protocol_change h)
      | inr (_, h) ↦ elim (if-cases (p == 2) _ _ h) [
        | inl (e, h) ↦ at p 2 e (fund_change h)
        | inr (_, h) ↦ elim (if-cases (p == 3) _ _ h) [
          | inl (e, h) ↦
              >>=-elim (first_key keys) _ h λ k f h. at p 3 e (protocol_owner_change k f h)
          | inr (_, h) ↦ elim (if-cases (p == 4) _ _ h) [
            | inl (e, h) ↦ >>=-elim (first_key keys) _ h λ k f h. at p 4 e (fund_owner_change k f h)
            | inr (_, h) ↦ elim (if-cases (p == 5) _ _ h) [
              | inl (e, h) ↦ at p 5 e (Change.creation (sym (ok-injective h)))
              | inr (_, h) ↦ absurd (cc)
            ]
          ]
        ]
      ]
    ]
  ]

-- The same of the whole instruction.
pub update_amm_config-Change :
    (owner : Pubkey) (c : AmmConfig) (keys : List Pubkey) (p v : ℕ) {c' : AmmConfig}
    → update_amm_config owner c keys p v ≡ ok c'
    → Change c keys v c' p
unfolding update_amm_config
update_amm_config-Change owner c keys p v h =
    >>-elim (guard (owner == admin) (code invalid_owner)) _ h
      λ _ h. update_param-Change c keys v p h
