-- ===== src/Instructions/Admin/Rates.antt =====
-- The configuration's rates under the administrator's instructions.
use solana_dex.Base.{
  ℕ, ◌≤◌, ◌<◌, ◌≡◌, List, ok, arith, code, invalid_owner, guard, guard-eq-ok, assert, >>=-elim,
  >>-elim, same-elim, sym, ok-injective, subst, refl, ltb, leb, ltb→lt, leb→le, ◌==◌, ==_iff,
  u64_mod, plus, plus-eq-ok,
}
use solana_dex.Keys.{Pubkey, admin}
use solana_dex.Curve.Fees.{fee_rate_denominator_value}
use solana_dex.States.Config.{AmmConfig, IsValid}
use solana_dex.Instructions.Admin.Changes.{Change, update_amm_config-Change}
use solana_dex.Instructions.Admin.{create_config_handler, create_amm_config, update_amm_config}

-- A create_amm_config that succeeds is signed by the administrator, names the account whose address
-- is derived from the index, sets the index and the three rates that are given, and these are in
-- their bounds: the trade fee is below one, and the shares of protocol and fund are at most one
-- together.
pub create_amm_config-IsValid :
    (derived : ℕ → Pubkey) (owner account : Pubkey) (bump index trade protocol fund : ℕ)
    {c : AmmConfig}
    → create_amm_config derived owner account bump index trade protocol fund ≡ ok c
    → IsValid c
      × (account ≡ derived index)
      × (owner ≡ admin)
      × (c.index ≡ index)
      × (c.trade_fee_rate ≡ trade)
      × (c.protocol_fee_rate ≡ protocol)
      × (c.fund_fee_rate ≡ fund)
unfolding create_amm_config create_config_handler
create_amm_config-IsValid derived owner account bump index trade protocol fund {c} h =
    same-elim account _ _ _ h λ e₀ h.
      >>-elim (guard (owner == admin) (code invalid_owner)) _ h λ e₁ h.
        >>-elim (assert (ltb trade fee_rate_denominator_value)) _ h λ e₂ h.
          >>-elim (assert (leb protocol fee_rate_denominator_value)) _ h λ _ h.
            >>-elim (assert (leb fund fee_rate_denominator_value)) _ h λ _ h.
              >>=-elim (plus u64_mod fund protocol) _ h λ n e₃ h.
                >>-elim (assert (leb n fee_rate_denominator_value)) _ h λ e₄ h.
                  let below : trade < fee_rate_denominator_value =
                    ltb→lt _ _ (guard-eq-ok _ _ e₂) in
                  let most : n ≤ fee_rate_denominator_value = leb→le _ _ (guard-eq-ok _ _ e₄) in
                  let sum = plus-eq-ok u64_mod fund protocol e₃ in
                  subst
                    (λ (c : AmmConfig).
                      IsValid c
                      × (account ≡ derived index)
                      × (owner ≡ admin)
                      × (c.index ≡ index)
                      × (c.trade_fee_rate ≡ trade)
                      × (c.protocol_fee_rate ≡ protocol)
                      × (c.fund_fee_rate ≡ fund))
                    (ok-injective h)
                    (
                      record {
                        trade_below_one = below;
                        shares_at_most_one = omega (arith, sum, most);
                      },
                      e₀,
                      (==_iff _ _).0 (guard-eq-ok _ _ e₁),
                      refl,
                      refl,
                      refl,
                      refl,
                    )

-- Whatever a change sets, the rates stay in their bounds.
Change-IsValid :
    (c : AmmConfig) (keys : List Pubkey) (v : ℕ) {c' : AmmConfig} {p : ℕ}
    → IsValid c
    → Change c keys v c' p
    → IsValid c'
Change-IsValid c keys v valid (Change.trade_rate below e) =
    subst IsValid (sym e)
      (record { trade_below_one = below; shares_at_most_one = valid.shares_at_most_one })
Change-IsValid c keys v valid (Change.protocol_rate most e) =
    subst IsValid (sym e)
      (record { trade_below_one = valid.trade_below_one; shares_at_most_one = most })
Change-IsValid c keys v valid (Change.fund_rate most e) =
    subst IsValid (sym e)
      (record { trade_below_one = valid.trade_below_one; shares_at_most_one = omega (arith, most) })
Change-IsValid c keys v valid (Change.protocol_owner k rest has ne e) =
    subst IsValid (sym e) (record {
      trade_below_one = valid.trade_below_one;
      shares_at_most_one = valid.shares_at_most_one;
    })
Change-IsValid c keys v valid (Change.fund_owner k rest has ne e) = subst IsValid (sym e) (record {
  trade_below_one = valid.trade_below_one;
  shares_at_most_one = valid.shares_at_most_one;
})
Change-IsValid c keys v valid (Change.creation e) = subst IsValid (sym e) (record {
  trade_below_one = valid.trade_below_one;
  shares_at_most_one = valid.shares_at_most_one;
})

-- From a configuration whose rates are in their bounds, an update_amm_config that succeeds is
-- signed by the administrator and leaves the rates in their bounds; it has one of the parameters 0
-- to 5 and sets the one field that this parameter names, to the value, to the first of the further
-- keys, which is not the default key, or to whether the value is not zero.
pub update_amm_config-IsValid :
    (c : AmmConfig) (valid : IsValid c) (owner : Pubkey) (keys : List Pubkey) (p v : ℕ)
    {c' : AmmConfig}
    → update_amm_config owner c keys p v ≡ ok c'
    → IsValid c' × (owner ≡ admin) × Change c keys v c' p
unfolding update_amm_config
update_amm_config-IsValid c valid owner keys p v h =
    let change = update_amm_config-Change owner c keys p v h in
    (
      Change-IsValid c keys v valid change,
      same-elim owner admin (code invalid_owner) _ h λ e _. e,
      change,
    )
