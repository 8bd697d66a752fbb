-- ===== src/Instructions/Swap/Settlement.antt =====
-- What the common part of the two swap handlers does to the reserves.
use solana_dex.Base.{
  ℕ, ◌+◌, ◌-◌, ◌*◌, ◌≤◌, ◌≡◌, ◌≢◌, inl, inr, Bool, ok, arith, >>=-elim, ok-injective, subst, subst₂,
  sym, refl, unwrap, unwrap-eq-ok, try_u64, try_u64-eq-ok, ◌∙◌,
}
use native.Mathlib.Nat.{mul_comm}
use solana_dex.States.Pool.Reserves.{fees_0, fees_1}
use solana_dex.States.Oracle.{update}
use solana_dex.Token.Interface.{Spl, Clock}
use solana_dex.Token.{
  get_transfer_fee, transfer_from_user_to_pool_vault, transfer_from_pool_vault_to_user,
}
use solana_dex.Token.Laws.{Laws, Moved, transfer_from_user-Moved, transfer_from_vault-Moved}
use solana_dex.Instructions.Reserves.{Exchanged}
use solana_dex.Instructions.Swap.{
  SwapAccounts, Quote, SwapOutcome, accrue_fees, vault_prices, settle,
}
use solana_dex.Instructions.Swap.Sides.{Directions, Accrued, accrue_fees-Accrued}

-- The user's token accounts and the vaults are different accounts.
pub record Separate {MintData : Type 0} (ctx : SwapAccounts MintData) : Type 0 where
  pub vaults : ctx.input_vault ≢ ctx.output_vault
  pub input_input : ctx.input_token_account ≢ ctx.input_vault
  pub input_output : ctx.input_token_account ≢ ctx.output_vault
  pub output_input : ctx.output_token_account ≢ ctx.input_vault
  pub output_output : ctx.output_token_account ≢ ctx.output_vault

module _ {MintData FeeConfig Bank : Type 0} (spl : Spl MintData FeeConfig Bank) (laws : Laws spl)
    (clock : Clock) (ctx : SwapAccounts MintData) (bank : Bank) (base_input : Bool)
    (q : Quote) where
  -- What the settlement of a quote has done; `f` and `g` are the fees that the mints withhold.
  pub record Settled (f g : ℕ) (s : SwapOutcome Bank) : Type 0 where
    pub accrued :
        Accrued ctx.pool_state s.pool_state q.trade_direction
          (q.result.protocol_fee + q.result.fund_fee)
    pub paid : Bank
    pub pay_in :
        Moved spl bank paid ctx.input_token_account ctx.input_vault q.input_transfer_amount f
    pub pay_out :
        Moved spl paid s.bank ctx.output_vault ctx.output_token_account q.output_transfer_amount g
    pub price_0 : ℕ
    pub price_1 : ℕ
    pub observed :
        update ctx.observation_state clock.unix_timestamp price_0 price_1 ≡ ok s.observation_state

  pub settle-Settled :
      (f g : ℕ) {s : SwapOutcome Bank}
      → Separate ctx
      → get_transfer_fee spl clock ctx.input_token_mint q.input_transfer_amount ≡ ok f
      → get_transfer_fee spl clock ctx.output_token_mint q.output_transfer_amount ≡ ok g
      → settle spl clock ctx bank base_input q ≡ ok s
      → Settled f g s
  unfolding settle
  settle-Settled f g sep hf hg h = >>=-elim (unwrap (try_u64 q.result.protocol_fee)) _ h λ pf e₁ h.
      >>=-elim (unwrap (try_u64 q.result.fund_fee)) _ h λ ff e₂ h.
        >>=-elim (accrue_fees ctx.pool_state q.trade_direction pf ff) _ h λ pool e₃ h.
          >>=-elim (unwrap (try_u64 q.result.source_amount_swapped)) _ h λ ia _ h.
            >>=-elim (unwrap (try_u64 q.result.destination_amount_swapped)) _ h λ oa _ h.
              >>=-elim (transfer_from_user_to_pool_vault spl bank _ _ _ _ _ _ _ _) _ h λ paid e₄ h.
                >>=-elim (transfer_from_pool_vault_to_user spl paid _ _ _ _ _ _ _ _) _ h
                  λ done e₅ h.
                    >>=-elim (vault_prices pool ctx.input_vault ctx.output_vault _ _) _ h
                      λ prices _ h.
                        >>=-elim
                          (update ctx.observation_state clock.unix_timestamp prices.0 prices.1) _ h
                          λ obs e₆ h.
                            let (same_pf, _) =
                              try_u64-eq-ok _ (unwrap-eq-ok (try_u64 q.result.protocol_fee) e₁) in
                            let (same_ff, _) =
                              try_u64-eq-ok _ (unwrap-eq-ok (try_u64 q.result.fund_fee) e₂) in
                            let booked =
                              accrue_fees-Accrued ctx.pool_state q.trade_direction pf ff e₃ in
                            subst (Settled f g) (ok-injective h) (record {
                              accrued =
                                  subst₂
                                    (λ m n. Accrued ctx.pool_state pool q.trade_direction (m + n))
                                    same_pf same_ff booked;
                              paid = paid;
                              pay_in =
                                  transfer_from_user-Moved spl laws bank _ _ _ clock
                                    ctx.input_token_mint _ _ _ f sep.input_input e₄ hf;
                              pay_out =
                                  transfer_from_vault-Moved spl laws paid _ _ _ clock
                                    ctx.output_token_mint _ _ _ g (λ e. sep.output_output (sym e))
                                    e₅ hg;
                              price_0 = prices.0;
                              price_1 = prices.1;
                              observed = e₆;
                            })

  -- The input vault gains what the mint does not withhold, and the output vault pays the output.
  Settled-vaults :
      (f g got : ℕ) {s : SwapOutcome Bank}
      → Separate ctx
      → Settled f g s
      → q.input_transfer_amount ≡ got + f
      → (spl.amount s.bank ctx.input_vault ≡ spl.amount bank ctx.input_vault + got)
        × (spl.amount bank ctx.output_vault
            ≡ spl.amount s.bank ctx.output_vault + q.output_transfer_amount)
  Settled-vaults f g got sep st e = (
    omega (
      arith,
      st.pay_in.credited,
      st.pay_out.others ctx.input_vault sep.vaults (λ z. sep.output_input (sym z)),
    ),
    omega (
      arith,
      st.pay_out.debited,
      st.pay_in.others ctx.output_vault (λ z. sep.input_output (sym z)) (λ z. sep.vaults (sym z)),
    ),
  )

  -- A swap leaves the pool tokens, their mint and their supply as they are.
  pub Settled-supply :
      (f g : ℕ) {s : SwapOutcome Bank}
      → Settled f g s
      → (spl.supply s.bank s.pool_state.lp_mint ≡ spl.supply bank ctx.pool_state.lp_mint)
        × (s.pool_state.lp_supply ≡ ctx.pool_state.lp_supply)
  Settled-supply f g {s} st = (
    subst (λ m. spl.supply s.bank m ≡ spl.supply bank ctx.pool_state.lp_mint)
        (sym st.accrued.lp_mint)
        (st.pay_out.supplies ctx.pool_state.lp_mint ∙ st.pay_in.supplies ctx.pool_state.lp_mint),
    st.accrued.lp_supply,
  )

  -- The reserves of the pool before and after a settlement, up to the order of the two tokens.
  pub Settled-Exchanged :
      (f g got x y : ℕ) {s : SwapOutcome Bank}
      → Separate ctx
      → Settled f g s
      → Directions ctx.pool_state ctx.input_vault ctx.output_vault
          (spl.amount bank ctx.input_vault)
          (spl.amount bank ctx.output_vault)
          q.trade_direction
          x
          y
      → q.input_transfer_amount ≡ got + f
      → q.result.protocol_fee + q.result.fund_fee ≤ got
      → q.output_transfer_amount ≤ y
      → Exchanged spl ctx.pool_state s.pool_state bank s.bank
          (x * y)
          ((x + got - (q.result.protocol_fee + q.result.fund_fee)) * (y - q.output_transfer_amount))
  Settled-Exchanged f g got x y {s} sep st (inl (d, sides)) e hp hy =
      let (vi, vo) = Settled-vaults f g got sep st e in
      let (f0, f1) = st.accrued.forward d in
      record {
        x₀ = x;
        y₀ = y;
        x₁ = x + got - (q.result.protocol_fee + q.result.fund_fee);
        y₁ = y - q.output_transfer_amount;
        before = record {
          vault_0 =
              subst (λ v. spl.amount bank v ≡ x + fees_0 ctx.pool_state) sides.input
                sides.input_net;
          vault_1 =
              subst (λ v. spl.amount bank v ≡ y + fees_1 ctx.pool_state) sides.output
                sides.output_net;
        };
        after = record {
          vault_0 =
              subst
                (λ v.
                  spl.amount s.bank v
                  ≡ x + got - (q.result.protocol_fee + q.result.fund_fee) + fees_0 s.pool_state)
                (sides.input ∙ sym st.accrued.vault_0) (omega (arith, sides.input_net));
          vault_1 =
              subst (λ v. spl.amount s.bank v ≡ y - q.output_transfer_amount + fees_1 s.pool_state)
                (sides.output ∙ sym st.accrued.vault_1) (omega (arith, sides.output_net));
        };
        product_before = refl;
        product_after = refl;
        one_way = inl (omega (arith, hp), omega arith);
      }
  Settled-Exchanged f g got x y {s} sep st (inr (d, sides)) e hp hy =
      let (vi, vo) = Settled-vaults f g got sep st e in
      let (f1, f0) = st.accrued.backward d in
      record {
        x₀ = y;
        y₀ = x;
        x₁ = y - q.output_transfer_amount;
        y₁ = x + got - (q.result.protocol_fee + q.result.fund_fee);
        before = record {
          vault_0 =
              subst (λ v. spl.amount bank v ≡ y + fees_0 ctx.pool_state) sides.output
                sides.output_net;
          vault_1 =
              subst (λ v. spl.amount bank v ≡ x + fees_1 ctx.pool_state) sides.input
                sides.input_net;
        };
        after = record {
          vault_0 =
              subst (λ v. spl.amount s.bank v ≡ y - q.output_transfer_amount + fees_0 s.pool_state)
                (sides.output ∙ sym st.accrued.vault_0) (omega (arith, sides.output_net));
          vault_1 =
              subst
                (λ v.
                  spl.amount s.bank v
                  ≡ x + got - (q.result.protocol_fee + q.result.fund_fee) + fees_1 s.pool_state)
                (sides.input ∙ sym st.accrued.vault_1) (omega (arith, sides.input_net));
        };
        product_before = mul_comm y x;
        product_after = mul_comm (y - q.output_transfer_amount) _;
        one_way = inr (omega arith, omega (arith, hp));
      }
