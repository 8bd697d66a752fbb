-- ===== src/Instructions/Admin/CollectValue.antt =====
-- collect_protocol_fee.rs and collect_fund_fee.rs: the fees are paid out of what is set apart.
use solana_dex.Base.{
  ℕ, ◌+◌, ◌≡◌, ◌⊎◌, min, ok, arith, >>=-elim, >>-elim, ok-injective, subst, sym, refl, ◌∙◌,
}
use solana_dex.Keys.{Pubkey, admin}
use solana_dex.States.Pool.{PoolState}
use solana_dex.Token.Interface.{Spl, Clock}
use solana_dex.Token.{transfer_from_pool_vault_to_user}
use solana_dex.Token.Laws.{Laws, transfer_from_vault-some}
use solana_dex.Instructions.Reserves.{Holds, vault_0_of, vault_1_of, of_vaults}
use solana_dex.Instructions.Admin.Collect.{
  CollectAccounts, CollectOutcome, check_collect_accounts, take_fees, pay_fees,
  collect_protocol_fee, collect_fund_fee,
}
use solana_dex.Instructions.Admin.CollectRun.{
  SeparateCollect, check_collect_accounts-eq-ok, take_fees-Taken, fees_left, fees_left_second,
}

module _ {MintData FeeConfig Bank : Type 0} (spl : Spl MintData FeeConfig Bank) (laws : Laws spl)
    (pda : Pubkey) (clock : Clock) (ctx : CollectAccounts MintData) (bank : Bank) where
  -- What the two transfers have done.
  record Paid (b' : Bank) (a b : ℕ) : Type 0 where
    out_0 : spl.amount bank ctx.token_0_vault ≡ spl.amount b' ctx.token_0_vault + a
    out_1 : spl.amount bank ctx.token_1_vault ≡ spl.amount b' ctx.token_1_vault + b
    supply : (m : Pubkey) → spl.supply b' m ≡ spl.supply bank m

  pay_fees-Paid :
      (a b : ℕ) {b' : Bank}
      → SeparateCollect ctx
      → pay_fees spl clock ctx bank a b ≡ ok b'
      → Paid b' a b
  unfolding pay_fees
  pay_fees-Paid a b {b'} sep h =
      >>=-elim (transfer_from_pool_vault_to_user spl bank _ _ _ _ _ _ a _) _ h λ paid e h.
        let (f, out_0) =
          transfer_from_vault-some spl laws bank _ _ _ clock ctx.vault_0_mint _ a _
            sep.vault_0_recipient_0 e in
        let (g, out_1) =
          transfer_from_vault-some spl laws paid _ _ _ clock ctx.vault_1_mint _ b _
            sep.vault_1_recipient_1 h in
        record {
          out_0 = omega (
            arith,
            out_0.debited,
            out_1.others ctx.token_0_vault sep.vaults sep.vault_0_recipient_1,
          );
          out_1 = omega (
            arith,
            out_1.debited,
            out_0.others ctx.token_1_vault (λ e. sep.vaults (sym e)) sep.vault_1_recipient_0,
          );
          supply = λ m. out_1.supplies m ∙ out_0.supplies m;
        }

  -- A collection by `who`, or by the administrator, of at most what is requested and what is owed:
  -- the vaults pay it, and the reserves `x` and `y`, the pool tokens and their supply stay.
  pub record Collected (who : Pubkey) (requested_0 requested_1 owed_0 owed_1 x y : ℕ)
      (s : CollectOutcome Bank) : Type 0 where
    pub authorized : (ctx.owner ≡ who) ⊎ (ctx.owner ≡ admin)
    pub held : Holds spl s.pool_state s.bank x y
    pub paid_0 :
        spl.amount bank ctx.token_0_vault
        ≡ spl.amount s.bank ctx.token_0_vault + min requested_0 owed_0
    pub paid_1 :
        spl.amount bank ctx.token_1_vault
        ≡ spl.amount s.bank ctx.token_1_vault + min requested_1 owed_1
    pub lp_supply : s.pool_state.lp_supply ≡ ctx.pool_state.lp_supply
    pub lp_mint : s.pool_state.lp_mint ≡ ctx.pool_state.lp_mint
    pub supply : (m : Pubkey) → spl.supply s.bank m ≡ spl.supply bank m

  module _ (requested_0 requested_1 : ℕ) {s : CollectOutcome Bank} where
    -- Over token programs that keep the laws of Token/Laws, with the recipients' accounts and the
    -- vaults different, from vaults that hold the fees set apart and reserves besides: a
    -- collect_protocol_fee that succeeds is signed by the configuration's protocol owner or by the
    -- administrator, each vault pays what is requested but at most what is owed to the protocol,
    -- and the reserves, the pool tokens and their supply stay as they are.
    pub collect_protocol_fee_pays :
        (x y : ℕ)
        → SeparateCollect ctx
        → Holds spl ctx.pool_state bank x y
        → collect_protocol_fee spl pda clock ctx bank requested_0 requested_1 ≡ ok s
        → Collected ctx.amm_config.protocol_owner requested_0 requested_1
            ctx.pool_state.protocol_fees_token_0 ctx.pool_state.protocol_fees_token_1 x y s
    unfolding collect_protocol_fee
    collect_protocol_fee_pays x y sep held h =
        let p : PoolState = ctx.pool_state in
        >>-elim (check_collect_accounts pda ctx.amm_config.protocol_owner ctx) _ h λ e₁ h.
          >>=-elim
            (take_fees requested_0 requested_1 p.protocol_fees_token_0 p.protocol_fees_token_1) _ h
            λ t e₂ h. >>=-elim (pay_fees spl clock ctx bank t.0 t.1) _ h λ paid e₃ h.
              let (who, vault_0, vault_1) = check_collect_accounts-eq-ok pda _ ctx e₁ in
              let taken = take_fees-Taken requested_0 requested_1 _ _ e₂ in
              let out = pay_fees-Paid t.0 t.1 sep e₃ in
              let left_0 =
                fees_left _ _ x _ p.fund_fees_token_0 _ _ taken.left_0
                  (vault_0_of spl ctx.token_0_vault vault_0 held) out.out_0 in
              let left_1 =
                fees_left _ _ y _ p.fund_fees_token_1 _ _ taken.left_1
                  (vault_1_of spl ctx.token_1_vault vault_1 held) out.out_1 in
              subst
                (Collected ctx.amm_config.protocol_owner requested_0 requested_1
                  p.protocol_fees_token_0 p.protocol_fees_token_1 x y)
                (ok-injective h)
                (record {
                  authorized = who;
                  held =
                      of_vaults spl ctx.token_0_vault ctx.token_1_vault vault_0 vault_1 left_0
                        left_1;
                  paid_0 = omega (arith, out.out_0, taken.amount_0);
                  paid_1 = omega (arith, out.out_1, taken.amount_1);
                  lp_supply = refl;
                  lp_mint = refl;
                  supply = out.supply;
                })

    -- Over token programs that keep the laws of Token/Laws, with the recipients' accounts and the
    -- vaults different, from vaults that hold the fees set apart and reserves besides: a
    -- collect_fund_fee that succeeds is signed by the configuration's fund owner or by the
    -- administrator, each vault pays what is requested but at most what is owed to the fund, and
    -- the reserves, the pool tokens and their supply stay as they are.
    pub collect_fund_fee_pays :
        (x y : ℕ)
        → SeparateCollect ctx
        → Holds spl ctx.pool_state bank x y
        → collect_fund_fee spl pda clock ctx bank requested_0 requested_1 ≡ ok s
        → Collected ctx.amm_config.fund_owner requested_0 requested_1
            ctx.pool_state.fund_fees_token_0 ctx.pool_state.fund_fees_token_1 x y s
    unfolding collect_fund_fee
    collect_fund_fee_pays x y sep held h =
        let p : PoolState = ctx.pool_state in
        >>-elim (check_collect_accounts pda ctx.amm_config.fund_owner ctx) _ h λ e₁ h.
          >>=-elim (take_fees requested_0 requested_1 p.fund_fees_token_0 p.fund_fees_token_1) _ h
            λ t e₂ h. >>=-elim (pay_fees spl clock ctx bank t.0 t.1) _ h λ paid e₃ h.
              let (who, vault_0, vault_1) = check_collect_accounts-eq-ok pda _ ctx e₁ in
              let taken = take_fees-Taken requested_0 requested_1 _ _ e₂ in
              let out = pay_fees-Paid t.0 t.1 sep e₃ in
              let left_0 =
                fees_left_second _ _ x _ p.protocol_fees_token_0 _ _ taken.left_0
                  (vault_0_of spl ctx.token_0_vault vault_0 held) out.out_0 in
              let left_1 =
                fees_left_second _ _ y _ p.protocol_fees_token_1 _ _ taken.left_1
                  (vault_1_of spl ctx.token_1_vault vault_1 held) out.out_1 in
              subst
                (Collected ctx.amm_config.fund_owner requested_0 requested_1 p.fund_fees_token_0
                  p.fund_fees_token_1 x y)
                (ok-injective h)
                (record {
                  authorized = who;
                  held =
                      of_vaults spl ctx.token_0_vault ctx.token_1_vault vault_0 vault_1 left_0
                        left_1;
                  paid_0 = omega (arith, out.out_0, taken.amount_0);
                  paid_1 = omega (arith, out.out_1, taken.amount_1);
                  lp_supply = refl;
                  lp_mint = refl;
                  supply = out.supply;
                })
