-- ===== src/Program/Kept.antt =====
-- The balances and supplies that each handler leaves alone.
use solana_dex.Base.{ℕ, ◌≡◌, ok, ok-injective, subst, sym, ◌∙◌, >>=-elim, >>-elim}
use solana_dex.Keys.{Pubkey}
use solana_dex.Token.Interface.{Spl, Clock}
use solana_dex.Token.{transfer_from_pool_vault_to_user}
use solana_dex.Token.Laws.{Laws, transfer_from_vault-some}
use solana_dex.Instructions.Swap.{SwapAccounts, SwapOutcome}
use solana_dex.Instructions.Swap.Settlement.{Settled}
use solana_dex.Instructions.Liquidity.{LpAccounts, LpOutcome}
use solana_dex.Instructions.Liquidity.Accounts.{SeparateLp}
use solana_dex.Instructions.Liquidity.Deposit.{deposit}
use solana_dex.Instructions.Liquidity.DepositRun.{deposit-Deposited}
use solana_dex.Instructions.Liquidity.Withdraw.{withdraw}
use solana_dex.Instructions.Liquidity.WithdrawRun.{withdraw-Withdrawn}
use solana_dex.Instructions.Admin.Collect.{
  CollectAccounts, CollectOutcome, check_collect_accounts, take_fees, pay_fees,
  collect_protocol_fee, collect_fund_fee,
}
use solana_dex.Instructions.Admin.CollectRun.{SeparateCollect}
use solana_dex.Program.Foreign.{ForeignLp, ForeignSwap, ForeignCollect}

module _ {MintData FeeConfig Bank : Type 0} (spl : Spl MintData FeeConfig Bank) (laws : Laws spl)
    (k m : Pubkey) where
  -- The balance of `k` and the supply of `m` stay.
  pub record Kept (b b' : Bank) : Type 0 where
    pub balance : spl.amount b' k ≡ spl.amount b k
    pub supply : spl.supply b' m ≡ spl.supply b m

  pub Settled-Kept :
      (clock : Clock) (ctx : SwapAccounts MintData) (bank : Bank) (base : _) (q : _) (f g : ℕ)
      {s : SwapOutcome Bank}
      → ForeignSwap k m ctx
      → Settled spl laws clock ctx bank base q f g s
      → Kept bank s.bank
  Settled-Kept clock ctx bank base q f g away st = record {
    balance =
        st.pay_out.others k away.output_vault away.output_account
        ∙ st.pay_in.others k away.input_account away.input_vault;
    supply = st.pay_out.supplies m ∙ st.pay_in.supplies m;
  }

  module _ (pda : Pubkey) (clock : Clock) (bank : Bank) where
    pub deposit-Kept :
        (ctx : LpAccounts MintData) (lp n₀ n₁ : ℕ) {s : LpOutcome Bank}
        → SeparateLp ctx
        → ForeignLp k m ctx
        → deposit spl pda clock ctx bank lp n₀ n₁ ≡ ok s
        → Kept bank s.bank
    deposit-Kept ctx lp n₀ n₁ sep away h =
        let run =
          deposit-Deposited spl laws clock ctx pda bank lp n₀ n₁ sep.account_0_vault_0
            sep.account_1_vault_1 h in
        let in_0 = run.funded_0.moved in
        let in_1 = run.funded_1.moved in
        record {
          balance =
              run.minted.others k away.lp_token
              ∙ (in_1.others k away.account_1 away.vault_1
                  ∙ in_0.others k away.account_0 away.vault_0);
          supply = run.minted.other_supplies m away.mint ∙ (in_1.supplies m ∙ in_0.supplies m);
        }

    pub withdraw-Kept :
        (memo_id : Pubkey) (ctx : LpAccounts MintData) (memo : Pubkey) (lp n₀ n₁ : ℕ)
        {s : LpOutcome Bank}
        → SeparateLp ctx
        → ForeignLp k m ctx
        → withdraw spl pda memo_id clock ctx memo bank lp n₀ n₁ ≡ ok s
        → Kept bank s.bank
    withdraw-Kept memo_id ctx memo lp n₀ n₁ sep away h =
        let run =
          withdraw-Withdrawn spl laws clock ctx pda memo_id memo bank lp n₀ n₁
            (λ e. sep.account_0_vault_0 (sym e)) (λ e. sep.account_1_vault_1 (sym e)) h in
        let out_0 = run.sent_0.moved in
        let out_1 = run.sent_1.moved in
        record {
          balance =
              out_1.others k away.vault_1 away.account_1
              ∙ (out_0.others k away.vault_0 away.account_0 ∙ run.retired.others k away.lp_token);
          supply = out_1.supplies m ∙ (out_0.supplies m ∙ run.retired.other_supplies m away.mint);
        }

    pay_fees-Kept :
        (ctx : CollectAccounts MintData) (a₀ a₁ : ℕ) {b : Bank}
        → SeparateCollect ctx
        → ForeignCollect k m ctx
        → pay_fees spl clock ctx bank a₀ a₁ ≡ ok b
        → Kept bank b
    unfolding pay_fees
    pay_fees-Kept ctx a₀ a₁ sep away h =
        >>=-elim (transfer_from_pool_vault_to_user spl bank _ _ _ _ _ _ a₀ _) _ h λ paid e h.
          let (_, out_0) =
            transfer_from_vault-some spl laws bank _ _ _ clock ctx.vault_0_mint _ a₀ _
              sep.vault_0_recipient_0 e in
          let (_, out_1) =
            transfer_from_vault-some spl laws paid _ _ _ clock ctx.vault_1_mint _ a₁ _
              sep.vault_1_recipient_1 h in
          record {
            balance =
                out_1.others k away.vault_1 away.recipient_1
                ∙ out_0.others k away.vault_0 away.recipient_0;
            supply = out_1.supplies m ∙ out_0.supplies m;
          }

    pub collect_protocol_fee-Kept :
        (ctx : CollectAccounts MintData) (r₀ r₁ : ℕ) {s : CollectOutcome Bank}
        → SeparateCollect ctx
        → ForeignCollect k m ctx
        → collect_protocol_fee spl pda clock ctx bank r₀ r₁ ≡ ok s
        → Kept bank s.bank
    unfolding collect_protocol_fee
    collect_protocol_fee-Kept ctx r₀ r₁ sep away h =
        >>-elim (check_collect_accounts pda ctx.amm_config.protocol_owner ctx) _ h λ _ h.
          >>=-elim (take_fees r₀ r₁ _ _) _ h λ t _ h.
            >>=-elim (pay_fees spl clock ctx bank t.0 t.1) _ h λ b e h.
              subst (λ (s : CollectOutcome Bank). Kept bank s.bank) (ok-injective h)
                (pay_fees-Kept ctx t.0 t.1 sep away e)

    pub collect_fund_fee-Kept :
        (ctx : CollectAccounts MintData) (r₀ r₁ : ℕ) {s : CollectOutcome Bank}
        → SeparateCollect ctx
        → ForeignCollect k m ctx
        → collect_fund_fee spl pda clock ctx bank r₀ r₁ ≡ ok s
        → Kept bank s.bank
    unfolding collect_fund_fee
    collect_fund_fee-Kept ctx r₀ r₁ sep away h =
        >>-elim (check_collect_accounts pda ctx.amm_config.fund_owner ctx) _ h λ _ h.
          >>=-elim (take_fees r₀ r₁ _ _) _ h λ t _ h.
            >>=-elim (pay_fees spl clock ctx bank t.0 t.1) _ h λ b e h.
              subst (λ (s : CollectOutcome Bank). Kept bank s.bank) (ok-injective h)
                (pay_fees-Kept ctx t.0 t.1 sep away e)
