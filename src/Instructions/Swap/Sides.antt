-- ===== src/Instructions/Swap/Sides.antt =====
-- The two directions of a swap, and the fees that it books: what `trade_amounts` and `accrue_fees`
-- of the swap handlers have found when they succeed.
use solana_dex.Base.{
  ℕ, ◌+◌, ◌≡◌, ◌⊎◌, inl, inr, Bool, true, ◌&&◌, ok, arith, ◌==◌, ==_iff, if-cases, >>=-elim,
  ok-injective, subst, refl, u64_mod, checked_add, checked_add-eq-ok, unwrap, unwrap-eq-ok,
}
use solana_dex.Keys.{Pubkey}
use solana_dex.Curve.Calculator.{TradeDirection, zero_for_one, one_for_zero}
use solana_dex.States.Pool.{PoolState, vault_amount_without_fee}
use solana_dex.States.Pool.Reserves.{fees_0, fees_1, vault_amount_without_fee-eq-ok}
use solana_dex.Instructions.Swap.{trade_amounts, accrue_fees}

-- A swap from the vault `v` to the vault `w`: which vaults the accounts are, and that `x` and `y` are
-- their amounts `i` and `o` less the fees `f` and `g`.
pub record Sides (iv ov v w : Pubkey) (i o x y f g : ℕ) : Type 0 where
  pub input : iv ≡ v
  pub output : ov ≡ w
  pub input_net : i ≡ x + f
  pub output_net : o ≡ y + g

and-cases : (a b : Bool) → (a && b) ≡ true → (a ≡ true) × (b ≡ true)
and-cases a b h = ground arith

-- The two directions of `trade_amounts`.
abbrev pub Directions : PoolState → Pubkey → Pubkey → ℕ → ℕ → TradeDirection → ℕ → ℕ → Type 0
Directions p iv ov i o d x y =
    ((d ≡ zero_for_one) × Sides iv ov p.token_0_vault p.token_1_vault i o x y (fees_0 p) (fees_1 p))
    ⊎ ((d ≡ one_for_zero)
        × Sides iv ov p.token_1_vault p.token_0_vault i o x y (fees_1 p) (fees_0 p))

pub trade_amounts-Directions :
    (p : PoolState) (iv ov : Pubkey) (i o : ℕ) {d : TradeDirection} {x y : ℕ}
    → trade_amounts p iv ov i o ≡ ok (d, x, y)
    → Directions p iv ov i o d x y
unfolding trade_amounts
trade_amounts-Directions p iv ov i o {d} {x} {y} h =
    elim (if-cases (iv == p.token_0_vault && ov == p.token_1_vault) _ _ h) [
      | inl (t, e) ↦
          let (a, b) = and-cases _ _ t in
          >>=-elim (vault_amount_without_fee p i o) _ e λ r k e.
            let (n, m) = vault_amount_without_fee-eq-ok p i o k in
            subst (λ (t : TradeDirection × ℕ × ℕ). Directions p iv ov i o t.0 t.1 t.2)
              (ok-injective e)
              (inl (
                refl,
                record {
                  input = (==_iff _ _).0 a;
                  output = (==_iff _ _).0 b;
                  input_net = n;
                  output_net = m;
                },
              ))
      | inr (_, e) ↦ elim (if-cases (iv == p.token_1_vault && ov == p.token_0_vault) _ _ e) [
        | inl (t, e) ↦
            let (a, b) = and-cases _ _ t in
            >>=-elim (vault_amount_without_fee p o i) _ e λ r k e.
              let (m, n) = vault_amount_without_fee-eq-ok p o i k in
              subst (λ (t : TradeDirection × ℕ × ℕ). Directions p iv ov i o t.0 t.1 t.2)
                (ok-injective e)
                (inr (
                  refl,
                  record {
                    input = (==_iff _ _).0 a;
                    output = (==_iff _ _).0 b;
                    input_net = n;
                    output_net = m;
                  },
                ))
        | inr (_, e) ↦ cc
      ]
    ]

-- The fees that a swap books, and what it leaves of the pool's state.
pub record Accrued (p q : PoolState) (d : TradeDirection) (n : ℕ) : Type 0 where
  pub vault_0 : q.token_0_vault ≡ p.token_0_vault
  pub vault_1 : q.token_1_vault ≡ p.token_1_vault
  pub lp_supply : q.lp_supply ≡ p.lp_supply
  pub lp_mint : q.lp_mint ≡ p.lp_mint
  pub status : q.status ≡ p.status
  pub forward : d ≡ zero_for_one → (fees_0 q ≡ fees_0 p + n) × (fees_1 q ≡ fees_1 p)
  pub backward : d ≡ one_for_zero → (fees_1 q ≡ fees_1 p + n) × (fees_0 q ≡ fees_0 p)

add_cases : (a b : ℕ) {c : ℕ} → unwrap (checked_add u64_mod a b) ≡ ok c → c ≡ a + b
add_cases a b h = (checked_add-eq-ok u64_mod a b (unwrap-eq-ok (checked_add u64_mod a b) h)).0

pub accrue_fees-Accrued :
    (p : PoolState) (d : TradeDirection) (pf ff : ℕ) {q : PoolState}
    → accrue_fees p d pf ff ≡ ok q
    → Accrued p q d (pf + ff)
unfolding accrue_fees
accrue_fees-Accrued p zero_for_one pf ff h =
    >>=-elim (unwrap (checked_add u64_mod p.protocol_fees_token_0 pf)) _ h λ a e h.
      >>=-elim (unwrap (checked_add u64_mod p.fund_fees_token_0 ff)) _ h λ b k h.
        subst (λ q. Accrued p q zero_for_one (pf + ff)) (ok-injective h)
          (record {
            vault_0 = refl;
            vault_1 = refl;
            lp_supply = refl;
            lp_mint = refl;
            status = refl;
            forward = λ _. (omega (arith, add_cases _ _ e, add_cases _ _ k), refl);
            backward = λ z. absurd (cc);
          })
accrue_fees-Accrued p one_for_zero pf ff h =
    >>=-elim (unwrap (checked_add u64_mod p.protocol_fees_token_1 pf)) _ h λ a e h.
      >>=-elim (unwrap (checked_add u64_mod p.fund_fees_token_1 ff)) _ h λ b k h.
        subst (λ q. Accrued p q one_for_zero (pf + ff)) (ok-injective h)
          (record {
            vault_0 = refl;
            vault_1 = refl;
            lp_supply = refl;
            lp_mint = refl;
            status = refl;
            forward = λ z. absurd (cc);
            backward = λ _. (omega (arith, add_cases _ _ e, add_cases _ _ k), refl);
          })
