-- ===== src/Curve/ConstantProduct/Shares.antt =====
-- The trading tokens for pool tokens, `lp_tokens_to_trading_tokens` of curve/constant_product.rs:
-- `lp` of `s` pool tokens over the reserves `x` and `y`.
use solana_dex.Base.{
  ℕ, ◌+◌, ◌-◌, ◌*◌, ◌/◌, ◌%◌, ◌≤◌, ◌<◌, ◌≡◌, ◌⊎◌, ok, arith, u128_mod, inl, inr, zero, suc,
  >>=-eq-ok, >>=-ok, >>=-Succeeds, Succeeds, refl, checked_mul, checked_mul_total,
  checked_div_total, quotient_bounds, mul_mono, mul_cancel_le, subst, subst₂, sym,
}
use native.Mathlib.Nat.{le_trans}
use solana_dex.Curve.ConstantProduct.{
  TradingTokenResult, floor, ceiling, share, round_up, lp_tokens_to_trading_tokens,
}

-- A withdrawal of `t` from a reserve `x` for `lp` of `s` pool tokens leaves each other pool token
-- at least its share.
abbrev pub KeepsShareOut : ℕ → ℕ → ℕ → ℕ → Type 0
KeepsShareOut lp s x t = x * (s - lp) ≤ (x - t) * s

-- A deposit of `t` to a reserve `x` for `lp` new pool tokens leaves each old one its share.
abbrev pub KeepsShareIn : ℕ → ℕ → ℕ → ℕ → Type 0
KeepsShareIn lp s x t = x * (s + lp) ≤ (x + t) * s

share-eq-ok :
    (lp s x : ℕ) {t : ℕ} → share lp s x ≡ ok t → (t ≡ lp * x / s) × (0 < s) × (lp * x < u128_mod)
unfolding share
share-eq-ok lp s x h = ground arith

-- The amount of a withdrawal, and the amount of a deposit: the ceiling, but zero if the floor is.
abbrev pub IsRoundedDown : ℕ → ℕ → ℕ → ℕ → Type 0
IsRoundedDown lp s x t = (t * s ≤ lp * x) × (lp * x < t * s + s)

abbrev pub IsRoundedUp : ℕ → ℕ → ℕ → ℕ → Type 0
IsRoundedUp lp s x t =
    ((t ≡ 0) × (lp * x < s)) ⊎ ((s ≤ lp * x) × (lp * x ≤ t * s) × (t * s < lp * x + s))

share-IsRoundedDown : (lp s x : ℕ) {t : ℕ} → share lp s x ≡ ok t → IsRoundedDown lp s x t
share-IsRoundedDown lp s x {t} h =
    let (e, pos, _) = share-eq-ok lp s x h in
    let (lo, hi, _) = quotient_bounds t (lp * x) s pos e in (lo, hi)

round_up-eq-ok :
    (lp s x a : ℕ) {t : ℕ}
    → round_up lp s x a ≡ ok t
    → ((0 < lp * x % s) × (0 < a) × (t ≡ a + 1)) ⊎ (((lp * x % s ≡ 0) ⊎ (a ≡ 0)) × (t ≡ a))
unfolding round_up
round_up-eq-ok lp s x a h = ground arith

exact_amount :
    (n s a : ℕ)
    → 0 < s
    → n ≡ a * s
    → ((a ≡ 0) × (n < s)) ⊎ ((s ≤ n) × (n ≤ a * s) × (a * s < n + s))
exact_amount n s zero pos e = inl (omega arith)
exact_amount n s (suc a) pos e = inr (omega arith)

round_up-IsRoundedUp :
    (lp s x a : ℕ) {t : ℕ} → share lp s x ≡ ok a → round_up lp s x a ≡ ok t → IsRoundedUp lp s x t
round_up-IsRoundedUp lp s x a {t} e h =
    let (ea, pos, _) = share-eq-ok lp s x e in
    let (lo, hi, whole) = quotient_bounds a (lp * x) s pos ea in
    elim (round_up-eq-ok lp s x a h) [
      | inl (some_left, positive, et) ↦
          let one : 1 * s ≤ a * s = mul_mono 1 a s s (omega arith) (omega arith) in
          inr (rw et (omega arith))
      | inr (inl none_left, et) ↦ rw et (exact_amount (lp * x) s a pos (omega arith))
      | inr (inr zero_floor, et) ↦
          inl (omega arith, let z : a * s ≡ 0 = rw zero_floor (omega arith) in omega arith)
    ]

share_total : (lp s x : ℕ) → 0 < s → lp * x < u128_mod → share lp s x ≡ ok (lp * x / s)
unfolding share
share_total lp s x pos h =
    >>=-ok (checked_mul u128_mod lp x) _ (checked_mul_total u128_mod lp x h)
      (checked_div_total (lp * x) s pos)

-- The amounts that are rounded down are computed where the products fit.
pub floor_total :
    (lp s x y : ℕ)
    → 0 < s
    → lp * x < u128_mod
    → lp * y < u128_mod
    → Succeeds (lp_tokens_to_trading_tokens lp s x y floor)
unfolding lp_tokens_to_trading_tokens
floor_total lp s x y pos h k =
    >>=-Succeeds (share lp s x) _ (share_total lp s x pos h)
      (>>=-Succeeds (share lp s y) _ (share_total lp s y pos k) (_, refl))

module _ (lp s x y : ℕ) {r : TradingTokenResult} where
  pub floor_amounts :
      lp_tokens_to_trading_tokens lp s x y floor ≡ ok r
      → IsRoundedDown lp s x r.token_0_amount × IsRoundedDown lp s y r.token_1_amount
  unfolding lp_tokens_to_trading_tokens
  floor_amounts h =
      let (a, ea, h₁) = >>=-eq-ok (share lp s x) _ h in
      let (b, eb, h₂) = >>=-eq-ok (share lp s y) _ h₁ in
      let e : record { token_0_amount = a; token_1_amount = b } ≡ r = cc in
      rw (← e) (share-IsRoundedDown lp s x ea, share-IsRoundedDown lp s y eb)

  pub ceiling_amounts :
      lp_tokens_to_trading_tokens lp s x y ceiling ≡ ok r
      → IsRoundedUp lp s x r.token_0_amount × IsRoundedUp lp s y r.token_1_amount
  unfolding lp_tokens_to_trading_tokens
  ceiling_amounts h =
      let (a, ea, h₁) = >>=-eq-ok (share lp s x) _ h in
      let (b, eb, h₂) = >>=-eq-ok (share lp s y) _ h₁ in
      let (a', ea', h₃) = >>=-eq-ok (round_up lp s x a) _ h₂ in
      let (b', eb', h₄) = >>=-eq-ok (round_up lp s y b) _ h₃ in
      let e : record { token_0_amount = a'; token_1_amount = b' } ≡ r = cc in
      rw (← e) (round_up-IsRoundedUp lp s x a ea ea', round_up-IsRoundedUp lp s y b eb eb')

-- With `u` of the reserve and `m` of the pool tokens left there is nothing to subtract.
left_after_withdrawal : (lp m t u : ℕ) → t * (lp + m) ≤ lp * (t + u) → (t + u) * m ≤ u * (lp + m)
left_after_withdrawal lp m t u h = omega arith

-- An amount that is rounded down is within the reserve and leaves the others their share.
rounded_down_keeps :
    (lp s x t : ℕ) → lp ≤ s → IsRoundedDown lp s x t → (t ≤ x) × KeepsShareOut lp s x t
rounded_down_keeps lp s x t hl (lo, hi) =
    let most : lp * x ≤ s * x = mul_mono lp s x x hl (omega arith) in
    let within : t ≤ x = mul_cancel_le t x s (omega arith) (omega arith) in
    let es : lp + (s - lp) ≡ s = omega arith in
    let ex : t + (x - t) ≡ x = omega arith in
    let exact : t * (lp + (s - lp)) ≤ lp * (t + (x - t)) = rw (es, ex) lo in
    (
      within,
      subst (λ z. z * (s - lp) ≤ (x - t) * s) ex
          (subst (λ z. (t + (x - t)) * (s - lp) ≤ (x - t) * z) es
            (left_after_withdrawal lp (s - lp) t (x - t) exact)),
    )

-- An amount that is rounded up from at least one unit leaves the old pool tokens their share.
pub rounded_up_keeps :
    (lp s x t : ℕ)
    → s ≤ lp * x
    → IsRoundedUp lp s x t
    → KeepsShareIn lp s x t × (t * s < lp * x + s)
rounded_up_keeps lp s x t one (inl (_, less)) = absurd (omega arith)
rounded_up_keeps lp s x t one (inr (_, lo, hi)) = (omega arith, hi)

-- The same with what is left written `x'` and `s'`.
pub rest_keeps_part :
    (n s x p s' x' : ℕ) → IsRoundedDown n s x p → x ≡ x' + p → s ≡ s' + n → x * s' ≤ x' * s
rest_keeps_part n s x p s' x' (low, _) ex es =
    subst (λ z. z * s' ≤ x' * s) (sym ex)
      (subst (λ z. (x' + p) * s' ≤ x' * z) (sym es)
        (leaves (subst₂ (λ a c. p * a ≤ n * c) es ex low)))
  where
    leaves : p * (s' + n) ≤ n * (x' + p) → (x' + p) * s' ≤ x' * (s' + n)
    leaves h = omega arith

-- The same where at least the amount arrives.
pub rounded_up_part :
    (n s x c s' x' : ℕ)
    → s ≤ n * x
    → IsRoundedUp n s x c
    → x + c ≤ x'
    → s' ≡ s + n
    → x * s' ≤ x' * s
rounded_up_part n s x c s' x' one up more es =
    subst (λ z. x * z ≤ x' * s) (sym es)
      (le_trans (rounded_up_keeps n s x c one up).0 (mul_mono (x + c) x' s s more (omega arith)))

no_gain : (lp s x t w : ℕ) → KeepsShareIn lp s x t → IsRoundedDown lp (s + lp) (x + t) w → w ≤ t
no_gain lp s x t w k (lo, hi) = mul_cancel_le w t (s + lp) (omega arith) (omega arith)

module _ (lp s x y : ℕ) {r : TradingTokenResult} where
  -- Of at most the supply of pool tokens, amounts that are rounded down, where they are computed,
  -- are within the reserves and leave each other pool token at least its share of both.
  pub withdrawal_keeps_share :
      lp_tokens_to_trading_tokens lp s x y floor ≡ ok r
      → lp ≤ s
      → ((r.token_0_amount ≤ x) × KeepsShareOut lp s x r.token_0_amount)
        × ((r.token_1_amount ≤ y) × KeepsShareOut lp s y r.token_1_amount)
  withdrawal_keeps_share h hl =
      let (a, b) = floor_amounts lp s x y h in
      (rounded_down_keeps lp s x _ hl a, rounded_down_keeps lp s y _ hl b)

  -- Of pool tokens that are worth at least one unit of each reserve, amounts that are rounded up,
  -- where they are computed, leave each old pool token at least its share of both reserves, and are
  -- less than one unit over the exact price.
  pub deposit_keeps_share :
      lp_tokens_to_trading_tokens lp s x y ceiling ≡ ok r
      → s ≤ lp * x
      → s ≤ lp * y
      → (KeepsShareIn lp s x r.token_0_amount × (r.token_0_amount * s < lp * x + s))
        × (KeepsShareIn lp s y r.token_1_amount × (r.token_1_amount * s < lp * y + s))
  deposit_keeps_share h p q =
      let (a, b) = ceiling_amounts lp s x y h in
      (rounded_up_keeps lp s x _ p a, rounded_up_keeps lp s y _ q b)

  -- Pool tokens that are worth at least one unit of each reserve, bought at the amounts that are
  -- rounded up and sold at once at those that are rounded down, give back at most what they have
  -- cost.
  pub deposit_then_withdrawal :
      {w : TradingTokenResult}
      → lp_tokens_to_trading_tokens lp s x y ceiling ≡ ok r
      → s ≤ lp * x
      → s ≤ lp * y
      → lp_tokens_to_trading_tokens lp (s + lp) (x + r.token_0_amount) (y + r.token_1_amount) floor
        ≡ ok w
      → (w.token_0_amount ≤ r.token_0_amount) × (w.token_1_amount ≤ r.token_1_amount)
  deposit_then_withdrawal {w} h p q k =
      let (a, b) = deposit_keeps_share h p q in
      let (c, d) = floor_amounts lp (s + lp) _ _ k in
      (
        no_gain lp s x r.token_0_amount w.token_0_amount a.0 c,
        no_gain lp s y r.token_1_amount w.token_1_amount b.0 d,
      )
