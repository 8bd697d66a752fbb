-- ===== src/Curve/ConstantProduct/Swaps.antt =====
-- The swap formulas of curve/constant_product.rs against the constant product: with reserves `x` of
-- the source and `y` of the destination, `a` of the source comes in and `b` of the destination goes
-- out.
use solana_dex.Base.{
  ℕ, ◌+◌, ◌-◌, ◌*◌, ◌/◌, ◌≤◌, ◌<◌, ◌≡◌, ok, arith, ◌↔◌, sym, subst, Result-cases, inl, inr, u64_mod,
  mul_cancel_lt, mul_cancel_le, mul_mono, div-mul-le,
}
use native.Mathlib.Nat.{le-div_iff_mul-le, mul-pos}
use solana_dex.Curve.Math.{checked_ceil_div}
use solana_dex.Curve.Math.Rounding.{
  checked_ceil_div-IsCeil, checked_ceil_div_small, checked_ceil_div_enough,
}
use solana_dex.Curve.ConstantProduct.{swap_base_input_without_fees, swap_base_output_without_fees}

-- The trade of `a` for `b` keeps the product of the reserves at least what it was.
abbrev pub KeepsConstant : ℕ → ℕ → ℕ → ℕ → Type 0
KeepsConstant x y a b = (b ≤ y) × (x * y ≤ (x + a) * (y - b))

-- With `c` of the destination left in the pool there is nothing to subtract.
left_in_pool : (x a b c : ℕ) → (x * (b + c) ≤ (x + a) * c) ↔ (b * (x + a) ≤ a * (b + c))
left_in_pool x a b c = (λ h. omega arith, λ h. omega arith)

KeepsConstant-iff : (x y a b : ℕ) → 0 < x + a → KeepsConstant x y a b ↔ (b * (x + a) ≤ a * y)
KeepsConstant-iff x y a b pos = (
  λ h.
      let e : b + (y - b) ≡ y = omega (arith, h.0) in
      subst (λ z. b * (x + a) ≤ a * z) e
        ((left_in_pool x a b (y - b)).0 (subst (λ z. x * z ≤ (x + a) * (y - b)) (sym e) h.1)),
  λ h.
      let within : b ≤ y = mul_cancel_le b y (x + a) pos (omega arith) in
      let e : b + (y - b) ≡ y = omega arith in
      (
        within,
        subst (λ z. x * z ≤ (x + a) * (y - b)) e
            ((left_in_pool x a b (y - b)).1 (subst (λ z. b * (x + a) ≤ a * z) (sym e) h)),
      ),
)

swap_base_input_without_fees-eq-ok :
    (a x y : ℕ) {b : ℕ}
    → swap_base_input_without_fees a x y ≡ ok b
    → (b ≡ a * y / (x + a)) × (0 < x + a)
unfolding swap_base_input_without_fees
swap_base_input_without_fees-eq-ok a x y h = ground arith

pub swap_base_input_without_fees_total :
    (a x y : ℕ)
    → a < u64_mod
    → x < u64_mod
    → y < u64_mod
    → 0 < x
    → swap_base_input_without_fees a x y ≡ ok (a * y / (x + a))
unfolding swap_base_input_without_fees
swap_base_input_without_fees_total a x y ha hx hy pos =
    let small : a * y ≤ (u64_mod - 1) * (u64_mod - 1) =
      mul_mono a (u64_mod - 1) y (u64_mod - 1) (omega arith) (omega arith) in
    ground arith

-- The output that the curve computes for an input, where it succeeds, keeps the constant product,
-- and no larger output does.
pub swap_input_is_best :
    (a x y : ℕ) {b : ℕ}
    → swap_base_input_without_fees a x y ≡ ok b
    → KeepsConstant x y a b × ((b' : ℕ) → KeepsConstant x y a b' → b' ≤ b)
swap_input_is_best a x y {b} h =
    let (e, pos) = swap_base_input_without_fees-eq-ok a x y h in
    (
      (KeepsConstant-iff x y a b pos).1 (rw e (div-mul-le (a * y) (x + a))),
      λ b' k.
          let bounded : b' * (x + a) ≤ a * y = (KeepsConstant-iff x y a b' pos).0 k in
          rw e ((le-div_iff_mul-le pos).1 bounded),
    )

swap_base_output_without_fees-eq-ok :
    (b x y : ℕ) {a : ℕ}
    → swap_base_output_without_fees b x y ≡ ok a
    → (r : ℕ) × (checked_ceil_div (x * b) (y - b) ≡ ok (a, r)) × (b ≤ y)
unfolding swap_base_output_without_fees
swap_base_output_without_fees-eq-ok b x y h =
    elim (Result-cases (checked_ceil_div (x * b) (y - b))) [
      | inl ((a', r), e) ↦ (r, ground arith, ground arith)
      | inr (f, e) ↦ absurd (ground arith)
    ]

left_in_pool_input : (x a b c : ℕ) → (x * (b + c) ≤ (x + a) * c) ↔ (x * b ≤ a * c)
left_in_pool_input x a b c = (λ h. omega arith, λ h. omega arith)

KeepsConstant-iff_input : (x y a b : ℕ) → b ≤ y → KeepsConstant x y a b ↔ (x * b ≤ a * (y - b))
KeepsConstant-iff_input x y a b within =
    let e : b + (y - b) ≡ y = omega arith in
    (
      λ h.
          (left_in_pool_input x a b (y - b)).0 (subst (λ z. x * z ≤ (x + a) * (y - b)) (sym e) h.1),
      λ h. (
        within,
        subst (λ z. x * z ≤ (x + a) * (y - b)) e ((left_in_pool_input x a b (y - b)).1 h),
      ),
    )

-- Where the ideal input is at least one unit, the input that the curve computes for an output,
-- where it succeeds, keeps the constant product, and no smaller input does.
pub swap_output_is_best :
    (b x y : ℕ) {a : ℕ}
    → swap_base_output_without_fees b x y ≡ ok a
    → y - b ≤ x * b
    → KeepsConstant x y a b × ((a' : ℕ) → KeepsConstant x y a' b → a ≤ a')
swap_output_is_best b x y {a} h big =
    let (r, e, within) = swap_base_output_without_fees-eq-ok b x y h in
    let c = checked_ceil_div-IsCeil (x * b) (y - b) big e in
    (
      (KeepsConstant-iff_input x y a b within).1 c.enough,
      λ a' k.
          let enough' : x * b ≤ a' * (y - b) = (KeepsConstant-iff_input x y a' b within).0 k in
          let below : a * (y - b) < (a' + 1) * (y - b) = omega (arith, c.tight) in
          omega (arith, mul_cancel_lt a (a' + 1) (y - b) below),
    )

-- An input that is not zero keeps the constant product.
pub swap_output_keeps :
    (b x y : ℕ) {a : ℕ} → swap_base_output_without_fees b x y ≡ ok a → 0 < a → KeepsConstant x y a b
swap_output_keeps b x y {a} h pos =
    let (r, e, within) = swap_base_output_without_fees-eq-ok b x y h in
    (KeepsConstant-iff_input x y a b within).1 (checked_ceil_div_enough (x * b) (y - b) e pos)

-- For reserves and an output that are not zero, the output below the reserve and the reserve a
-- `u64`: where the ideal input is less than half a unit, the curve asks for nothing, and that trade
-- does not keep the constant product.
pub swap_output_loses :
    (b x y : ℕ)
    → 0 < x
    → 0 < b
    → b < y
    → y < u64_mod
    → 2 * (x * b) < y - b
    → (swap_base_output_without_fees b x y ≡ ok 0) × ¬ KeepsConstant x y 0 b
unfolding swap_base_output_without_fees
swap_output_loses b x y hx hb hy bound small =
    let positive : 0 < x * b = mul-pos hx hb in
    (
      ground (arith, checked_ceil_div_small (x * b) (y - b) (omega arith) (omega arith)),
      λ k. omega (arith, (KeepsConstant-iff_input x y 0 b (omega arith)).0 k),
    )
