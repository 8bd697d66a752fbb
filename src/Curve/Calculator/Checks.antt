-- ===== src/Curve/Calculator/Checks.antt =====
-- The check of a swap among the test helpers of curve/calculator.rs, which the tests of
-- curve/constant_product.rs run on random amounts, and what it finds on all of them.
use solana_dex.Base.{
  ℕ, ◌+◌, ◌-◌, ◌*◌, ◌/◌, ◌≤◌, ◌<◌, ◌≡◌, Result, ok, arith, refl, subst, sym, ◌>>=◌, >>=-ok, assert,
  guard_ok, unwrap, unwrap_ok, leb, le→leb, u64_mod, u128_mod, checked_add, checked_sub,
  checked_mul, checked_add_total, checked_sub_total, checked_mul_total, quotient_bounds, mul_mono,
}
use solana_dex.Curve.ConstantProduct.{swap_base_input_without_fees}
use solana_dex.Curve.ConstantProduct.Swaps.{swap_base_input_without_fees_total, swap_input_is_best}
use solana_dex.Curve.Calculator.{TradeDirection, zero_for_one, one_for_zero}

-- The amounts of the two tokens, by the direction of the trade.
abbrev token_0 : TradeDirection → ℕ → ℕ → ℕ
token_0 zero_for_one source destination = source
token_0 one_for_zero source destination = destination

abbrev token_1 : TradeDirection → ℕ → ℕ → ℕ
token_1 zero_for_one source destination = destination
token_1 one_for_zero source destination = source

unfoldable pub check_curve_value_from_swap : ℕ → ℕ → ℕ → TradeDirection → Result (Unit {0})
check_curve_value_from_swap source_token_amount swap_source_amount swap_destination_amount
      trade_direction =
    do
      destination_amount_swapped ←
          swap_base_input_without_fees source_token_amount swap_source_amount
            swap_destination_amount
      previous_value ← unwrap (
          checked_mul u128_mod (token_0 trade_direction swap_source_amount swap_destination_amount)
            (token_1 trade_direction swap_source_amount swap_destination_amount))
      new_source ← unwrap (checked_add u128_mod swap_source_amount source_token_amount)
      new_destination ← unwrap (checked_sub swap_destination_amount destination_amount_swapped)
      new_value ← unwrap (
          checked_mul u128_mod (token_0 trade_direction new_source new_destination)
            (token_1 trade_direction new_source new_destination))
      assert (leb previous_value new_value)

product_of : (d : TradeDirection) (x y : ℕ) → token_0 d x y * token_1 d x y ≡ x * y
product_of zero_for_one x y = refl
product_of one_for_zero x y = omega arith

-- With `c` of the destination left, the new product exceeds the old one by less than the source.
new_product :
    (s x d c : ℕ) → s * (d + c) < d * (x + s) + (x + s) → (x + s) * c < x * (d + c) + (x + s)
new_product s x d c h = omega arith

-- The products of the check fit in `u128`.
products_fit :
    (s x y d : ℕ)
    → s < u64_mod - 1
    → x < u64_mod - 1
    → y < u64_mod - 1
    → 0 < x
    → d ≤ y
    → d ≡ s * y / (x + s)
    → (x * y < u128_mod) × ((x + s) * (y - d) < u128_mod)
products_fit s x y d hs hx hy pos within e =
    let (_, high, _) = quotient_bounds d (s * y) (x + s) (omega arith) e in
    let split : d + (y - d) ≡ y = omega arith in
    let most : x * y ≤ (u64_mod - 2) * (u64_mod - 2) =
      mul_mono x (u64_mod - 2) y (u64_mod - 2) (omega arith) (omega arith) in
    let grown : (x + s) * (y - d) < x * y + (x + s) =
      subst (λ z. (x + s) * (y - d) < x * z + (x + s)) split
        (new_product s x d (y - d)
          (subst (λ z. s * z < d * (x + s) + (x + s)) (sym split) (omega (arith, high)))) in
    (omega arith, omega arith)

-- The check passes on all amounts that the tests draw, in both directions.
pub curve_value_does_not_decrease_from_swap :
    (s x y : ℕ) (direction : TradeDirection)
    → s < u64_mod - 1
    → x < u64_mod - 1
    → y < u64_mod - 1
    → 0 < x
    → check_curve_value_from_swap s x y direction ≡ ok tt
unfolding check_curve_value_from_swap
curve_value_does_not_decrease_from_swap s x y direction hs hx hy pos =
    let d : ℕ = s * y / (x + s) in
    let swapped =
      swap_base_input_without_fees_total s x y (omega arith) (omega arith) (omega arith) pos in
    let ((within, grows), _) = swap_input_is_best s x y swapped in
    let (fits, new_fits) = products_fit s x y d hs hx hy pos within refl in
    let before = product_of direction x y in
    let after = product_of direction (x + s) (y - d) in
    >>=-ok (swap_base_input_without_fees s x y) _ swapped (
      >>=-ok (unwrap (checked_mul u128_mod (token_0 direction x y) (token_1 direction x y))) _
        (unwrap_ok _ (
          checked_mul_total u128_mod (token_0 direction x y) (token_1 direction x y)
            (subst (λ n. n < u128_mod) (sym before) fits)))
        (>>=-ok (unwrap (checked_add u128_mod x s)) _
          (unwrap_ok _ (checked_add_total u128_mod x s (omega arith)))
          (>>=-ok (unwrap (checked_sub y d)) _ (unwrap_ok _ (checked_sub_total y d within)) (
            >>=-ok
              (unwrap (
                checked_mul u128_mod (token_0 direction (x + s) (y - d))
                  (token_1 direction (x + s) (y - d))))
              _
              (unwrap_ok _ (
                checked_mul_total u128_mod (token_0 direction (x + s) (y - d))
                  (token_1 direction (x + s) (y - d))
                  (subst (λ n. n < u128_mod) (sym after) new_fits)))
              (guard_ok _ _ (
                le→leb (token_0 direction x y * token_1 direction x y)
                  (token_0 direction (x + s) (y - d) * token_1 direction (x + s) (y - d))
                  (omega (arith, before, after, grows))))))))
