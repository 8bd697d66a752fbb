-- ===== src/Curve/ConstantProduct/Checks.antt =====
-- The tests of curve/constant_product.rs and the check of a swap in curve/calculator.rs. A failed
-- `assert!` is a panic, and so is an overflow of plain arithmetic.
use solana_dex.Base.{
  ℕ, ◌-◌, Bool, true, false, List, [], ◌∷◌, Result, ok, err, nothing, ◌>>=◌, ◌>>◌, assert, unwrap,
  ◌==◌, leb, u128_mod, plus, times, minus, checked_add, checked_mul, checked_div, checked_rem, ◌≡◌,
  refl,
}
use solana_dex.Curve.ConstantProduct.{
  floor, ceiling, share, round_up, round_amounts, lp_tokens_to_trading_tokens,
  swap_base_input_without_fees,
}

unfoldable pub check_pool_token_rate : ℕ → ℕ → ℕ → ℕ → ℕ → ℕ → Result (Unit {0})
check_pool_token_rate token_a token_b deposit supply expected_a expected_b = do
  results ← unwrap (lp_tokens_to_trading_tokens deposit supply token_a token_b ceiling)
  assert (results.token_0_amount == expected_a)
  assert (results.token_1_amount == expected_b)

trading_token_conversion : Result (Unit {0})
trading_token_conversion = do
  check_pool_token_rate 2 49 5 10 1 25
  check_pool_token_rate 100 202 5 101 5 10
  check_pool_token_rate 5 501 2 10 1 101

abbrev is_none : {A : Type 0} → Result A → Bool
is_none (ok a) = false
is_none (err nothing) = true
is_none (err e) = false

fail_trading_token_conversion : Result (Unit {0})
fail_trading_token_conversion = do
  assert (is_none (lp_tokens_to_trading_tokens 5 10 (u128_mod - 1) 0 floor))
  assert (is_none (lp_tokens_to_trading_tokens 5 10 0 (u128_mod - 1) floor))

-- The amounts of one row of the table, and the ones that are expected.
record Truncation : Type 0 where
  source_amount : ℕ
  swap_source_amount : ℕ
  swap_destination_amount : ℕ
  expected_source_amount : ℕ
  expected_destination_amount : ℕ

test_truncation : Truncation → Result (Unit {0})
test_truncation t = do
  invariant ← times u128_mod t.swap_source_amount t.swap_destination_amount
  destination_amount_swapped ←
      swap_base_input_without_fees t.source_amount t.swap_source_amount t.swap_destination_amount
  assert (t.source_amount == t.expected_source_amount)
  assert (destination_amount_swapped == t.expected_destination_amount)
  new_source ← plus u128_mod t.swap_source_amount t.source_amount
  new_destination ← minus t.swap_destination_amount destination_amount_swapped
  new_invariant ← times u128_mod new_source new_destination
  assert (leb invariant new_invariant)

abbrev row : ℕ → ℕ → ℕ → ℕ → ℕ → Truncation
row a x y b d = record {
  source_amount = a;
  swap_source_amount = x;
  swap_destination_amount = y;
  expected_source_amount = b;
  expected_destination_amount = d;
}

abbrev rounding_rows : List Truncation
rounding_rows =
    row 10 4_000_000 70_000_000_000 10 174_999
    ∷ row 20 29_980 10_000 20 6
    ∷ row 19 29_980 10_000 19 6
    ∷ row 18 29_980 10_000 18 6
    ∷ row 10 20_000 30_000 10 14
    ∷ row 10 19_991 30_000 10 14
    ∷ row 10 19_990 30_000 10 15
    ∷ row 100 60_000 30_000 100 49
    ∷ row 99 60_000 30_000 99 49
    ∷ row 98 60_000 30_000 98 48
    ∷ []

test_all : List Truncation → Result (Unit {0})
test_all [] = ok tt
test_all (t ∷ rest) = do test_truncation t; test_all rest

constant_product_swap_rounding : Result (Unit {0})
constant_product_swap_rounding = test_all rounding_rows

trading_token_conversion_lem : trading_token_conversion ≡ ok tt
unfolding trading_token_conversion check_pool_token_rate lp_tokens_to_trading_tokens share
    round_amounts round_up checked_mul checked_div checked_rem plus
trading_token_conversion_lem = refl

fail_trading_token_conversion_lem : fail_trading_token_conversion ≡ ok tt
unfolding fail_trading_token_conversion lp_tokens_to_trading_tokens share round_amounts checked_mul
    checked_div
fail_trading_token_conversion_lem = refl

constant_product_swap_rounding_lem : constant_product_swap_rounding ≡ ok tt
unfolding constant_product_swap_rounding test_all test_truncation swap_base_input_without_fees times
    plus minus checked_mul checked_add checked_div
constant_product_swap_rounding_lem = refl
