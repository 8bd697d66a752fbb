-- ===== src/Curve/Math/Rounding.antt =====
-- What `checked_ceil_div` of utils/math.rs returns.
use solana_dex.Base.{
  ℕ, ◌+◌, ◌*◌, ◌/◌, ◌≤◌, ◌<◌, ◌≡◌, ok, arith, ltb, if◌then◌else◌, leb, ◌%◌, ◌⊎◌, inl, inr, div-pos,
  Bool-cases, ltb→lt, not_ltb→le, zero, suc, sym, ◌∙◌, u128_mod, mul_cancel_lt,
}
use solana_dex.Curve.Math.{ceil_remainder, checked_ceil_div}

-- `q` is the quotient rounded up, and `r` is the least divisor, at most `d`, that gives it.
pub record IsCeil (n d q r : ℕ) : Type 0 where
  pub enough : n ≤ q * d
  pub tight : q * d < n + d
  pub covers : n ≤ q * r
  pub least : q * r < n + q
  pub below : r ≤ d

-- The least `r` with `n ≤ q * r`.
abbrev least_factor : ℕ → ℕ → ℕ
least_factor n q = if ltb 0 (n % q) then n / q + 1 else n / q

ceil_remainder_cases :
    (n d : ℕ) {q r : ℕ}
    → ceil_remainder n d (n / d) ≡ ok (q, r)
    → ((n % d ≡ 0) × (q ≡ n / d) × (r ≡ d))
      ⊎ ((0 < n % d) × (q ≡ n / d + 1) × (r ≡ least_factor n q))
unfolding ceil_remainder
ceil_remainder_cases n d h = ground arith

least_factor_bounds :
    (n q : ℕ) → 0 < q → (n ≤ q * least_factor n q) × (q * least_factor n q < n + q)
least_factor_bounds n q h = elim (Bool-cases (ltb 0 (n % q))) [
  | inl e ↦ let some_left = ltb→lt 0 (n % q) e in rw e (omega arith, omega arith)
  | inr e ↦ let none_left = not_ltb→le 0 (n % q) e in rw e (omega arith, omega arith)
]

-- The least factor of the rounded quotient is at most the divisor.
IsCeil-intro :
    (n d q r : ℕ) → n ≤ q * d → q * d < n + d → n ≤ q * r → q * r < n + q → IsCeil n d q r
IsCeil-intro n d q r h₁ h₂ h₃ h₄ = record {
  enough = h₁;
  tight = h₂;
  covers = h₃;
  least = h₄;
  below =
      let under : r * q < (d + 1) * q = omega arith in
      omega (arith, mul_cancel_lt r (d + 1) q under);
}

ceil_remainder-IsCeil :
    (n d : ℕ) {q r : ℕ} → 0 < d → d ≤ n → ceil_remainder n d (n / d) ≡ ok (q, r) → IsCeil n d q r
ceil_remainder-IsCeil n d {q} {r} hd hn h = elim (ceil_remainder_cases n d h) [
  | inl (exact, eq, er) ↦
      let whole : q * d ≡ n = rw eq (omega arith) in
      let pos : 0 < n / d = div-pos n d hd hn in
      IsCeil-intro n d q r (omega arith) (omega arith) (rw er (omega arith)) (rw er (omega arith))
  | inr (inexact, eq, er) ↦
      let (lo, hi) = least_factor_bounds n q (omega arith) in
      IsCeil-intro n d q r (rw eq (omega arith)) (rw eq (omega arith)) (rw er lo) (rw er hi)
]

checked_ceil_div_large :
    (n d : ℕ) → 0 < d → d ≤ n → checked_ceil_div n d ≡ ceil_remainder n d (n / d)
unfolding checked_ceil_div
checked_ceil_div_large n d hd hn = ground (arith, div-pos n d hd hn)

checked_ceil_div-pos : (n d : ℕ) {p : ℕ × ℕ} → checked_ceil_div n d ≡ ok p → 0 < d
unfolding checked_ceil_div
checked_ceil_div-pos n zero h = cc
checked_ceil_div-pos n (suc d) h = omega arith

-- From a dividend of at least the divisor, checked_ceil_div, where it succeeds, returns the
-- quotient rounded up, and the least divisor that gives it, which is at most the divisor.
pub checked_ceil_div-IsCeil :
    (n d : ℕ) {q r : ℕ} → d ≤ n → checked_ceil_div n d ≡ ok (q, r) → IsCeil n d q r
checked_ceil_div-IsCeil n d hn h =
    let pos : 0 < d = checked_ceil_div-pos n d h in
    ceil_remainder-IsCeil n d pos hn (sym (checked_ceil_div_large n d pos hn) ∙ h)

-- From a smaller dividend it rounds to the nearest: one from half the divisor on, else zero.
pub checked_ceil_div_small :
    (n d : ℕ)
    → n < d
    → d < u128_mod / 2
    → checked_ceil_div n d ≡ ok (if leb d (n * 2) then 1 else 0, 0)
unfolding checked_ceil_div
checked_ceil_div_small n d hn hd = let e : n / d ≡ 0 = grind arith in ground arith

small_quotient : (n d : ℕ) {q r : ℕ} → n < d → checked_ceil_div n d ≡ ok (q, r) → q ≤ 1
unfolding checked_ceil_div
small_quotient n d hn h = let e : n / d ≡ 0 = grind arith in ground arith

-- A quotient that is not zero is enough, whatever the dividend.
pub checked_ceil_div_enough :
    (n d : ℕ) {q r : ℕ} → checked_ceil_div n d ≡ ok (q, r) → 0 < q → n ≤ q * d
checked_ceil_div_enough n d {q} h pos = elim (Bool-cases (ltb n d)) [
  | inl e ↦
      let one : q ≡ 1 = omega (arith, small_quotient n d (ltb→lt n d e) h) in
      rw one (omega (arith, ltb→lt n d e))
  | inr e ↦ (checked_ceil_div-IsCeil n d (not_ltb→le n d e) h).enough
]
