-- ===== src/Tests/Ledger/Root.antt =====
-- An integer root that computes, for the `integer_sqrt` that initialize.rs calls.
use solana_dex.Base.{
  ℕ, ◌+◌, ◌*◌, ◌/◌, ◌≤◌, ◌<◌, ◌≡◌, ◌⊎◌, inl, inr, true, false, zero, suc, arith, leb, leb→le,
  Bool-cases, ◌==◌, if◌then◌else◌, refl, sym, subst,
}
use solana_dex.Instructions.Initialize.Value.{IsSqrt}

-- The integer root, digit by digit in base four.
abbrev next_digit : ℕ → ℕ → ℕ
next_digit n r = if leb ((r + 1) * (r + 1)) n then r + 1 else r

unfoldable pub root_in : ℕ → ℕ → ℕ
root_in zero n = 0
root_in (suc fuel) n = elim (n == 0) [ true ↦ 0 | false ↦ next_digit n (2 * root_in fuel (n / 4)) ]

abbrev IsRoot : ℕ → ℕ → Type 0
IsRoot n r = (r * r ≤ n) × (n < (r + 1) * (r + 1))

next_digit-IsRoot : (n r : ℕ) → IsRoot (n / 4) r → IsRoot n (next_digit n (2 * r))
next_digit-IsRoot n r (lo, hi) = elim (Bool-cases (leb ((2 * r + 1) * (2 * r + 1)) n)) [
  | inl e ↦ let more = leb→le ((2 * r + 1) * (2 * r + 1)) n e in rw e (omega arith, omega arith)
  | inr e ↦
      let less : n < (2 * r + 1) * (2 * r + 1) = ground arith in rw e (omega arith, omega arith)
]

root_in_cases :
    (fuel n : ℕ)
    → ((n ≡ 0) × (root_in (suc fuel) n ≡ 0))
      ⊎ (root_in (suc fuel) n ≡ next_digit n (2 * root_in fuel (n / 4)))
unfolding root_in
root_in_cases fuel zero = inl (refl, refl)
root_in_cases fuel (suc n) =
    let no : (suc n == 0) ≡ false = ground arith in inr (rw (root_in, no) refl)

root_in-IsRoot : (fuel n : ℕ) → n ≤ fuel → IsRoot n (root_in fuel n)
unfolding root_in
root_in-IsRoot zero n h = omega arith
root_in-IsRoot (suc fuel) n h = elim (root_in_cases fuel n) [
  | inl (nil, e) ↦ subst (IsRoot n) (sym e) (omega arith, omega arith)
  | inr e ↦
      subst (IsRoot n) (sym e)
        (next_digit-IsRoot n (root_in fuel (n / 4)) (root_in-IsRoot fuel (n / 4) (omega arith)))
]

unfoldable pub isqrt : ℕ → ℕ
isqrt n = root_in n n

pub isqrt-IsSqrt : IsSqrt isqrt
unfolding isqrt
isqrt-IsSqrt = record {
  below = λ n. (root_in-IsRoot n n (omega arith)).0;
  above = λ n. (root_in-IsRoot n n (omega arith)).1;
}
