-- ===== src/Base/Word.antt =====
-- Rust's checked arithmetic on the unsigned integers below `m`: `m` is `u64_mod` or `u128_mod`.
use Prim.Native.Nat.{ℕ, ◌+◌, ◌-◌, ◌*◌, ◌/◌, ◌%◌, ◌^◌, ◌≤◌, ◌<◌}
use mathlib.Core.Path.{◌≡◌}
use native.Mathlib.Omega.{arith}
use solana_dex.Base.Tests.{ltb, leb, ◌==◌, if◌then◌else◌}
use solana_dex.Base.Outcome.{Result, ok, err, nothing, panic}

abbrev pub u64_mod : ℕ
u64_mod = 2 ^ 64

abbrev pub u128_mod : ℕ
u128_mod = 2 ^ 128

unfoldable pub checked_add : ℕ → ℕ → ℕ → Result ℕ
checked_add m a b = if ltb (a + b) m then ok (a + b) else err nothing

unfoldable pub checked_sub : ℕ → ℕ → Result ℕ
checked_sub a b = if leb b a then ok (a - b) else err nothing

unfoldable pub checked_mul : ℕ → ℕ → ℕ → Result ℕ
checked_mul m a b = if ltb (a * b) m then ok (a * b) else err nothing

unfoldable pub checked_div : ℕ → ℕ → Result ℕ
checked_div a b = if b == 0 then err nothing else ok (a / b)

unfoldable pub checked_rem : ℕ → ℕ → Result ℕ
checked_rem a b = if b == 0 then err nothing else ok (a % b)

-- `a + b`, which panics on overflow: the crate is built with overflow checks.
unfoldable pub plus : ℕ → ℕ → ℕ → Result ℕ
plus m a b = if ltb (a + b) m then ok (a + b) else err panic

-- `a * b`, in the same way.
unfoldable pub times : ℕ → ℕ → ℕ → Result ℕ
times m a b = if ltb (a * b) m then ok (a * b) else err panic

-- `a - b`, in the same way.
unfoldable pub minus : ℕ → ℕ → Result ℕ
minus a b = if leb b a then ok (a - b) else err panic

-- `a / b`, which panics on a zero divisor.
unfoldable pub over : ℕ → ℕ → Result ℕ
over a b = if b == 0 then err panic else ok (a / b)

-- `u64::try_from(a)`
unfoldable pub try_u64 : ℕ → Result ℕ
try_u64 a = if ltb a u64_mod then ok a else err nothing

pub checked_add-eq-ok : (m a b : ℕ) {c : ℕ} → checked_add m a b ≡ ok c → (c ≡ a + b) × (a + b < m)
unfolding checked_add
checked_add-eq-ok m a b h = ground arith

pub checked_sub-eq-ok : (a b : ℕ) {c : ℕ} → checked_sub a b ≡ ok c → (a ≡ b + c) × (b ≤ a)
unfolding checked_sub
checked_sub-eq-ok a b h = ground arith

pub checked_mul-eq-ok : (m a b : ℕ) {c : ℕ} → checked_mul m a b ≡ ok c → (c ≡ a * b) × (a * b < m)
unfolding checked_mul
checked_mul-eq-ok m a b h = ground arith

pub plus-eq-ok : (m a b : ℕ) {c : ℕ} → plus m a b ≡ ok c → (c ≡ a + b) × (a + b < m)
unfolding plus
plus-eq-ok m a b h = ground arith

pub try_u64-eq-ok : (a : ℕ) {c : ℕ} → try_u64 a ≡ ok c → (c ≡ a) × (a < u64_mod)
unfolding try_u64
try_u64-eq-ok a h = ground arith

pub checked_add_total : (m a b : ℕ) → a + b < m → checked_add m a b ≡ ok (a + b)
unfolding checked_add
checked_add_total m a b h = ground arith

pub checked_sub_total : (a b : ℕ) → b ≤ a → checked_sub a b ≡ ok (a - b)
unfolding checked_sub
checked_sub_total a b h = ground arith

pub checked_mul_total : (m a b : ℕ) → a * b < m → checked_mul m a b ≡ ok (a * b)
unfolding checked_mul
checked_mul_total m a b h = ground arith

pub checked_div_total : (a b : ℕ) → 0 < b → checked_div a b ≡ ok (a / b)
unfolding checked_div
checked_div_total a b h = ground arith

pub plus_total : (m a b : ℕ) → a + b < m → plus m a b ≡ ok (a + b)
unfolding plus
plus_total m a b h = ground arith

pub try_u64_total : (a : ℕ) → a < u64_mod → try_u64 a ≡ ok a
unfolding try_u64
try_u64_total a h = ground arith
