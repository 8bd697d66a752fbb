-- ===== src/Base/Outcome.antt =====
-- The error codes of programs/cp-swap/src/error.rs, and the outcome of a fallible computation.
-- One type covers the program's `Result`, its `Option` and its panics: `?` is the bind below,
-- `None` is the failure `nothing`, and a failed `unwrap`, `assert!` or overflow check is `panic`.
use Prim.Native.Nat.{ℕ}
use mathlib.Core.Path.{◌≡◌, refl}
use mathlib.Core.Logic.{◌⊎◌, inl, inr}
use mathlib.Core.Bool.{Bool, true, false}
use solana_dex.Base.Tests.{ltb, leb, ◌==◌, ==_iff}

pub data ErrorCode : Type 0 where
  not_approved invalid_owner empty_supply invalid_input incorrect_lp_mint : ErrorCode
  exceeded_slippage zero_trading_tokens not_support_mint invalid_vault : ErrorCode
  init_lp_amount_too_less : ErrorCode

-- Anchor's own codes that the program's macros raise.
pub data AnchorError : Type 0 where
  require_gt_violated require_gte_violated require_eq_violated require_keys_neq_violated :
      AnchorError
  constraint_raw constraint_address constraint_token_mint constraint_token_owner : AnchorError
  constraint_seeds constraint_mint_token_program : AnchorError

pub data Failure : Type 0 where
  code : ErrorCode → Failure
  anchor : AnchorError → Failure
  nothing panic callee : Failure

pub data Result {ℓ} (Value : Type ℓ) : Type ℓ where
  err : Failure → Result Value
  ok : Value → Result Value

-- `.unwrap()`
abbrev pub unwrap {ℓ} : {A : Type ℓ} → Result A → Result A
unwrap (ok a) = ok a
unwrap (err nothing) = err panic
unwrap (err e) = err e

-- `.ok_or(c)?`
abbrev pub ok_or {ℓ} : {A : Type ℓ} → Result A → ErrorCode → Result A
ok_or (ok a) c = ok a
ok_or (err nothing) c = err (code c)
ok_or (err e) c = err e

-- `?` on a value, and on a check that has none.
infixl 5 ◌>>=◌
abbrev pub ◌>>=◌ {ℓ κ} :
    {Value : Type ℓ} {Last : Type κ} → Result Value → (Value → Result Last) → Result Last
err failure >>= next = err failure
ok value >>= next = next value

infixl 5 ◌>>◌
abbrev pub ◌>>◌ {ℓ} : {Last : Type ℓ} → Result (Unit {0}) → Result Last → Result Last
err failure >> next = err failure
ok _ >> next = next

abbrev pub guard : Bool → Failure → Result (Unit {0})
guard passed failure = elim passed [ false ↦ err failure | true ↦ ok tt ]

-- `assert!(b)`
abbrev pub assert : Bool → Result (Unit {0})
assert b = guard b panic

-- `require_gt!(a, b)`, `require_gte!(a, b)`, `require_eq!(a, b)` and the same with a code.
abbrev pub require_gt : ℕ → ℕ → Failure → Result (Unit {0})
require_gt a b e = guard (ltb b a) e

abbrev pub require_gte : ℕ → ℕ → Failure → Result (Unit {0})
require_gte a b e = guard (leb b a) e

abbrev pub require_eq : ℕ → ℕ → Failure → Result (Unit {0})
require_eq a b e = guard (a == b) e

-- To split on a computed outcome and keep the equation.
pub Result-cases {ℓ} :
    {A : Type ℓ} (m : Result A) → ((a : A) × (m ≡ ok a)) ⊎ ((e : Failure) × (m ≡ err e))
Result-cases (ok a) = inl (a, refl)
Result-cases (err e) = inr (e, refl)

pub ok-injective {ℓ} : {A : Type ℓ} {a b : A} → ok a ≡ ok b → a ≡ b
ok-injective h = cc

-- Inversion of a successful chain: what follows is proved from variables.
pub >>=-elim {ℓ κ μ} :
    {A : Type ℓ} {B : Type κ} {P : Type μ} (m : Result A) (f : A → Result B) {b : B}
    → (m >>= f) ≡ ok b
    → ((a : A) → m ≡ ok a → f a ≡ ok b → P)
    → P
>>=-elim (ok a) f h k = k a refl h
>>=-elim (err e) f h k = cc

pub >>=-eq-ok {ℓ κ} :
    {Value : Type ℓ} {Last : Type κ} (run : Result Value) (next : Value → Result Last) {last : Last}
    → (run >>= next) ≡ ok last
    → (value : Value) × (run ≡ ok value) × (next value ≡ ok last)
>>=-eq-ok run next h = >>=-elim run next h λ value e k. (value, e, k)

-- The other way: a chain of successes.
pub >>=-ok {ℓ κ} :
    {A : Type ℓ} {B : Type κ} (m : Result A) (f : A → Result B) {a : A} {b : B}
    → m ≡ ok a
    → f a ≡ ok b
    → (m >>= f) ≡ ok b
>>=-ok m f e h = rw e h

-- A computation that returns a value, and a chain of those.
abbrev pub Succeeds {ℓ} : {A : Type ℓ} → Result A → Type ℓ
Succeeds {A = A} m = (a : A) × (m ≡ ok a)

pub >>=-Succeeds {ℓ κ} :
    {A : Type ℓ} {B : Type κ} (m : Result A) (f : A → Result B) {a : A}
    → m ≡ ok a
    → Succeeds (f a)
    → Succeeds (m >>= f)
>>=-Succeeds m f e (b, h) = (b, >>=-ok m f e h)

pub >>-Succeeds {ℓ} :
    {B : Type ℓ} (m : Result (Unit {0})) (f : Result B) → m ≡ ok tt → Succeeds f → Succeeds (m >> f)
>>-Succeeds m f e (b, h) = (b, rw e h)

pub unwrap_ok {ℓ} : {A : Type ℓ} (m : Result A) {a : A} → m ≡ ok a → unwrap m ≡ ok a
unwrap_ok m e = rw e refl

pub ok_or_ok {ℓ} : {A : Type ℓ} (m : Result A) (c : ErrorCode) {a : A} → m ≡ ok a → ok_or m c ≡ ok a
ok_or_ok m c e = rw e refl

pub guard_ok : (b : Bool) (e : Failure) → b ≡ true → guard b e ≡ ok tt
guard_ok b e h = rw h refl

pub >>-elim {ℓ κ} :
    {B : Type ℓ} {P : Type κ} (m : Result (Unit {0})) (f : Result B) {b : B}
    → (m >> f) ≡ ok b
    → (m ≡ ok tt → f ≡ ok b → P)
    → P
>>-elim (ok tt) f h k = k refl h
>>-elim (err e) f h k = cc

pub unwrap-eq-ok {ℓ} : {A : Type ℓ} (m : Result A) {a : A} → unwrap m ≡ ok a → m ≡ ok a
unwrap-eq-ok (ok a) h = h
unwrap-eq-ok (err nothing) h = cc
unwrap-eq-ok (err e) h = cc

pub ok_or-eq-ok {ℓ} :
    {A : Type ℓ} (m : Result A) (c : ErrorCode) {a : A} → ok_or m c ≡ ok a → m ≡ ok a
ok_or-eq-ok (ok a) c h = h
ok_or-eq-ok (err nothing) c h = cc
ok_or-eq-ok (err e) c h = cc

pub guard-eq-ok : (b : Bool) (e : Failure) → guard b e ≡ ok tt → b ≡ true
guard-eq-ok true e h = refl
guard-eq-ok false e h = cc

-- `.unwrap()` of a `Result`: every error is a panic.
abbrev pub unwrap_result {ℓ} : {A : Type ℓ} → Result A → Result A
unwrap_result (ok a) = ok a
unwrap_result (err e) = err panic

-- A check that two keys are the same, at the head of a chain.
pub same-elim {ℓ κ} :
    {B : Type ℓ} {P : Type κ} (a b : ℕ) (e : Failure) (f : Result B) {v : B}
    → (guard (a == b) e >> f) ≡ ok v
    → (a ≡ b → f ≡ ok v → P)
    → P
same-elim a b e f h k =
    >>-elim (guard (a == b) e) f h λ g h. k ((==_iff a b).0 (guard-eq-ok (a == b) e g)) h

-- The first failure of a chain is its failure.
pub >>-err {ℓ} :
    {B : Type ℓ} (m : Result (Unit {0})) (f : Result B) {e : Failure}
    → m ≡ ok tt
    → f ≡ err e
    → (m >> f) ≡ err e
>>-err m f h k = rw h k

pub >>-err_first {ℓ} :
    {B : Type ℓ} (m : Result (Unit {0})) (f : Result B) {e : Failure} → m ≡ err e → (m >> f) ≡ err e
>>-err_first m f h = rw h refl

pub >>=-err_first {ℓ κ} :
    {A : Type ℓ} {B : Type κ} (m : Result A) (f : A → Result B) {e : Failure}
    → m ≡ err e
    → (m >>= f) ≡ err e
>>=-err_first m f h = rw h refl

-- What a check before a chain that has one outcome leaves of it.
pub >>-before {ℓ κ} :
    {A : Type ℓ} {B : Type κ} (m : Result (Unit {0})) (f : Result A) (g : A → Result B)
    {r : Result B}
    → (f >>= g) ≡ r
    → ((m >> f) >>= g) ≡ (m >> r)
>>-before (err e) f g h = refl
>>-before (ok u) f g h = h

pub guard_err : (b : Bool) (e : Failure) → b ≡ false → guard b e ≡ err e
guard_err b e h = rw h refl
