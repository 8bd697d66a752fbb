-- ===== src/States/Pool/Status.antt =====
-- The status bits of states/pool.rs, over every status byte.
use solana_dex.Base.{
  ℕ, zero, suc, ◌%◌, ◌/◌, ◌<◌, ◌≡◌, refl, ap, ◌∙◌, not, ==_iff, Bool, true, false, ◌&&◌, arith, ltb,
  ltb→lt, if◌then◌else◌, bit_and, ◌==◌,
}
use solana_dex.States.Pool.{
  PoolState, PoolStatusBitIndex, deposit, withdraw, swap, PoolStatusBitFlag, enable, disable,
  status_mask, status_by_bit, set_status_by_bit, get_status_by_bit,
}

abbrev pub same_bit : PoolStatusBitIndex → PoolStatusBitIndex → Bool
same_bit deposit deposit = true
same_bit withdraw withdraw = true
same_bit swap swap = true
same_bit _ _ = false

abbrev pub is_enable : PoolStatusBitFlag → Bool
is_enable enable = true
is_enable disable = false

-- Whether an operation is open under a status byte.
abbrev is_open : ℕ → PoolStatusBitIndex → Bool
is_open status bit = bit_and status (status_mask bit) == 0

abbrev beq : Bool → Bool → Bool
beq true b = b
beq false true = false
beq false false = true

beq→eq : (a b : Bool) → beq a b ≡ true → a ≡ b
beq→eq true true h = refl
beq→eq true false h = cc
beq→eq false true h = cc
beq→eq false false h = refl

-- A test at every number below a bound.
holds_below : (ℕ → Bool) → ℕ → Bool
holds_below test zero = true
holds_below test (suc bound) = test bound && holds_below test bound

holds_below-lt :
    (test : ℕ → Bool) (bound v : ℕ) → v < bound → holds_below test bound ≡ true → test v ≡ true
unfolding holds_below
holds_below-lt test zero v less h = absurd (omega arith)
holds_below-lt test (suc bound) v less h = ground (arith, holds_below-lt test bound v)

both : (a b : Bool) → (a && b) ≡ true → (a ≡ true) × (b ≡ true)
both a b h = ground arith

abbrev all_bits : (PoolStatusBitIndex → Bool) → Bool
all_bits p = p deposit && (p withdraw && p swap)

all_bits_sound :
    (p : PoolStatusBitIndex → Bool) (b : PoolStatusBitIndex) → all_bits p ≡ true → p b ≡ true
all_bits_sound p deposit h = (both _ _ h).0
all_bits_sound p withdraw h = (both _ _ (both _ _ h).1).0
all_bits_sound p swap h = (both _ _ (both _ _ h).1).1

abbrev all_flags : (PoolStatusBitFlag → Bool) → Bool
all_flags p = p enable && p disable

all_flags_sound :
    (p : PoolStatusBitFlag → Bool) (f : PoolStatusBitFlag) → all_flags p ≡ true → p f ≡ true
all_flags_sound p enable h = (both _ _ h).0
all_flags_sound p disable h = (both _ _ h).1

-- The law of one bit, flag and byte, as a test.
set_get_test : PoolStatusBitIndex → PoolStatusBitFlag → PoolStatusBitIndex → ℕ → Bool
unfolding status_by_bit
set_get_test b f b' s =
    beq (is_open (status_by_bit s b f) b') (if same_bit b b' then is_enable f else is_open s b')
    && ltb (status_by_bit s b f) 256

set_get_table :
    all_bits (λ b. all_flags (λ f. all_bits (λ b'. holds_below (set_get_test b f b') 256))) ≡ true
unfolding holds_below set_get_test
set_get_table = refl

set_get_sound :
    (b : PoolStatusBitIndex) (f : PoolStatusBitFlag) (b' : PoolStatusBitIndex)
    → holds_below (set_get_test b f b') 256 ≡ true
set_get_sound b f b' =
    all_bits_sound (λ b'. holds_below (set_get_test b f b') 256) b'
      (all_flags_sound (λ f. all_bits (λ b'. holds_below (set_get_test b f b') 256)) f
        (all_bits_sound
          (λ b. all_flags (λ f. all_bits (λ b'. holds_below (set_get_test b f b') 256))) b
          set_get_table))

-- From a status that is a byte, setting one operation's bit opens or closes that operation as the
-- flag says, leaves the other two as they were, and the status stays a byte.
pub get_status-set_status_by_bit :
    (p : PoolState) (b : PoolStatusBitIndex) (f : PoolStatusBitFlag) (b' : PoolStatusBitIndex)
    → p.status < 256
    → (get_status_by_bit (set_status_by_bit p b f) b'
        ≡ (if same_bit b b' then is_enable f else get_status_by_bit p b'))
      × ((set_status_by_bit p b f).status < 256)
unfolding get_status_by_bit set_status_by_bit set_get_test
get_status-set_status_by_bit p b f b' h =
    let (law, byte) =
      both _ _ (holds_below-lt (set_get_test b f b') 256 p.status h (set_get_sound b f b')) in
    (beq→eq _ _ law, ltb→lt _ 256 byte)

-- The binary digit of a status byte that closes an operation.
abbrev pub digit : PoolStatusBitIndex → ℕ → ℕ
digit deposit n = n % 2
digit withdraw n = n / 2 % 2
digit swap n = n / 4 % 2

digit_test : PoolStatusBitIndex → ℕ → Bool
digit_test b s = beq (is_open s b) (not (digit b s == 1))

digit_table : all_bits (λ b. holds_below (digit_test b) 256) ≡ true
unfolding holds_below digit_test
digit_table = refl

pub get_status_by_bit-digit :
    (p : PoolState) (b : PoolStatusBitIndex)
    → p.status < 256
    → digit b p.status ≡ 1
    → get_status_by_bit p b ≡ false
unfolding get_status_by_bit digit_test
get_status_by_bit-digit p b h one =
    beq→eq _ _ (
      holds_below-lt (digit_test b) 256 p.status h
        (all_bits_sound (λ c. holds_below (digit_test c) 256) b digit_table))
    ∙ ap not ((==_iff (digit b p.status) 1).1 one)
