-- ===== src/Life/Book.antt =====
-- What the pool of programs/cp-swap promises its liquidity providers, without accounts, fees or
-- token programs: a book of two reserves and of the shares in them, and how each action
-- may move it.
use solana_dex.Base.{◌⊎◌, ℕ, ◌+◌, ◌*◌, ◌≤◌, ◌<◌, ◌≡◌, arith, mul_mono, mul_cancel_le, subst, sym}
use native.Mathlib.Nat.{le_trans}
use solana_dex.Curve.ConstantProduct.Shares.{
  IsRoundedDown, IsRoundedUp, rest_keeps_part, rounded_up_part,
}

pub record Book : Type 0 where
  pub reserve_0 : ℕ
  pub reserve_1 : ℕ
  pub shares : ℕ

-- What is done to the book: an exchange of the two tokens, the sale of new shares, the payment of
-- shares that are given back, a gift, or nothing.
pub data Action : Type 0 where
  trade : Action
  fund : (shares : ℕ) → Action
  redeem : (shares : ℕ) → Action
  gift : Action
  keep : Action

-- A trade raises one reserve and lowers the other, if it changes them, and does not lower their
-- product.
pub record Traded (b b' : Book) : Type 0 where
  pub product : b.reserve_0 * b.reserve_1 ≤ b'.reserve_0 * b'.reserve_1
  pub one_way :
      ((b.reserve_0 ≤ b'.reserve_0) × (b'.reserve_1 ≤ b.reserve_1))
      ⊎ ((b'.reserve_0 ≤ b.reserve_0) × (b.reserve_1 ≤ b'.reserve_1))
  pub count : b'.shares ≡ b.shares

-- New shares cost their part of both reserves, rounded up, or nothing where that is less than one
-- unit.
pub record Funded (n : ℕ) (b b' : Book) : Type 0 where
  pub cost_0 : ℕ
  pub cost_1 : ℕ
  pub up_0 : IsRoundedUp n b.shares b.reserve_0 cost_0
  pub up_1 : IsRoundedUp n b.shares b.reserve_1 cost_1
  pub in_0 : b.reserve_0 + cost_0 ≤ b'.reserve_0
  pub in_1 : b.reserve_1 + cost_1 ≤ b'.reserve_1
  pub count : b'.shares ≡ b.shares + n

-- Shares that are given back are paid exactly their part, rounded down.
pub record Redeemed (n : ℕ) (b b' : Book) : Type 0 where
  pub paid_0 : ℕ
  pub paid_1 : ℕ
  pub down_0 : IsRoundedDown n b.shares b.reserve_0 paid_0
  pub down_1 : IsRoundedDown n b.shares b.reserve_1 paid_1
  pub out_0 : b.reserve_0 ≡ b'.reserve_0 + paid_0
  pub out_1 : b.reserve_1 ≡ b'.reserve_1 + paid_1
  pub count : b.shares ≡ b'.shares + n

pub record Gifted (b b' : Book) : Type 0 where
  pub in_0 : b.reserve_0 ≤ b'.reserve_0
  pub in_1 : b.reserve_1 ≤ b'.reserve_1
  pub count : b'.shares ≡ b.shares

pub record Untouched (b b' : Book) : Type 0 where
  pub reserve_0 : b'.reserve_0 ≡ b.reserve_0
  pub reserve_1 : b'.reserve_1 ≡ b.reserve_1
  pub count : b'.shares ≡ b.shares

-- How an action may move the book.
abbrev pub Move : Action → Book → Book → Type 0
Move trade b b' = Traded b b'
Move (fund n) b b' = Funded n b b'
Move (redeem n) b b' = Redeemed n b b'
Move gift b b' = Gifted b b'
Move keep b b' = Untouched b b'

-- New shares are worth at least one unit of each reserve.
abbrev pub IsPaid : Action → Book → Type 0
IsPaid trade b = Unit {0}
IsPaid (fund n) b = (b.shares ≤ n * b.reserve_0) × (b.shares ≤ n * b.reserve_1)
IsPaid (redeem n) b = Unit {0}
IsPaid gift b = Unit {0}
IsPaid keep b = Unit {0}

-- A share of `b'` is worth at least a share of `b`: the product of the reserves per square of the
-- shares has not fallen.
abbrev pub KeepsWorth : Book → Book → Type 0
KeepsWorth b b' =
    b.reserve_0 * b.reserve_1 * (b'.shares * b'.shares)
    ≤ b'.reserve_0 * b'.reserve_1 * (b.shares * b.shares)

pub KeepsWorth-refl : (b : Book) → KeepsWorth b b
KeepsWorth-refl b = omega arith

-- Of two moves that each keep the worth, over a positive number of shares between them.
pub KeepsWorth-trans :
    (b c d : Book) → 0 < c.shares → KeepsWorth b c → KeepsWorth c d → KeepsWorth b d
KeepsWorth-trans b c d pos p q =
    worth_trans (b.reserve_0 * b.reserve_1) (c.reserve_0 * c.reserve_1) (d.reserve_0 * d.reserve_1)
      (b.shares * b.shares) (c.shares * c.shares) (d.shares * d.shares)
      (mul_mono 1 c.shares 1 c.shares pos pos) p q
  where
    swap_last : (k s t : ℕ) → k * s * t ≡ k * t * s
    swap_last k s t = omega arith

    worth_trans : (k l m s t u : ℕ) → 0 < t → k * t ≤ l * s → l * u ≤ m * t → k * u ≤ m * s
    worth_trans k l m s t u h p q = mul_cancel_le (k * u) (m * s) t h (
        le_trans
          (subst (λ z. z ≤ l * s * u) (swap_last k t u)
            (mul_mono (k * t) (l * s) u u p (omega arith)))
          (subst (λ z. l * s * u ≤ z) (swap_last m t s)
            (subst (λ z. z ≤ m * t * s) (swap_last l u s)
              (mul_mono (l * u) (m * t) s s q (omega arith)))))

-- Where a share keeps its part of both reserves it keeps its worth.
both_parts :
    (b b' : Book)
    → b.reserve_0 * b'.shares ≤ b'.reserve_0 * b.shares
    → b.reserve_1 * b'.shares ≤ b'.reserve_1 * b.shares
    → KeepsWorth b b'
both_parts b b' p q =
    subst (λ z. z ≤ b'.reserve_0 * b'.reserve_1 * (b.shares * b.shares))
      (cross b.reserve_0 b.reserve_1 b'.shares)
      (subst (λ z. b.reserve_0 * b'.shares * (b.reserve_1 * b'.shares) ≤ z)
        (cross b'.reserve_0 b'.reserve_1 b.shares) (mul_mono _ _ _ _ p q))
  where
    cross : (x y s : ℕ) → x * s * (y * s) ≡ x * y * (s * s)
    cross x y s = omega arith

-- Reserves that have not fallen, for as many shares.
raised :
    (b b' : Book)
    → b.reserve_0 ≤ b'.reserve_0
    → b.reserve_1 ≤ b'.reserve_1
    → b'.shares ≡ b.shares
    → KeepsWorth b b'
raised b b' g_0 g_1 e =
    both_parts b b'
      (subst (λ s. b.reserve_0 * s ≤ b'.reserve_0 * b.shares) (sym e)
        (mul_mono _ _ b.shares _ g_0 (omega arith)))
      (subst (λ s. b.reserve_1 * s ≤ b'.reserve_1 * b.shares) (sym e)
        (mul_mono _ _ b.shares _ g_1 (omega arith)))

-- A move whose new shares, if any, are worth at least one unit of each reserve keeps the worth of a
-- share.
pub Move-KeepsWorth : (a : Action) (b b' : Book) → Move a b b' → IsPaid a b → KeepsWorth b b'
Move-KeepsWorth trade b b' m _ =
    subst
      (λ s.
        b.reserve_0 * b.reserve_1 * (s * s) ≤ b'.reserve_0 * b'.reserve_1 * (b.shares * b.shares))
      (sym m.count) (mul_mono _ _ (b.shares * b.shares) _ m.product (omega arith))
Move-KeepsWorth (fund n) b b' m (one_0, one_1) =
    both_parts b b'
      (rounded_up_part n b.shares b.reserve_0 m.cost_0 b'.shares b'.reserve_0 one_0 m.up_0 m.in_0
        m.count)
      (rounded_up_part n b.shares b.reserve_1 m.cost_1 b'.shares b'.reserve_1 one_1 m.up_1 m.in_1
        m.count)
Move-KeepsWorth (redeem n) b b' m _ =
    both_parts b b'
      (rest_keeps_part n b.shares b.reserve_0 m.paid_0 b'.shares b'.reserve_0 m.down_0 m.out_0
        m.count)
      (rest_keeps_part n b.shares b.reserve_1 m.paid_1 b'.shares b'.reserve_1 m.down_1 m.out_1
        m.count)
Move-KeepsWorth gift b b' m _ = raised b b' m.in_0 m.in_1 m.count
Move-KeepsWorth keep b b' m _ =
    raised b b' (omega (arith, m.reserve_0)) (omega (arith, m.reserve_1)) m.count

-- From shares whose square is within the product of two reserves that are not empty, shares that
-- keep their worth stay so.
pub backed_after :
    (b b' : Book)
    → 0 < b.reserve_0
    → 0 < b.reserve_1
    → b.shares * b.shares ≤ b.reserve_0 * b.reserve_1
    → KeepsWorth b b'
    → b'.shares * b'.shares ≤ b'.reserve_0 * b'.reserve_1
backed_after b b' pos_0 pos_1 backed keeps =
    mul_cancel_le (b'.shares * b'.shares) (b'.reserve_0 * b'.reserve_1) (b.reserve_0 * b.reserve_1)
      (mul_mono 1 b.reserve_0 1 b.reserve_1 pos_0 pos_1)
      (subst (λ z. z ≤ b'.reserve_0 * b'.reserve_1 * (b.reserve_0 * b.reserve_1))
        (swap_factors (b.reserve_0 * b.reserve_1) (b'.shares * b'.shares))
        (le_trans keeps
          (mul_mono (b'.reserve_0 * b'.reserve_1) _ (b.shares * b.shares) _ (omega arith) backed)))
  where
    swap_factors : (k t : ℕ) → k * t ≡ t * k
    swap_factors k t = omega arith
