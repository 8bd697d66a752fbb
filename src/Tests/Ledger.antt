-- ===== src/Tests/Ledger.antt =====
-- A bank of balances and supplies, whose token-2022 mints withhold a flat fee, at most the amount;
-- it keeps what the instructions rely on.
mod Root
unfoldable pub use Root.*
use solana_dex.Base.{
  ℕ, ◌+◌, ◌-◌, ◌≤◌, ◌≡◌, ◌≢◌, inl, inr, Bool, true, [], Option, none, some, ok, arith, min, ltb,
  not_ltb→le, le→not_ltb, leb, leb→le, ◌⊎◌, Bool-cases, false, zero, suc, ◌*◌, ◌/◌, ◌<◌, ◌==◌,
  if-cases, if◌then◌else◌, refl, sym, subst, ap, ◌∙◌, ok-injective, some-injective,
}
use solana_dex.Keys.{Pubkey}
use solana_dex.Token.Interface.{Spl, MintAccount, Clock}
use solana_dex.Token.{get_transfer_fee, get_transfer_inverse_fee, inverse_fee}
use solana_dex.Token.Laws.{Laws, Moved, Minted, Burned}
use solana_dex.Instructions.Initialize.Value.{IsSqrt}
use solana_dex.Token.Creation.{Creation, CreationLaws}

pub record Ledger : Type 0 where
  pub amounts : Pubkey → ℕ
  pub supplies : Pubkey → ℕ

abbrev set_key : (Pubkey → ℕ) → Pubkey → ℕ → Pubkey → ℕ
set_key f k v j = if j == k then v else f j

set_key_same : (f : Pubkey → ℕ) (k : Pubkey) (v : ℕ) → set_key f k v k ≡ v
set_key_same f k v = ground arith

set_key_other : (f : Pubkey → ℕ) (k : Pubkey) (v : ℕ) (j : Pubkey) → j ≢ k → set_key f k v j ≡ f j
set_key_other f k v j ne = ground arith

-- A mint of the first token program, and one of token-2022 with the fee `n`.
abbrev token_program : Pubkey
token_program = 1

abbrev token_2022_program : Pubkey
token_2022_program = 2

abbrev fee_of : MintAccount ℕ → ℕ → ℕ
fee_of m n = if m.owner == token_program then 0 else min n m.content

abbrev transfer :
    Ledger → Clock → Pubkey → Pubkey → Pubkey → Pubkey → MintAccount ℕ → ℕ → ℕ → Option Ledger
transfer b c p a s d m n k =
    if ltb (b.amounts s) n
    then none
    else some (record b {
      amounts = set_key (set_key b.amounts s (b.amounts s - n)) d (b.amounts d + n - fee_of m n);
    })

abbrev issue : Ledger → Pubkey → Pubkey → Pubkey → Pubkey → ℕ → Option Ledger
issue b p a m d n = some (record {
  amounts = set_key b.amounts d (b.amounts d + n);
  supplies = set_key b.supplies m (b.supplies m + n);
})

abbrev retire : Ledger → Pubkey → Pubkey → Pubkey → Pubkey → ℕ → Option Ledger
retire b p a m s n =
    if ltb (b.amounts s) n
    then none
    else if ltb (b.supplies m) n
    then none
    else some (record {
      amounts = set_key b.amounts s (b.amounts s - n);
      supplies = set_key b.supplies m (b.supplies m - n);
    })

abbrev pub ledger : Spl ℕ ℕ Ledger
ledger = record {
  token_id = token_program;
  token_2022_id = token_2022_program;
  unpack_mint = λ _. true;
  get_extension_types = λ _. some [];
  ext_transfer_fee_config = 1;
  ext_metadata_pointer = 18;
  ext_token_metadata = 19;
  transfer_fee_config = λ n. some n;
  max_fee_basis_points = 10_000;
  epoch_basis_points = λ _ _. 0;
  epoch_maximum_fee = λ n _. n;
  calculate_epoch_fee = λ c _ n. some (min n c);
  calculate_inverse_epoch_fee = λ c _ _. some c;
  amount = λ b k. b.amounts k;
  supply = λ b m. b.supplies m;
  transfer_checked = transfer;
  mint_to = issue;
  burn = retire;
}

pub ledger_fee :
    (c : Clock) (m : MintAccount ℕ) (n : ℕ) → get_transfer_fee ledger c m n ≡ ok (fee_of m n)
unfolding get_transfer_fee
ledger_fee c m n = ground arith

ledger_inverse :
    (c : Clock) (m : MintAccount ℕ) (n i : ℕ)
    → get_transfer_inverse_fee ledger c m n ≡ ok i
    → fee_of m (n + i) ≤ i
unfolding get_transfer_inverse_fee inverse_fee
ledger_inverse c m n i h = ground arith

module _ (b : Ledger) where
  transfer-Moved :
      (c : Clock) (p a s d : Pubkey) (m : MintAccount ℕ) (n k : ℕ) {b' : Ledger}
      → s ≢ d
      → transfer b c p a s d m n k ≡ some b'
      → Moved ledger b b' s d n (fee_of m n)
  transfer-Moved c p a s d m n k {b'} ne h = elim (if-cases (ltb (b.amounts s) n) _ _ h) [
    | inl (_, e) ↦ absurd (cc)
    | inr (more, e) ↦
        let paid : Pubkey → ℕ = set_key b.amounts s (b.amounts s - n) in
        let got : ℕ = b.amounts d + n - fee_of m n in
        let enough : n ≤ b.amounts s = not_ltb→le (b.amounts s) n more in
        let within : fee_of m n ≤ n = ground arith in
        subst (λ x. Moved ledger b x s d n (fee_of m n)) (some-injective e)
          (record {
            debited = omega (
              arith,
              enough,
              set_key_other paid d got s ne,
              set_key_same b.amounts s (b.amounts s - n),
            );
            credited = omega (arith, within, set_key_same paid d got);
            others = λ j js jd.
                set_key_other paid d got j jd ∙ set_key_other b.amounts s (b.amounts s - n) j js;
            supplies = λ j. refl;
          })
  ]

  issue-Minted :
      (p a m d : Pubkey) (n : ℕ) {b' : Ledger}
      → issue b p a m d n ≡ some b'
      → Minted ledger b b' m d n
  issue-Minted p a m d n h =
      subst (λ x. Minted ledger b x m d n) (some-injective h)
        (record {
          credited = set_key_same b.amounts d (b.amounts d + n);
          issued = set_key_same b.supplies m (b.supplies m + n);
          others = λ j jd. set_key_other b.amounts d (b.amounts d + n) j jd;
          other_supplies = λ j jm. set_key_other b.supplies m (b.supplies m + n) j jm;
        })

  retire-Burned :
      (p a m s : Pubkey) (n : ℕ) {b' : Ledger}
      → retire b p a m s n ≡ some b'
      → Burned ledger b b' m s n
  retire-Burned p a m s n h = elim (if-cases (ltb (b.amounts s) n) _ _ h) [
    | inl (_, e) ↦ absurd (cc)
    | inr (more, e) ↦ elim (if-cases (ltb (b.supplies m) n) _ _ e) [
      | inl (_, e) ↦ absurd (cc)
      | inr (some_more, e) ↦
          subst (λ x. Burned ledger b x m s n) (some-injective e)
            (record {
              debited = omega (
                arith,
                not_ltb→le (b.amounts s) n more,
                set_key_same b.amounts s (b.amounts s - n),
              );
              retired = omega (
                arith,
                not_ltb→le (b.supplies m) n some_more,
                set_key_same b.supplies m (b.supplies m - n),
              );
              others = λ j js. set_key_other b.amounts s (b.amounts s - n) j js;
              other_supplies = λ j jm. set_key_other b.supplies m (b.supplies m - n) j jm;
            })
    ]
  ]

pub ledger-Laws : Laws ledger
ledger-Laws = record {
  transfer_moves = λ b b' c p a s d m n k f ne h e.
      subst (λ z. Moved ledger b b' s d n z) (ok-injective (sym (ledger_fee c m n) ∙ e))
        (transfer-Moved b c p a s d m n k ne h);
  fee_known = λ b b' c p a s d m n k h. (fee_of m n, ledger_fee c m n);
  fee_within = λ c m n f e.
      let same : fee_of m n ≡ f = ok-injective (sym (ledger_fee c m n) ∙ e) in
      let within : fee_of m n ≤ n = ground arith in omega arith;
  inverse_covers =
      λ c m n i e. (fee_of m (n + i), ledger_fee c m (n + i), ledger_inverse c m n i e);
  mint_issues = λ b b' p a m d n h. issue-Minted b p a m d n h;
  burn_retires = λ b b' p a m s n h. retire-Burned b p a m s n h;
}

-- Accounts are created without balances.
abbrev pub creation : Creation Ledger
creation = record {
  token_account_len = 165;
  required_init_account_extensions = λ e. e;
  try_calculate_account_len = λ e. some 165;
  minimum_balance = λ n. n;
  create_account = λ b _ _ _ _ _. some b;
  initialize_account3 = λ b _ _ _ _. some b;
  create_associated_token_account_idempotent = λ b _ _ _ _. some b;
}

pub creation-Laws : CreationLaws ledger creation
creation-Laws = record {
  create_amount = λ b p a l n o k ne h. ap (λ x. x.amounts k) (sym (ok-injective h));
  initialize_amount = λ b p a n o k ne h. ap (λ x. x.amounts k) (sym (ok-injective h));
  associated_amount = λ b w a n p k ne h. ap (λ x. x.amounts k) (sym (ok-injective h));
  create_supply = λ b p a l n o m h. ap (λ x. x.supplies m) (sym (ok-injective h));
  initialize_supply = λ b p a n o m h. ap (λ x. x.supplies m) (sym (ok-injective h));
  associated_supply = λ b w a n p m h. ap (λ x. x.supplies m) (sym (ok-injective h));
}
