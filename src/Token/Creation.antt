-- ===== src/Token/Creation.antt =====
-- `create_token_account` of utils/token.rs, over the calls of the system program and the token
-- programs that create accounts, with what is relied on of those.
use solana_dex.Base.{
  ℕ, List, Option, Result, ok, callee, ◌>>=◌, ◌>>◌, guard, ◌≡◌, ◌≢◌, ◌==◌, if◌then◌else◌, >>=-elim,
  ◌∙◌,
}
use solana_dex.Keys.{Pubkey}
use solana_dex.Token.Interface.{Spl, MintAccount}
use solana_dex.Token.{invoke}

pub record Creation (Bank : Type 0) : Type 0 where
  -- the length of a token account, also with the extensions that a mint's extensions require
  pub token_account_len : ℕ
  pub required_init_account_extensions : List ℕ → List ℕ
  pub try_calculate_account_len : List ℕ → Option ℕ
  pub minimum_balance : ℕ → ℕ
  -- payer, account, lamports, space, owner
  pub create_account : Bank → Pubkey → Pubkey → ℕ → ℕ → Pubkey → Option Bank
  -- program, account, mint, authority
  pub initialize_account3 : Bank → Pubkey → Pubkey → Pubkey → Pubkey → Option Bank
  -- payer and wallet, account, mint, program
  pub create_associated_token_account_idempotent :
      Bank → Pubkey → Pubkey → Pubkey → Pubkey → Option Bank

module _ {MintData FeeConfig Bank : Type 0} (spl : Spl MintData FeeConfig Bank)
    (creation : Creation Bank) where
  -- The space of a token account for the mint.
  unfoldable pub account_space : MintAccount MintData → Result ℕ
  account_space mint =
      if mint.owner == spl.token_2022_id
      then (do
        guard (spl.unpack_mint mint.content) callee
        extensions ← invoke (spl.get_extension_types mint.content)
        invoke (
            creation.try_calculate_account_len
              (creation.required_init_account_extensions extensions)))
      else ok creation.token_account_len

  unfoldable pub create_token_account :
      Bank → Pubkey → Pubkey → Pubkey → MintAccount MintData → Pubkey → Result Bank
  create_token_account bank authority payer token_account mint token_program = do
    space ← account_space mint
    created ← invoke (
        creation.create_account bank payer token_account (creation.minimum_balance space) space
          token_program)
    invoke (creation.initialize_account3 created token_program token_account mint.key authority)

  -- Creating an account issues no tokens and leaves the other accounts' balances.
  pub record CreationLaws : Type 0 where
    pub create_amount :
        (b : Bank) (p a : Pubkey) (l n : ℕ) (o k : Pubkey) {b' : Bank}
        → k ≢ a
        → invoke (creation.create_account b p a l n o) ≡ ok b'
        → spl.amount b' k ≡ spl.amount b k
    pub initialize_amount :
        (b : Bank) (p a n o k : Pubkey) {b' : Bank}
        → k ≢ a
        → invoke (creation.initialize_account3 b p a n o) ≡ ok b'
        → spl.amount b' k ≡ spl.amount b k
    pub associated_amount :
        (b : Bank) (w a n p k : Pubkey) {b' : Bank}
        → k ≢ a
        → invoke (creation.create_associated_token_account_idempotent b w a n p) ≡ ok b'
        → spl.amount b' k ≡ spl.amount b k
    pub create_supply :
        (b : Bank) (p a : Pubkey) (l n : ℕ) (o m : Pubkey) {b' : Bank}
        → invoke (creation.create_account b p a l n o) ≡ ok b'
        → spl.supply b' m ≡ spl.supply b m
    pub initialize_supply :
        (b : Bank) (p a n o m : Pubkey) {b' : Bank}
        → invoke (creation.initialize_account3 b p a n o) ≡ ok b'
        → spl.supply b' m ≡ spl.supply b m
    pub associated_supply :
        (b : Bank) (w a n p m : Pubkey) {b' : Bank}
        → invoke (creation.create_associated_token_account_idempotent b w a n p) ≡ ok b'
        → spl.supply b' m ≡ spl.supply b m

  pub create_token_account_supply :
      (laws : CreationLaws) (b : Bank) (a w k : Pubkey) (n : MintAccount MintData) (p m : Pubkey)
      {b' : Bank}
      → create_token_account b a w k n p ≡ ok b'
      → spl.supply b' m ≡ spl.supply b m
  unfolding create_token_account
  create_token_account_supply laws b a w k n p m h = >>=-elim (account_space n) _ h λ l _ h.
      >>=-elim (invoke (creation.create_account b w k (creation.minimum_balance l) l p)) _ h
        λ b₁ e h.
          laws.initialize_supply b₁ p k n.key a m h
          ∙ laws.create_supply b w k (creation.minimum_balance l) l p m e

  pub create_token_account_amount :
      (laws : CreationLaws) (b : Bank) (a w d : Pubkey) (n : MintAccount MintData) (p k : Pubkey)
      {b' : Bank}
      → k ≢ d
      → create_token_account b a w d n p ≡ ok b'
      → spl.amount b' k ≡ spl.amount b k
  unfolding create_token_account
  create_token_account_amount laws b a w d n p k ne h = >>=-elim (account_space n) _ h λ l _ h.
      >>=-elim (invoke (creation.create_account b w d (creation.minimum_balance l) l p)) _ h
        λ b₁ e h.
          laws.initialize_amount b₁ p d n.key a k ne h
          ∙ laws.create_amount b w d (creation.minimum_balance l) l p k ne e
