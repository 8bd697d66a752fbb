-- ===== src/Token/Interface.antt =====
-- What utils/token.rs and the instructions call of the token programs and of the runtime's clock.
use solana_dex.Base.{ℕ, Bool, Option, List}
use solana_dex.Keys.{Pubkey}

-- `Clock::get()`; the timestamp is read `as u64`.
pub record Clock : Type 0 where
  pub unix_timestamp : ℕ
  pub epoch : ℕ

-- A mint account as an instruction receives it; `owner` is the program that owns the account.
pub record MintAccount (MintData : Type 0) : Type 0 where
  pub key : Pubkey
  pub owner : Pubkey
  pub decimals : ℕ
  pub content : MintData

pub record Spl (MintData FeeConfig Bank : Type 0) : Type 0 where
  -- the ids of the two token programs
  pub token_id : Pubkey
  pub token_2022_id : Pubkey
  -- `StateWithExtensions::unpack` succeeds; `get_extension_types`; the three extensions by name
  pub unpack_mint : MintData → Bool
  pub get_extension_types : MintData → Option (List ℕ)
  pub ext_transfer_fee_config : ℕ
  pub ext_metadata_pointer : ℕ
  pub ext_token_metadata : ℕ
  -- the transfer-fee extension and its configuration in an epoch
  pub transfer_fee_config : MintData → Option FeeConfig
  pub max_fee_basis_points : ℕ
  pub epoch_basis_points : FeeConfig → ℕ → ℕ
  pub epoch_maximum_fee : FeeConfig → ℕ → ℕ
  pub calculate_epoch_fee : FeeConfig → ℕ → ℕ → Option ℕ
  pub calculate_inverse_epoch_fee : FeeConfig → ℕ → ℕ → Option ℕ
  -- balances and supplies, and the instructions that change them
  pub amount : Bank → Pubkey → ℕ
  pub supply : Bank → Pubkey → ℕ
  -- program, authority, source, destination, mint, amount, decimals
  pub transfer_checked :
      Bank → Clock → Pubkey → Pubkey → Pubkey → Pubkey → MintAccount MintData → ℕ → ℕ → Option Bank
  -- program, authority, mint, account, amount
  pub mint_to : Bank → Pubkey → Pubkey → Pubkey → Pubkey → ℕ → Option Bank
  pub burn : Bank → Pubkey → Pubkey → Pubkey → Pubkey → ℕ → Option Bank
