-- ===== src/Token.antt =====
-- programs/cp-swap/src/utils/token.rs over the token programs, which are not under the repository:
-- `Spl` holds the calls that the code makes of them, with the token accounts and mints as an
-- abstract `Bank`, a mint's data and a transfer-fee extension as abstract types.
pub mod Interface
pub mod Mints
pub mod Creation
pub mod Laws
use solana_dex.Base.{
  ℕ, Bool, Option, none, some, Result, ok, err, nothing, callee, code, invalid_input, ◌>>=◌, ◌>>◌,
  guard, unwrap, ◌==◌, if◌then◌else◌,
}
use solana_dex.Keys.{Pubkey}
use Interface.{Spl, MintAccount, Clock}

-- An `Option` of the token programs, and a cross-program call that fails.
abbrev from_option : {A : Type 0} → Option A → Result A
from_option none = err nothing
from_option (some a) = ok a

abbrev pub invoke : {A : Type 0} → Option A → Result A
invoke none = err callee
invoke (some a) = ok a

module _ {MintData FeeConfig Bank : Type 0} (spl : Spl MintData FeeConfig Bank) where
  unfoldable pub transfer_from_user_to_pool_vault :
      Bank → Pubkey → Pubkey → Pubkey → Clock → MintAccount MintData → Pubkey → ℕ → ℕ → Result Bank
  transfer_from_user_to_pool_vault bank authority from to_vault clock mint token_program amount
        mint_decimals =
      if amount == 0
      then ok bank
      else invoke (
          spl.transfer_checked bank clock token_program authority from to_vault mint amount
            mint_decimals)

  unfoldable pub transfer_from_pool_vault_to_user :
      Bank → Pubkey → Pubkey → Pubkey → Clock → MintAccount MintData → Pubkey → ℕ → ℕ → Result Bank
  transfer_from_pool_vault_to_user bank authority from_vault to clock mint token_program amount
        mint_decimals =
      if amount == 0
      then ok bank
      else invoke (
          spl.transfer_checked bank clock token_program authority from_vault to mint amount
            mint_decimals)

  unfoldable pub token_mint_to : Bank → Pubkey → Pubkey → Pubkey → Pubkey → ℕ → Result Bank
  token_mint_to bank authority token_program mint destination amount =
      invoke (spl.mint_to bank token_program authority mint destination amount)

  unfoldable pub token_burn : Bank → Pubkey → Pubkey → Pubkey → Pubkey → ℕ → Result Bank
  token_burn bank authority token_program mint from amount =
      invoke (spl.burn bank token_program authority mint from amount)

  -- The fee that is added for an output, by the extension's configuration of the epoch.
  unfoldable pub inverse_fee : FeeConfig → ℕ → ℕ → Result ℕ
  inverse_fee config epoch post_fee_amount =
      if spl.epoch_basis_points config epoch == spl.max_fee_basis_points
      then ok (spl.epoch_maximum_fee config epoch)
      else unwrap (from_option (spl.calculate_inverse_epoch_fee config epoch post_fee_amount))

  unfoldable pub get_transfer_inverse_fee : Clock → MintAccount MintData → ℕ → Result ℕ
  get_transfer_inverse_fee clock mint_info post_fee_amount =
      if mint_info.owner == spl.token_id
      then ok 0
      else if post_fee_amount == 0
      then err (code invalid_input)
      else (do
        guard (spl.unpack_mint mint_info.content) callee
        elim (spl.transfer_fee_config mint_info.content) [
          | none ↦ ok 0
          | some config ↦ inverse_fee config clock.epoch post_fee_amount
        ])

  unfoldable pub get_transfer_fee : Clock → MintAccount MintData → ℕ → Result ℕ
  get_transfer_fee clock mint_info pre_fee_amount =
      if mint_info.owner == spl.token_id then ok 0 else (do
        guard (spl.unpack_mint mint_info.content) callee
        elim (spl.transfer_fee_config mint_info.content) [
          | none ↦ ok 0
          | some config ↦
              unwrap (from_option (spl.calculate_epoch_fee config clock.epoch pre_fee_amount))
        ])
