-- ===== src/Token/Mints.antt =====
-- `is_supported_mint` of utils/token.rs: which extensions a mint of token-2022 may carry.
use solana_dex.Base.{
  ℕ, Bool, true, false, ◌&&◌, ◌||◌, not, List, [], ◌∷◌, none, some, Result, ok, err, callee, ◌>>◌,
  guard, ◌==◌, if◌then◌else◌,
}
use solana_dex.Keys.{Pubkey}
use solana_dex.Token.Interface.{Spl, MintAccount}

abbrev mint_whitelist : List Pubkey
mint_whitelist = []

unfoldable pub contains : List Pubkey → Pubkey → Bool
contains [] k = false
contains (j ∷ js) k = j == k || contains js k

module _ {MintData FeeConfig Bank : Type 0} (spl : Spl MintData FeeConfig Bank) where
  -- The loop over the extension types: it returns false at the first that is not one of three.
  unfoldable pub all_supported : List ℕ → Bool
  all_supported [] = true
  all_supported (e ∷ extensions) =
      if not (e == spl.ext_transfer_fee_config)
        && (not (e == spl.ext_metadata_pointer) && not (e == spl.ext_token_metadata))
      then false
      else all_supported extensions

  unfoldable pub is_supported_mint : MintAccount MintData → Result Bool
  is_supported_mint mint =
      if mint.owner == spl.token_id
      then ok true
      else if contains mint_whitelist mint.key
      then ok true
      else (do
        guard (spl.unpack_mint mint.content) callee
        elim (spl.get_extension_types mint.content) [
          | none ↦ err callee
          | some extensions ↦ ok (all_supported extensions)
        ])
