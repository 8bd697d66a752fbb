-- ===== src/States/Pool.antt =====
-- states/pool.rs: the state of a pool, its status bits, and the reserves net of fees.
pub mod Status
pub mod Reserves
pub mod Checks
use solana_dex.Base.{
  ℕ, ◌^◌, Bool, List, replicate, Result, ok, ◌>>=◌, unwrap, ◌==◌, u64_mod, u128_mod, plus, times,
  over, checked_sub, bit_and, bit_or, bit_xor,
}
use solana_dex.Keys.{Pubkey}

abbrev q32 : ℕ
q32 = 2 ^ 32

pub data PoolStatusBitIndex : Type 0 where
  deposit withdraw swap : PoolStatusBitIndex

pub data PoolStatusBitFlag : Type 0 where
  enable disable : PoolStatusBitFlag

pub record PoolState : Type 0 where
  pub amm_config : Pubkey
  pub pool_creator : Pubkey
  pub token_0_vault : Pubkey
  pub token_1_vault : Pubkey
  pub lp_mint : Pubkey
  pub token_0_mint : Pubkey
  pub token_1_mint : Pubkey
  pub token_0_program : Pubkey
  pub token_1_program : Pubkey
  pub observation_key : Pubkey
  pub auth_bump : ℕ
  pub status : ℕ
  pub lp_mint_decimals : ℕ
  pub mint_0_decimals : ℕ
  pub mint_1_decimals : ℕ
  pub lp_supply : ℕ
  pub protocol_fees_token_0 : ℕ
  pub protocol_fees_token_1 : ℕ
  pub fund_fees_token_0 : ℕ
  pub fund_fees_token_1 : ℕ
  pub open_time : ℕ
  pub padding : List ℕ

-- What `initialize` reads of a mint account: its key, the program that owns it, its decimals.
pub record MintInfo : Type 0 where
  pub key : Pubkey
  pub owner : Pubkey
  pub decimals : ℕ

unfoldable pub initialize :
    PoolState
    → ℕ
    → ℕ
    → ℕ
    → Pubkey
    → Pubkey
    → Pubkey
    → Pubkey
    → MintInfo
    → MintInfo
    → MintInfo
    → Pubkey
    → PoolState
initialize self auth_bump lp_supply open_time pool_creator amm_config token_0_vault token_1_vault
      token_0_mint token_1_mint lp_mint observation_key =
    record self {
      amm_config = amm_config;
      pool_creator = pool_creator;
      token_0_vault = token_0_vault;
      token_1_vault = token_1_vault;
      lp_mint = lp_mint.key;
      token_0_mint = token_0_mint.key;
      token_1_mint = token_1_mint.key;
      token_0_program = token_0_mint.owner;
      token_1_program = token_1_mint.owner;
      observation_key = observation_key;
      auth_bump = auth_bump;
      lp_mint_decimals = 9;
      mint_0_decimals = token_0_mint.decimals;
      mint_1_decimals = token_1_mint.decimals;
      lp_supply = lp_supply;
      protocol_fees_token_0 = 0;
      protocol_fees_token_1 = 0;
      fund_fees_token_0 = 0;
      fund_fees_token_1 = 0;
      open_time = open_time;
      padding = replicate 32 0;
    }

unfoldable pub set_status : PoolState → ℕ → PoolState
set_status self status = record self { status = status }

-- `u8::from(1) << (bit as u8)`
abbrev pub status_mask : PoolStatusBitIndex → ℕ
status_mask deposit = 1
status_mask withdraw = 2
status_mask swap = 4

-- The new status byte.
unfoldable pub status_by_bit : ℕ → PoolStatusBitIndex → PoolStatusBitFlag → ℕ
status_by_bit status bit disable = bit_or status (status_mask bit)
status_by_bit status bit enable = bit_and status (bit_xor 255 (status_mask bit))

unfoldable pub set_status_by_bit : PoolState → PoolStatusBitIndex → PoolStatusBitFlag → PoolState
unfolding status_by_bit
set_status_by_bit self bit flag = record self { status = status_by_bit self.status bit flag }

unfoldable pub get_status_by_bit : PoolState → PoolStatusBitIndex → Bool
get_status_by_bit self bit = bit_and self.status (status_mask bit) == 0

unfoldable pub vault_amount_without_fee : PoolState → ℕ → ℕ → Result (ℕ × ℕ)
vault_amount_without_fee self vault_0 vault_1 = do
  fees_0 ← plus u64_mod self.protocol_fees_token_0 self.fund_fees_token_0
  amount_0 ← unwrap (checked_sub vault_0 fees_0)
  fees_1 ← plus u64_mod self.protocol_fees_token_1 self.fund_fees_token_1
  amount_1 ← unwrap (checked_sub vault_1 fees_1)
  ok (amount_0, amount_1)

unfoldable pub token_price_x32 : PoolState → ℕ → ℕ → Result (ℕ × ℕ)
token_price_x32 self vault_0 vault_1 = do
  (token_0_amount, token_1_amount) ← vault_amount_without_fee self vault_0 vault_1
  scaled_1 ← times u128_mod token_1_amount q32
  price_0 ← over scaled_1 token_0_amount
  scaled_0 ← times u128_mod token_0_amount q32
  price_1 ← over scaled_0 token_1_amount
  ok (price_0, price_1)
