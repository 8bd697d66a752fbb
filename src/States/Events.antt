-- ===== src/States/Events.antt =====
-- states/events.rs: what the instructions emit.
use solana_dex.Base.{ℕ, Bool}
use solana_dex.Keys.{Pubkey}

pub record LpChangeEvent : Type 0 where
  pub pool_id : Pubkey
  pub lp_amount_before : ℕ
  pub token_0_vault_before : ℕ
  pub token_1_vault_before : ℕ
  pub token_0_amount : ℕ
  pub token_1_amount : ℕ
  pub token_0_transfer_fee : ℕ
  pub token_1_transfer_fee : ℕ
  pub change_type : ℕ

pub record SwapEvent : Type 0 where
  pub pool_id : Pubkey
  pub input_vault_before : ℕ
  pub output_vault_before : ℕ
  pub input_amount : ℕ
  pub output_amount : ℕ
  pub input_transfer_fee : ℕ
  pub output_transfer_fee : ℕ
  pub base_input : Bool

pub record CreatePoolEvent : Type 0 where
  pub pool_id : Pubkey
  pub creator : Pubkey
  pub token_0_mint : Pubkey
  pub token_1_mint : Pubkey
  pub token_0_amount : ℕ
  pub token_1_amount : ℕ
  pub lp_mint : Pubkey
  pub liquidity : ℕ
