-- ===== src/States/Config.antt =====
-- states/config.rs.
use solana_dex.Base.{ℕ, Bool, false, List, replicate, ◌+◌, ◌≤◌, ◌<◌}
use solana_dex.Keys.{Pubkey, default_key}
use solana_dex.Curve.Fees.{fee_rate_denominator_value}

pub record AmmConfig : Type 0 where
  pub bump : ℕ
  pub disable_create_pool : Bool
  pub index : ℕ
  pub trade_fee_rate : ℕ
  pub protocol_fee_rate : ℕ
  pub fund_fee_rate : ℕ
  pub protocol_owner : Pubkey
  pub fund_owner : Pubkey
  pub padding : List ℕ

-- The account that `init` hands over: all zero.
abbrev pub default_config : AmmConfig
default_config = record {
  bump = 0;
  disable_create_pool = false;
  index = 0;
  trade_fee_rate = 0;
  protocol_fee_rate = 0;
  fund_fee_rate = 0;
  protocol_owner = default_key;
  fund_owner = default_key;
  padding = replicate 16 0;
}

-- The rates under which every fee is within what it is taken from.
pub record IsValid (c : AmmConfig) : Type 0 where
  pub trade_below_one : c.trade_fee_rate < fee_rate_denominator_value
  pub shares_at_most_one : c.protocol_fee_rate + c.fund_fee_rate ≤ fee_rate_denominator_value
