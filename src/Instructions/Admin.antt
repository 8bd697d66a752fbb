-- ===== src/Instructions/Admin.antt =====
-- instructions/admin/create_config.rs, update_config.rs and update_pool_status.rs, with the checks of
-- their entry points in lib.rs.
pub mod Rates
pub mod Changes
pub mod Collect
pub mod CollectRun
pub mod CollectValue
use solana_dex.Base.{
  ℕ, ◌+◌, ◌<◌, false, not, List, [], ◌∷◌, Result, ok, err, anchor, code, panic, invalid_owner,
  invalid_input, constraint_address, constraint_seeds, require_gte_violated,
  require_keys_neq_violated, require_gte, ◌>>=◌, ◌>>◌, guard, assert, ltb, leb, ◌==◌, u64_mod, plus,
  if◌then◌else◌,
}
use solana_dex.Keys.{Pubkey, default_key, admin}
use solana_dex.Curve.Fees.{fee_rate_denominator_value}
use solana_dex.States.Config.{AmmConfig, default_config}
use solana_dex.States.Pool.{PoolState, set_status}

-- The handler on the account that `init` hands over; `bump` is of the config's derived address.
unfoldable pub create_config_handler : Pubkey → ℕ → ℕ → ℕ → ℕ → ℕ → AmmConfig
create_config_handler owner bump index trade_fee_rate protocol_fee_rate fund_fee_rate =
    record default_config {
      protocol_owner = owner;
      bump = bump;
      disable_create_pool = false;
      index = index;
      trade_fee_rate = trade_fee_rate;
      protocol_fee_rate = protocol_fee_rate;
      fund_fee_rate = fund_fee_rate;
      fund_owner = owner;
    }

-- The entry point, after the constraints: the new account is at the address that the seeds derive
-- from the index, and the signer is the administrator.
unfoldable pub create_amm_config :
    (ℕ → Pubkey) → Pubkey → Pubkey → ℕ → ℕ → ℕ → ℕ → ℕ → Result AmmConfig
create_amm_config derived owner amm_config bump index trade_fee_rate protocol_fee_rate
      fund_fee_rate =
    do
      guard (amm_config == derived index) (anchor constraint_seeds)
      guard (owner == admin) (code invalid_owner)
      assert (ltb trade_fee_rate fee_rate_denominator_value)
      assert (leb protocol_fee_rate fee_rate_denominator_value)
      assert (leb fund_fee_rate fee_rate_denominator_value)
      shares ← plus u64_mod fund_fee_rate protocol_fee_rate
      assert (leb shares fee_rate_denominator_value)
      ok (create_config_handler owner bump index trade_fee_rate protocol_fee_rate fund_fee_rate)

unfoldable pub update_protocol_fee_rate : AmmConfig → ℕ → Result AmmConfig
update_protocol_fee_rate config protocol_fee_rate = do
  assert (leb protocol_fee_rate fee_rate_denominator_value)
  shares ← plus u64_mod protocol_fee_rate config.fund_fee_rate
  assert (leb shares fee_rate_denominator_value)
  ok (record config { protocol_fee_rate = protocol_fee_rate })

unfoldable pub update_trade_fee_rate : AmmConfig → ℕ → Result AmmConfig
update_trade_fee_rate config trade_fee_rate = do
  assert (ltb trade_fee_rate fee_rate_denominator_value)
  ok (record config { trade_fee_rate = trade_fee_rate })

unfoldable pub update_fund_fee_rate : AmmConfig → ℕ → Result AmmConfig
update_fund_fee_rate config fund_fee_rate = do
  assert (leb fund_fee_rate fee_rate_denominator_value)
  shares ← plus u64_mod fund_fee_rate config.protocol_fee_rate
  assert (leb shares fee_rate_denominator_value)
  ok (record config { fund_fee_rate = fund_fee_rate })

unfoldable pub set_new_protocol_owner : AmmConfig → Pubkey → Result AmmConfig
set_new_protocol_owner config new_owner = do
  guard (not (new_owner == default_key)) (anchor require_keys_neq_violated)
  ok (record config { protocol_owner = new_owner })

unfoldable pub set_new_fund_owner : AmmConfig → Pubkey → Result AmmConfig
set_new_fund_owner config new_fund_owner = do
  guard (not (new_fund_owner == default_key)) (anchor require_keys_neq_violated)
  ok (record config { fund_owner = new_fund_owner })

-- The key of the first of the remaining accounts; without one `unwrap` panics.
unfoldable pub first_key : List Pubkey → Result Pubkey
first_key [] = err panic
first_key (key ∷ _) = ok key

-- The `match` on the parameter.
unfoldable pub update_param : AmmConfig → List Pubkey → ℕ → ℕ → Result AmmConfig
update_param config remaining param value =
    if param == 0
    then update_trade_fee_rate config value
    else if param == 1
    then update_protocol_fee_rate config value
    else if param == 2
    then update_fund_fee_rate config value
    else if param == 3
    then (do key ← first_key remaining; set_new_protocol_owner config key)
    else if param == 4
    then (do key ← first_key remaining; set_new_fund_owner config key)
    else if param == 5
    then ok (record config { disable_create_pool = not (value == 0) })
    else err (code invalid_input)

unfoldable pub update_amm_config : Pubkey → AmmConfig → List Pubkey → ℕ → ℕ → Result AmmConfig
update_amm_config owner config remaining param value = do
  guard (owner == admin) (code invalid_owner)
  update_param config remaining param value

unfoldable pub update_pool_status : Pubkey → PoolState → ℕ → Result PoolState
update_pool_status authority pool status = do
  guard (authority == admin) (anchor constraint_address)
  require_gte 255 status (anchor require_gte_violated)
  ok (set_status pool status)
