-- ===== src/States/Pool/Checks.antt =====
-- The test of states/pool.rs on the status bits. A failed `assert_eq!` is a panic.
use solana_dex.Base.{not, Result, ok, ◌>>◌, assert, replicate, ◌≡◌, refl}
use solana_dex.Keys.{default_key}
use solana_dex.States.Pool.{
  PoolState, deposit, withdraw, swap, enable, disable, set_status, set_status_by_bit, status_by_bit,
  get_status_by_bit,
}

-- `PoolState::default()`
abbrev pub default_pool : PoolState
default_pool = record {
  amm_config = default_key;
  pool_creator = default_key;
  token_0_vault = default_key;
  token_1_vault = default_key;
  lp_mint = default_key;
  token_0_mint = default_key;
  token_1_mint = default_key;
  token_0_program = default_key;
  token_1_program = default_key;
  observation_key = default_key;
  auth_bump = 0;
  status = 0;
  lp_mint_decimals = 0;
  mint_0_decimals = 0;
  mint_1_decimals = 0;
  lp_supply = 0;
  protocol_fees_token_0 = 0;
  protocol_fees_token_1 = 0;
  fund_fees_token_0 = 0;
  fund_fees_token_1 = 0;
  open_time = 0;
  padding = replicate 32 0;
}

-- The state after each of the assignments of the test.
abbrev only_swaps_disabled : PoolState
only_swaps_disabled = set_status default_pool 4

disabled_again : PoolState
disabled_again = set_status_by_bit only_swaps_disabled swap disable

enabled : PoolState
enabled = set_status_by_bit disabled_again swap enable

enabled_again : PoolState
enabled_again = set_status_by_bit enabled swap enable

disabled_at_last : PoolState
disabled_at_last = set_status_by_bit enabled_again swap disable

get_set_status_by_bit : Result (Unit {0})
get_set_status_by_bit = do
  assert (not (get_status_by_bit only_swaps_disabled swap))
  assert (get_status_by_bit only_swaps_disabled deposit)
  assert (get_status_by_bit only_swaps_disabled withdraw)
  assert (not (get_status_by_bit disabled_again swap))
  assert (get_status_by_bit enabled swap)
  assert (get_status_by_bit enabled_again swap)
  assert (not (get_status_by_bit disabled_at_last swap))
  assert (not (get_status_by_bit (set_status disabled_at_last 5) swap))
  assert (not (get_status_by_bit (set_status disabled_at_last 5) deposit))
  assert (get_status_by_bit (set_status disabled_at_last 5) withdraw)
  assert (not (get_status_by_bit (set_status disabled_at_last 7) swap))
  assert (not (get_status_by_bit (set_status disabled_at_last 7) deposit))
  assert (not (get_status_by_bit (set_status disabled_at_last 7) withdraw))
  assert (get_status_by_bit (set_status disabled_at_last 3) swap)
  assert (not (get_status_by_bit (set_status disabled_at_last 3) deposit))
  assert (not (get_status_by_bit (set_status disabled_at_last 3) withdraw))

get_set_status_by_bit_lem : get_set_status_by_bit ≡ ok tt
unfolding get_set_status_by_bit disabled_at_last enabled_again enabled disabled_again
    set_status_by_bit status_by_bit get_status_by_bit set_status
get_set_status_by_bit_lem = refl
