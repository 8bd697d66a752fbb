-- ===== src/Tests/States.antt =====
-- The status bits of a pool, and the ring of observations.
use solana_dex.Base.{◌<◌, ◌≡◌, true, set, replicate, ok, refl, arith, if◌then◌else◌}
use solana_dex.States.Pool.{withdraw, swap, disable, set_status_by_bit, get_status_by_bit}
use solana_dex.States.Pool.Status.{same_bit, is_enable, get_status-set_status_by_bit}
use solana_dex.States.Oracle.{Observation, ObservationState, default_state, update}
use solana_dex.States.Oracle.Ring.{
  IsValid, IsUpdateOf, succ_index, extended, update_late, update-IsUpdateOf,
}
use solana_dex.Tests.Trades.{pool}

get_status-set_status_by_bit_example :
    (get_status_by_bit (set_status_by_bit pool swap disable) withdraw
      ≡ (if same_bit swap withdraw then is_enable disable else get_status_by_bit pool withdraw))
    × ((set_status_by_bit pool swap disable).status < 256)
get_status-set_status_by_bit_example =
    get_status-set_status_by_bit pool swap disable withdraw (omega arith)

-- The newest observation is in the last place of the ring.
abbrev newest : Observation
newest = record {
  block_timestamp = 1_700_000_000;
  cumulative_token_0_price_x32 = 77;
  cumulative_token_1_price_x32 = 88;
}

abbrev ring : ObservationState
ring = record default_state {
  initialized = true;
  observation_index = 99;
  observations = set (replicate 100 newest) 0 newest;
}

ring-IsValid : IsValid ring
ring-IsValid = record { full = refl; in_bounds = omega arith }

update_late_example :
    update ring 1_700_000_015 5 6
    ≡ ok (record ring {
      observations = set ring.observations (succ_index 99) (extended newest 1_700_000_015 5 6);
      observation_index = succ_index 99;
    })
update_late_example =
    update_late ring 1_700_000_015 5 6 ring-IsValid refl refl (omega arith) (omega arith)
      (omega arith)

late_run : (t : ObservationState) × (update ring 1_700_000_015 5 6 ≡ ok t)
late_run = (_, update_late_example)

update-IsUpdateOf_example : IsUpdateOf ring late_run.0
update-IsUpdateOf_example = update-IsUpdateOf ring 1_700_000_015 5 6 ring-IsValid late_run.1
