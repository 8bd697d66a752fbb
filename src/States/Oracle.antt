-- ===== src/States/Oracle.antt =====
-- states/oracle.rs: a ring of price observations.
pub mod Ring
use solana_dex.Base.{
  ℕ, ◌+◌, ◌-◌, ◌%◌, ◌^◌, Bool, true, false, List, replicate, get_elem?, set, length, Option, none,
  some, Result, ok, err, panic, ◌>>=◌, unwrap, ltb, ◌==◌, if◌then◌else◌, u128_mod, plus,
  checked_mul,
}
use solana_dex.Keys.{Pubkey, default_key, observation_num, observation_update_duration_default}
use solana_dex.Token.Interface.{Clock}

-- The timestamp of the clock, `as u64`.
abbrev pub block_timestamp : Clock → ℕ
block_timestamp clock = clock.unix_timestamp

pub record Observation : Type 0 where
  pub block_timestamp : ℕ
  pub cumulative_token_0_price_x32 : ℕ
  pub cumulative_token_1_price_x32 : ℕ

pub record ObservationState : Type 0 where
  pub initialized : Bool
  pub observation_index : ℕ
  pub pool_id : Pubkey
  pub observations : List Observation
  pub padding : List ℕ

abbrev default_observation : Observation
default_observation = record {
  block_timestamp = 0;
  cumulative_token_0_price_x32 = 0;
  cumulative_token_1_price_x32 = 0;
}

abbrev pub default_state : ObservationState
default_state = record {
  initialized = false;
  observation_index = 0;
  pool_id = default_key;
  observations = replicate observation_num default_observation;
  padding = replicate 4 0;
}

-- `observations[i]`, which panics out of bounds.
unfoldable pub read : List Observation → ℕ → Result Observation
read obs i = elim (get_elem? obs i) [ none ↦ err panic | some o ↦ ok o ]

-- The three assignments to `observations[i]`.
unfoldable pub write : List Observation → ℕ → Observation → Result (List Observation)
write obs i o = if ltb i (length obs) then ok (set obs i o) else err panic

unfoldable pub next_index : ℕ → Result ℕ
next_index i = if i == observation_num - 1 then ok 0 else plus (2 ^ 16) i 1

abbrev pub wrapping_add : ℕ → ℕ → ℕ
wrapping_add a b = (a + b) % u128_mod

-- The update of an initialized state, once enough time has passed.
unfoldable pub append : ObservationState → Observation → ℕ → ℕ → ℕ → ℕ → Result ObservationState
append self last block_timestamp delta_time token_0_price_x32 token_1_price_x32 = do
  delta_0 ← unwrap (checked_mul u128_mod token_0_price_x32 delta_time)
  delta_1 ← unwrap (checked_mul u128_mod token_1_price_x32 delta_time)
  next ← next_index self.observation_index
  observations ← write self.observations next (record {
    block_timestamp = block_timestamp;
    cumulative_token_0_price_x32 = wrapping_add last.cumulative_token_0_price_x32 delta_0;
    cumulative_token_1_price_x32 = wrapping_add last.cumulative_token_1_price_x32 delta_1;
  })
  ok (record self { observations = observations; observation_index = next })

unfoldable pub update_initialized : ObservationState → ℕ → ℕ → ℕ → Result ObservationState
update_initialized self block_timestamp token_0_price_x32 token_1_price_x32 = do
  last ← read self.observations self.observation_index
  let delta_time = block_timestamp - last.block_timestamp
  if ltb delta_time observation_update_duration_default
      then ok self
      else append self last block_timestamp delta_time token_0_price_x32 token_1_price_x32

unfoldable pub update_first : ObservationState → ℕ → Result ObservationState
update_first self block_timestamp = do
  observations ← write self.observations self.observation_index (record {
    block_timestamp = block_timestamp;
    cumulative_token_0_price_x32 = 0;
    cumulative_token_1_price_x32 = 0;
  })
  ok (record self { initialized = true; observations = observations })

unfoldable pub update : ObservationState → ℕ → ℕ → ℕ → Result ObservationState
update self block_timestamp token_0_price_x32 token_1_price_x32 =
    if self.initialized
    then update_initialized self block_timestamp token_0_price_x32 token_1_price_x32
    else update_first self block_timestamp
