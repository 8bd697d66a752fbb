-- ===== src/Instructions/Swap.antt =====
-- What instructions/swap_base_input.rs and instructions/swap_base_output.rs share: the accounts, the
-- reading of the reserves, and everything after the amounts are fixed.
pub mod BaseInput
pub mod BaseOutput
pub mod Sides
pub mod Settlement
pub mod InputQuote
pub mod InputValue
pub mod OutputQuote
pub mod OutputValue
pub mod Gate
use solana_dex.Base.{
  ℕ, Bool, true, false, ◌&&◌, ◌||◌, not, Result, ok, err, code, anchor, invalid_vault, not_approved,
  constraint_raw, constraint_address, constraint_seeds, ◌>>=◌, ◌>>◌, guard, unwrap, ltb, ◌==◌,
  if◌then◌else◌, u64_mod, checked_add, try_u64,
}
use solana_dex.Keys.{Pubkey}
use solana_dex.Curve.Calculator.{SwapResult, TradeDirection, zero_for_one, one_for_zero}
use solana_dex.States.Config.{AmmConfig}
use solana_dex.States.Pool.{
  PoolState, swap, get_status_by_bit, vault_amount_without_fee, token_price_x32,
}
use solana_dex.States.Oracle.{ObservationState, block_timestamp, update}
use solana_dex.States.Events.{SwapEvent}
use solana_dex.Token.Interface.{Spl, MintAccount, Clock}
use solana_dex.Token.{transfer_from_user_to_pool_vault, transfer_from_pool_vault_to_user}

-- `struct Swap`: the accounts of the context with their keys; balances are read from the bank.
pub record SwapAccounts (MintData : Type 0) : Type 0 where
  pub payer : Pubkey
  pub authority : Pubkey
  pub amm_config_key : Pubkey
  pub amm_config : AmmConfig
  pub pool_id : Pubkey
  pub pool_state : PoolState
  pub input_token_account : Pubkey
  pub output_token_account : Pubkey
  pub input_vault : Pubkey
  pub input_vault_mint : Pubkey
  pub output_vault : Pubkey
  pub output_vault_mint : Pubkey
  pub input_token_program : Pubkey
  pub output_token_program : Pubkey
  pub input_token_mint : MintAccount MintData
  pub output_token_mint : MintAccount MintData
  pub observation_key : Pubkey
  pub observation_state : ObservationState

-- The constraints of the attributes, in the order of the fields; `pda` is the address that the
-- authority's seed derives.
unfoldable pub check_swap_accounts :
    {MintData : Type 0} → Pubkey → SwapAccounts MintData → Result (Unit {0})
check_swap_accounts pda ctx = do
  guard (ctx.authority == pda) (anchor constraint_seeds)
  guard (ctx.amm_config_key == pool.amm_config) (anchor constraint_address)
  guard (ctx.input_vault == pool.token_0_vault || ctx.input_vault == pool.token_1_vault)
      (anchor constraint_raw)
  guard (ctx.output_vault == pool.token_0_vault || ctx.output_vault == pool.token_1_vault)
      (anchor constraint_raw)
  guard (ctx.input_token_mint.key == ctx.input_vault_mint) (anchor constraint_address)
  guard (ctx.output_token_mint.key == ctx.output_vault_mint) (anchor constraint_address)
  guard (ctx.observation_key == pool.observation_key) (anchor constraint_address)
  where
    pool : PoolState
    pool = ctx.pool_state

-- The guard at the head of both handlers.
unfoldable pub check_open : PoolState → ℕ → Result (Unit {0})
check_open pool now =
    guard (not (not (get_status_by_bit pool swap) || ltb now pool.open_time)) (code not_approved)

-- The direction, and the reserves of the input and the output.
unfoldable pub trade_amounts : PoolState → Pubkey → Pubkey → ℕ → ℕ → Result (TradeDirection × ℕ × ℕ)
trade_amounts pool input_vault output_vault input_amount output_amount =
    if input_vault == pool.token_0_vault && output_vault == pool.token_1_vault
    then (do
      (total_in, total_out) ← vault_amount_without_fee pool input_amount output_amount
      ok (zero_for_one, total_in, total_out))
    else if input_vault == pool.token_1_vault && output_vault == pool.token_0_vault
    then (do
      (total_out, total_in) ← vault_amount_without_fee pool output_amount input_amount
      ok (one_for_zero, total_in, total_out))
    else err (code invalid_vault)

-- The `match` on the direction that books the fees on the input's side.
unfoldable pub accrue_fees : PoolState → TradeDirection → ℕ → ℕ → Result PoolState
accrue_fees pool zero_for_one protocol_fee fund_fee = do
  protocol_fees ← unwrap (checked_add u64_mod pool.protocol_fees_token_0 protocol_fee)
  fund_fees ← unwrap (checked_add u64_mod pool.fund_fees_token_0 fund_fee)
  ok (record pool { protocol_fees_token_0 = protocol_fees; fund_fees_token_0 = fund_fees })
accrue_fees pool one_for_zero protocol_fee fund_fee = do
  protocol_fees ← unwrap (checked_add u64_mod pool.protocol_fees_token_1 protocol_fee)
  fund_fees ← unwrap (checked_add u64_mod pool.fund_fees_token_1 fund_fee)
  ok (record pool { protocol_fees_token_1 = protocol_fees; fund_fees_token_1 = fund_fees })

-- The prices at the reloaded vaults.
unfoldable pub vault_prices : PoolState → Pubkey → Pubkey → ℕ → ℕ → Result (ℕ × ℕ)
vault_prices pool input_vault output_vault input_amount output_amount =
    if input_vault == pool.token_0_vault && output_vault == pool.token_1_vault
    then token_price_x32 pool input_amount output_amount
    else if input_vault == pool.token_1_vault && output_vault == pool.token_0_vault
    then token_price_x32 pool output_amount input_amount
    else err (code invalid_vault)

-- What a handler has fixed when it begins to change state.
pub record Quote : Type 0 where
  pub trade_direction : TradeDirection
  pub total_input_token_amount : ℕ
  pub total_output_token_amount : ℕ
  pub result : SwapResult
  pub input_transfer_amount : ℕ
  pub input_transfer_fee : ℕ
  pub output_transfer_amount : ℕ
  pub output_transfer_fee : ℕ

-- What a swap leaves.
pub record SwapOutcome (Bank : Type 0) : Type 0 where
  pub pool_state : PoolState
  pub observation_state : ObservationState
  pub bank : Bank
  pub event : SwapEvent

module _ {MintData FeeConfig Bank : Type 0} (spl : Spl MintData FeeConfig Bank) where
  -- The rest of both handlers, from the conversion of the fees on.
  unfoldable pub settle :
      Clock → SwapAccounts MintData → Bank → Bool → Quote → Result (SwapOutcome Bank)
  settle clock ctx bank base_input quote = do
    protocol_fee ← unwrap (try_u64 quote.result.protocol_fee)
    fund_fee ← unwrap (try_u64 quote.result.fund_fee)
    pool ← accrue_fees ctx.pool_state quote.trade_direction protocol_fee fund_fee
    input_amount ← unwrap (try_u64 quote.result.source_amount_swapped)
    output_amount ← unwrap (try_u64 quote.result.destination_amount_swapped)
    paid ←
        transfer_from_user_to_pool_vault spl bank ctx.payer ctx.input_token_account ctx.input_vault
          clock ctx.input_token_mint ctx.input_token_program quote.input_transfer_amount
          ctx.input_token_mint.decimals
    settled ←
        transfer_from_pool_vault_to_user spl paid ctx.authority ctx.output_vault
          ctx.output_token_account clock ctx.output_token_mint ctx.output_token_program
          quote.output_transfer_amount ctx.output_token_mint.decimals
    (price_0, price_1) ←
        vault_prices pool ctx.input_vault ctx.output_vault (spl.amount settled ctx.input_vault)
          (spl.amount settled ctx.output_vault)
    observation_state ← update ctx.observation_state (block_timestamp clock) price_0 price_1
    ok (record {
      pool_state = pool;
      observation_state = observation_state;
      bank = settled;
      event = record {
        pool_id = ctx.pool_id;
        input_vault_before = quote.total_input_token_amount;
        output_vault_before = quote.total_output_token_amount;
        input_amount = input_amount;
        output_amount = output_amount;
        input_transfer_fee = quote.input_transfer_fee;
        output_transfer_fee = quote.output_transfer_fee;
        base_input = base_input;
      };
    })
