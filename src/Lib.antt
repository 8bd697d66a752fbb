-- ===== src/Lib.antt =====
-- A verification of the cp-swap program (programs/cp-swap/src): a constant-product exchange of two
-- tokens on Solana, with pool tokens for its liquidity providers, trade fees of which shares are set
-- apart for the protocol and a fund, mints with transfer fees, and a price oracle.
--
-- The parts, and the files that model them:
--   Base          numbers, the checked arithmetic of u64 and u128, outcomes and lists; error.rs
--   Keys          constants.rs; a key is a number
--   Curve         Math: utils/math.rs; Fees: curve/fees.rs; ConstantProduct:
--                 curve/constant_product.rs; Calculator: curve/calculator.rs; Checks: the tests
--                 of these files on the model
--   States        Config, Pool, Oracle, Events: the files of states of the same names
--   Token         utils/token.rs, over the calls of the token programs in Token/Interface and
--                 those that create accounts in Token/Creation; Token/Laws says what is relied on
--   Instructions  Swap: instructions/swap_base_input.rs and swap_base_output.rs; Liquidity:
--                 deposit.rs and withdraw.rs; Initialize: initialize.rs; Admin: the files of
--                 instructions/admin; Reserves: what the vaults hold
--                 beyond the fees that are set apart
--   Program       lib.rs: the instructions, what each hands to its handler, who may send it with
--                 which accounts, how it fails on a closed pool, and what it leaves alone
--   Life          the instructions that act on a pool as steps on its state and the bank, with what
--                 others may do in between; Book: what the pool promises its providers, a book of
--                 reserves and shares with what each action may do to it; Refine: the steps as
--                 such actions
--   Market        all pools side by side: the instructions as steps on all of them; Pausing: the
--                 administrator's status updates and the instructions that follow
--   Tests         a bank that keeps Token/Laws, and the theorems at concrete inputs
--
-- A handler is a function from its accounts, a record with the keys and the data that Anchor hands
-- over, and from a bank, the balances and supplies of the token programs, to a result: the new
-- state of the pool, of the oracle and of the bank with the event that is emitted, or the error.
-- The constraints of the accounts are checked first, in a function of their own. An account's
-- balance is the bank's at the start, and again where the source reloads the account. `None`, an
-- error code, a panic and a failed call of another program are values of one type, Failure.
--
-- An unsigned integer is a natural number; every checked operation has its bound written out, and
-- plain arithmetic panics on overflow, as the crate's overflow-checks set it. No function needs
-- fuel: the only loop of the source is over a list.
--
-- Not modelled: the logs; the signatures, the owners and the layouts of accounts, which Anchor and
-- the runtime check before a handler runs; rent and lamports; the tests that go
-- through big numbers of other libraries; the client, the scripts and the
-- tests in TypeScript. The token programs, the system program, the derivation of addresses and the
-- integer root of the uint crate are parameters.
pub mod Base
pub mod Keys
pub mod Curve
pub mod States
pub mod Token
pub mod Instructions
pub mod Life
pub mod Program
pub mod Market
pub mod Tests
