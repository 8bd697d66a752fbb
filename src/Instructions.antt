-- ===== src/Instructions.antt =====
-- programs/cp-swap/src/instructions and the entry points of lib.rs. Each handler takes the accounts
-- that Anchor has deserialized and returns the accounts that it leaves, or the failure that makes
-- the runtime discard every change.
pub mod Reserves
pub mod Swap
pub mod Liquidity
pub mod Admin
pub mod Initialize
