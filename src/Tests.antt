-- ===== src/Tests.antt =====
-- The theorems at concrete inputs, with a bank whose mints may withhold a flat fee.
mod Ledger
mod Curve
mod States
mod Pools
mod Creations
mod Trades
mod Admin
mod Lives
mod Leaving
mod Markets
