-- ===== src/States.antt =====
-- programs/cp-swap/src/states: the program's accounts. `Pubkey` is a number, since keys are only
-- compared; `Pubkey::default()` is zero. The events of events.rs are values in `Events`.
pub mod Config
pub mod Pool
pub mod Oracle
pub mod Events
