-- ===== src/Keys.antt =====
-- programs/cp-swap/src/constants.rs: the administrator's key, in base 58
-- H7YMxhKgLw2NDM9WQnpcUefPvCaLJCCYYaq1ETLHXJuH, and the sizes of the oracle. A key is the number of
-- its 32 bytes, the first byte the highest, so that the order of keys is that of numbers.
use solana_dex.Base.{ℕ}

abbrev pub Pubkey : Type 0
Pubkey = ℕ

abbrev pub default_key : Pubkey
default_key = 0

abbrev pub admin : Pubkey
admin = 0xef67efa4a1cdf6d98508db3f004d60de17221ba644918bab4db2b6c677907ecc

abbrev pub observation_num : ℕ
observation_num = 100

abbrev pub observation_update_duration_default : ℕ
observation_update_duration_default = 15
