-- ===== src/Life/Sizes.antt =====
-- A pool's state in a run of steps: the sizes of its fields, and its accounts.
use solana_dex.States.Pool.{PoolState}
use solana_dex.Token.Interface.{Spl}
use solana_dex.Life.{Run}
use solana_dex.Life.Updates.{
  IsSized, Update-IsSized, SameAccounts, SameAccounts-refl, SameAccounts-trans, Update-SameAccounts,
}
use solana_dex.Life.Changes.{Step-Update}

module _ {MintData FeeConfig Bank : Type 0} (spl : Spl MintData FeeConfig Bank) where
  -- A pool whose status fits in 8 bits and whose count of pool tokens, fees and opening time fit in
  -- 64 bits, as their Rust types demand, keeps them so through any run of steps of Life, and keeps
  -- its vaults, its mint of pool tokens and the mints of what it holds.
  pub Run-IsSized :
      {p p' : PoolState} {b b' : Bank}
      → Run spl p b p' b'
      → IsSized p
      → IsSized p' × SameAccounts p p'
  Run-IsSized (Run.stop p b) v = (v, SameAccounts-refl p)
  Run-IsSized (Run.more step rest) v =
      let change = Step-Update spl step in
      let (sized, same) = Run-IsSized rest (Update-IsSized change v) in
      (sized, SameAccounts-trans (Update-SameAccounts change) same)
