-- ===== src/Tests/Leaving.antt =====
-- A withdrawal that cannot fail.
use solana_dex.Base.{
  ℕ, ◌≤◌, Bool, false, none, some, Option, ltb, le→not_ltb, if◌then◌else◌, ◌≡◌, true, ok, refl,
  arith,
}
use solana_dex.Keys.{Pubkey}
use solana_dex.Token.Interface.{Clock, MintAccount}
use solana_dex.States.Pool.{get_status_by_bit}
use solana_dex.States.Pool as Pool
use solana_dex.Instructions.Liquidity.{LpOutcome, check_lp_accounts}
use solana_dex.Instructions.Liquidity.Withdraw.{withdraw}
use solana_dex.Instructions.Liquidity.WithdrawProgress.{Accepts, withdraw_succeeds}
use solana_dex.Tests.Ledger.{Ledger, ledger, ledger-Laws, ledger_fee}
use solana_dex.Tests.Trades.{now, mint_0, mint_1, bank, pool}
use solana_dex.Tests.Pools.{lp_accounts, lp_accounts-SeparateLp, pool-Holds}

-- What the ledger accepts.
not_refused :
    (t : Bool) (m : Option Ledger) {b : Ledger}
    → t ≡ false
    → m ≡ some b
    → (b' : Ledger) × ((if t then none else m) ≡ some b')
not_refused t m {b} h e = (b, rw (h, e) refl)

transfer_accepted :
    (b : Ledger) (c : Clock) (p a s d : Pubkey) (m : MintAccount ℕ) (n k : ℕ)
    → n ≤ b.amounts s
    → (b' : Ledger) × (ledger.transfer_checked b c p a s d m n k ≡ some b')
transfer_accepted b c p a s d m n k h =
    not_refused (ltb (b.amounts s) n) _ (le→not_ltb (b.amounts s) n h) refl

burn_accepted :
    (b : Ledger) (p a m s : Pubkey) (n : ℕ)
    → n ≤ b.amounts s
    → n ≤ b.supplies m
    → (b' : Ledger) × (ledger.burn b p a m s n ≡ some b')
burn_accepted b p a m s n h k =
    let (b', e) = not_refused (ltb (b.supplies m) n) _ (le→not_ltb (b.supplies m) n k) refl in
    not_refused (ltb (b.amounts s) n) _ (le→not_ltb (b.amounts s) n h) e

ledger-Accepts : Accepts ledger now lp_accounts
ledger-Accepts = record {
  fee_0 = λ n _. (_, ledger_fee now mint_0 n);
  fee_1 = λ n _. (_, ledger_fee now mint_1 n);
  burns = λ b n. burn_accepted b 1 10 42 22 n;
  sends_0 = λ b n. transfer_accepted b now 1 11 30 20 mint_0 n 6;
  sends_1 = λ b n. transfer_accepted b now 2 11 31 21 mint_1 n 9;
}

accounts_pass : check_lp_accounts 11 lp_accounts ≡ ok tt
unfolding check_lp_accounts
accounts_pass = refl

withdrawals_allowed : get_status_by_bit pool Pool.withdraw ≡ true
unfolding get_status_by_bit
withdrawals_allowed = refl

withdraw_succeeds_example :
    (s : LpOutcome Ledger) × (withdraw ledger 11 99 now lp_accounts 99 bank 250_000 0 0 ≡ ok s)
withdraw_succeeds_example =
    withdraw_succeeds ledger ledger-Laws 11 99 now lp_accounts bank 250_000 1_000_000 2_000_000
      lp_accounts-SeparateLp accounts_pass withdrawals_allowed pool-Holds (omega arith)
      (omega arith) (omega arith) (omega arith) (omega arith) (omega arith) (omega arith)
      (omega arith) ledger-Accepts
