-- ===== src/StateDb/Balances.antt =====
-- Balances of accounts that are in memory.
use ioswarm.Common.{
  ℕ, ◌+◌, ◌-◌, ◌≤◌, ◌<◌, ◌%◌, ◌^◌, ◌≡◌, ◌≢◌, ap, some, true, false, ◌==◌, ltb, arith,
}
use ioswarm.StateDb.State.{Geth, EvmAccount, MemStateDb}
use ioswarm.StateDb.Accounts.{
  set_account, found_or_loaded, found_or_new, field_of, find_account, get_or_create_account,
  sub_balance, add_balance, get_balance,
}

==-refl : (a : ℕ) → (a == a) ≡ true
==-refl a = ground arith

pub same_account :
    (s : MemStateDb) (addr : ℕ) (acct : EvmAccount)
    → (set_account s addr acct).accounts addr ≡ some acct
same_account s addr acct = rw (==-refl addr)

pub other_account :
    (s : MemStateDb) (addr other : ℕ) (acct : EvmAccount)
    → other ≢ addr
    → (set_account s addr acct).accounts other ≡ s.accounts other
other_account s addr other acct ne = ground arith

less_than_held : (a b : ℕ) → b ≤ a → ltb a b ≡ false
less_than_held a b le = ground arith

fits : (n : ℕ) → n < 2 ^ 256 → n % 2 ^ 256 ≡ n
fits n lt = omega arith

module _ (g : Geth) where
  pub find_account_known :
      (s : MemStateDb) (addr : ℕ) (acct : EvmAccount)
      → s.accounts addr ≡ some acct
      → find_account g s addr ≡ (some acct, s)
  unfolding find_account found_or_loaded
  find_account_known s addr acct e = ap (found_or_loaded g s addr) e

  pub get_or_create_known :
      (s : MemStateDb) (addr : ℕ) (acct : EvmAccount)
      → s.accounts addr ≡ some acct
      → get_or_create_account g s addr ≡ (acct, s)
  unfolding get_or_create_account found_or_new
  get_or_create_known s addr acct e = ap (found_or_new g addr) (find_account_known s addr acct e)

  pub sub_balance_known :
      (s : MemStateDb) (addr amount : ℕ) (acct : EvmAccount)
      → s.accounts addr ≡ some acct
      → amount ≤ acct.balance
      → sub_balance g s addr amount
        ≡ (acct.balance, set_account s addr (record acct { balance = acct.balance - amount }))
  unfolding sub_balance
  sub_balance_known s addr amount acct e le =
      rw (get_or_create_known s addr acct e, less_than_held acct.balance amount le)

  pub add_balance_known :
      (s : MemStateDb) (addr amount : ℕ) (acct : EvmAccount)
      → s.accounts addr ≡ some acct
      → acct.balance + amount < 2 ^ 256
      → add_balance g s addr amount
        ≡ (acct.balance, set_account s addr (record acct { balance = acct.balance + amount }))
  unfolding add_balance
  add_balance_known s addr amount acct e lt =
      rw (get_or_create_known s addr acct e, fits (acct.balance + amount) lt)

  pub get_balance_known :
      (s : MemStateDb) (addr : ℕ) (acct : EvmAccount)
      → s.accounts addr ≡ some acct
      → get_balance g s addr ≡ (acct.balance, s)
  unfolding get_balance field_of
  get_balance_known s addr acct e =
      ap (field_of g (λ a. a.balance) 0) (find_account_known s addr acct e)
