-- ===== src/Evm/Transfer.antt =====
-- iotexTransfer between two accounts that are in memory.
use mathlib.Core.Path.{subst⁻¹}
use ioswarm.Common.{ℕ, ◌+◌, ◌-◌, ◌≤◌, ◌<◌, ◌^◌, ◌≡◌, ◌≢◌, sym, ◌∙◌, some}
use ioswarm.StateDb.{Geth, EvmAccount, MemStateDb, set_account, get_balance, add_log}
use ioswarm.StateDb.Balances.{
  same_account, other_account, sub_balance_known, add_balance_known, get_balance_known,
}
use ioswarm.Evm.Defs.{iotex_transfer, transfer_log}

module _ (g : Geth) where
  -- A transfer.
  pub iotex_transfer_moves :
      (s : MemStateDb) (sender recipient amount : ℕ) (from to : EvmAccount)
      → sender ≢ recipient
      → s.accounts sender ≡ some from
      → s.accounts recipient ≡ some to
      → amount ≤ from.balance
      → to.balance + amount < 2 ^ 256
      → iotex_transfer g s sender recipient amount
        ≡ add_log
            (set_account
              (set_account s sender (record from { balance = from.balance - amount }))
              recipient
              (record to { balance = to.balance + amount }))
            (transfer_log g sender recipient amount)
  unfolding iotex_transfer
  iotex_transfer_moves s sender recipient amount from to ne es er le lt = rw (
    sub_balance_known g s sender amount from es le,
    add_balance_known g (set_account s sender (record from { balance = from.balance - amount }))
        recipient amount to
        (other_account s sender recipient (record from { balance = from.balance - amount })
            (λ e. ne (sym e))
          ∙ er)
        lt,
  )

  -- The sender has paid, the recipient has received, and no other account has changed.
  abbrev pub IsMoved : MemStateDb → MemStateDb → ℕ → ℕ → ℕ → EvmAccount → EvmAccount → Type 0
  IsMoved s s' sender recipient amount from to =
      (get_balance g s' sender ≡ (from.balance - amount, s'))
      × (get_balance g s' recipient ≡ (to.balance + amount, s'))
      × ((other : ℕ) → other ≢ sender → other ≢ recipient → s'.accounts other ≡ s.accounts other)

  -- Between two different accounts in memory, of which the sender's holds the amount and the
  -- recipient's does not overflow, a transfer takes the amount from the sender's balance, adds
  -- it to the recipient's, and leaves every other account as it was.
  pub iotex_transfer_conserves :
      (s : MemStateDb) (sender recipient amount : ℕ) (from to : EvmAccount)
      → sender ≢ recipient
      → s.accounts sender ≡ some from
      → s.accounts recipient ≡ some to
      → amount ≤ from.balance
      → to.balance + amount < 2 ^ 256
      → IsMoved s (iotex_transfer g s sender recipient amount) sender recipient amount from to
  unfolding add_log
  iotex_transfer_conserves s sender recipient amount from to ne es er le lt =
      let from' : EvmAccount = record from { balance = from.balance - amount } in
      let to' : EvmAccount = record to { balance = to.balance + amount } in
      let paid = set_account s sender from' in
      let done = set_account paid recipient to' in
      let final = add_log done (transfer_log g sender recipient amount) in
      subst⁻¹ (λ s'. IsMoved s s' sender recipient amount from to)
        (iotex_transfer_moves s sender recipient amount from to ne es er le lt)
        (
          get_balance_known g final sender from'
              (other_account paid recipient sender to' ne ∙ same_account s sender from'),
          get_balance_known g final recipient to' (same_account paid recipient to'),
          (λ other ns nr.
              other_account paid recipient other to' nr ∙ other_account s sender other from' ns),
        )
