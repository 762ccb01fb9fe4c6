-- ===== src/StateDb/Accounts.antt =====
-- The accounts of MemStateDB: loading, creating, balances, nonces and code. An operation returns
-- its result and the new state, since a read may load an account and keep it.
use ioswarm.Common.{
  ℕ, ◌+◌, ◌-◌, ◌%◌, ◌^◌, Option, none, some, [], Bytes, Bool, true, false, ◌&&◌, ◌==◌, ltb,
  if◌then◌else◌, length, insert, ok, err,
}
use ioswarm.Account.{IoTxAccount}
use ioswarm.StateDb.State.{Geth, LocalStore, EvmAccount, MemStateDb}

-- `s.accounts[addr] = acct`, and a write through the pointer that the map holds.
abbrev pub set_account : MemStateDb → ℕ → EvmAccount → MemStateDb
set_account s addr acct = record s { accounts = insert addr acct s.accounts }

module _ (g : Geth) where
  -- emptyCodeHash
  abbrev pub empty_code_hash : ℕ
  empty_code_hash = g.keccak256_hash []

  -- The bytecode that a code hash names, or no code where the store has none.
  unfoldable pub code_or_empty : LocalStore → Bytes → Bytes
  code_or_empty store code_hash = elim (store.code_of code_hash) [
    | ok (some code) ↦ code
    | ok none ↦ []
    | err e ↦ []
  ]

  unfoldable pub account_from_store : LocalStore → IoTxAccount → EvmAccount
  unfolding code_or_empty
  account_from_store store acct = record {
    balance = (g.from_big acct.balance).0;
    nonce = acct.nonce;
    code = if length acct.code_hash == 0 then [] else code_or_empty store acct.code_hash;
    code_hash =
        if length acct.code_hash == 0 then empty_code_hash else g.bytes_to_hash acct.code_hash;
    suicided = false;
    is_new = false;
  }

  unfoldable pub load_account_from_store : MemStateDb → ℕ → Option EvmAccount × MemStateDb
  unfolding account_from_store
  load_account_from_store s addr = elim s.local_store [
    | none ↦ (none, s)
    | some store ↦ elim (store.account_of addr) [
      | err e ↦ (none, s)
      | ok none ↦ (none, s)
      | ok (some acct) ↦ let a = account_from_store store acct in (some a, set_account s addr a)
    ]
  ]

  unfoldable pub found_or_loaded :
      MemStateDb → ℕ → Option EvmAccount → Option EvmAccount × MemStateDb
  unfolding load_account_from_store
  found_or_loaded s addr (some acct) = (some acct, s)
  found_or_loaded s addr none = load_account_from_store s addr

  -- `s.accounts[addr]`, then the local store: the account, if there is one.
  unfoldable pub find_account : MemStateDb → ℕ → Option EvmAccount × MemStateDb
  unfolding found_or_loaded
  find_account s addr = found_or_loaded s addr (s.accounts addr)

  abbrev pub new_account : EvmAccount
  new_account = record {
    balance = 0;
    nonce = 0;
    code = [];
    code_hash = empty_code_hash;
    suicided = false;
    is_new = true;
  }

  unfoldable pub found_or_new : ℕ → Option EvmAccount × MemStateDb → EvmAccount × MemStateDb
  found_or_new addr (some acct, s) = (acct, s)
  found_or_new addr (none, s) = (new_account, set_account s addr new_account)

  unfoldable pub get_or_create_account : MemStateDb → ℕ → EvmAccount × MemStateDb
  unfolding find_account found_or_new
  get_or_create_account s addr = found_or_new addr (find_account s addr)

  unfoldable pub create_account : MemStateDb → ℕ → MemStateDb
  unfolding get_or_create_account
  create_account s addr = (get_or_create_account s addr).1

  unfoldable pub create_contract : MemStateDb → ℕ → MemStateDb
  unfolding get_or_create_account
  create_contract s addr =
      let (acct, s') = get_or_create_account s addr in
      set_account s' addr (record acct { is_new = true })

  unfoldable pub is_new_account : MemStateDb → ℕ → Bool × MemStateDb
  unfolding load_account_from_store
  is_new_account s addr = elim (s.accounts addr) [
    | some acct ↦ (acct.is_new, s)
    | none ↦
        let (loaded, s') = load_account_from_store s addr in
        elim loaded [ some acct ↦ (false, s') | none ↦ (true, s') ]
  ]

  -- The balance before, as both functions return it.
  unfoldable pub sub_balance : MemStateDb → ℕ → ℕ → ℕ × MemStateDb
  unfolding get_or_create_account
  sub_balance s addr amount =
      let (acct, s') = get_or_create_account s addr in
      let left = if ltb acct.balance amount then 0 else acct.balance - amount in
      (acct.balance, set_account s' addr (record acct { balance = left }))

  unfoldable pub add_balance : MemStateDb → ℕ → ℕ → ℕ × MemStateDb
  unfolding get_or_create_account
  add_balance s addr amount =
      let (acct, s') = get_or_create_account s addr in
      let total = (acct.balance + amount) % 2 ^ 256 in
      (acct.balance, set_account s' addr (record acct { balance = total }))

  -- A field of the account that is found, or the zero value.
  unfoldable pub field_of :
      {A : Type 0} → (EvmAccount → A) → A → Option EvmAccount × MemStateDb → A × MemStateDb
  field_of field zero_value (some acct, s) = (field acct, s)
  field_of field zero_value (none, s) = (zero_value, s)

  abbrev pub read_account : {A : Type 0} → MemStateDb → ℕ → (EvmAccount → A) → A → A × MemStateDb
  read_account s addr field zero_value = field_of field zero_value (find_account s addr)

  unfoldable pub get_balance : MemStateDb → ℕ → ℕ × MemStateDb
  unfolding find_account field_of
  get_balance s addr = read_account s addr (λ acct. acct.balance) 0

  unfoldable pub get_nonce : MemStateDb → ℕ → ℕ × MemStateDb
  unfolding find_account field_of
  get_nonce s addr = read_account s addr (λ acct. acct.nonce) 0

  unfoldable pub set_nonce : MemStateDb → ℕ → ℕ → MemStateDb
  unfolding get_or_create_account
  set_nonce s addr nonce =
      let (acct, s') = get_or_create_account s addr in
      set_account s' addr (record acct { nonce = nonce })

  unfoldable pub get_code_hash : MemStateDb → ℕ → ℕ × MemStateDb
  unfolding find_account field_of
  get_code_hash s addr = read_account s addr (λ acct. acct.code_hash) 0

  unfoldable pub get_code : MemStateDb → ℕ → Bytes × MemStateDb
  unfolding find_account field_of
  get_code s addr = read_account s addr (λ acct. acct.code) []

  unfoldable pub set_code : MemStateDb → ℕ → Bytes → Bytes × MemStateDb
  unfolding get_or_create_account
  set_code s addr code =
      let (acct, s') = get_or_create_account s addr in
      let hash = if length code == 0 then empty_code_hash else g.keccak256_hash code in
      (acct.code, set_account s' addr (record acct { code = code; code_hash = hash }))

  unfoldable pub get_code_size : MemStateDb → ℕ → ℕ × MemStateDb
  unfolding get_code
  get_code_size s addr = let (code, s') = get_code s addr in (length code, s')

  unfoldable pub exist : MemStateDb → ℕ → Bool × MemStateDb
  unfolding find_account field_of
  exist s addr = read_account s addr (λ acct. true) false

  unfoldable pub is_empty : MemStateDb → ℕ → Bool × MemStateDb
  unfolding find_account field_of
  is_empty s addr =
      read_account s addr (λ acct. acct.nonce == 0 && acct.balance == 0 && length acct.code == 0)
        true

-- Self-destruction looks at the accounts in memory only.
unfoldable pub self_destruct : MemStateDb → ℕ → ℕ × MemStateDb
self_destruct s addr = elim (s.accounts addr) [
  | some acct ↦ (acct.balance, set_account s addr (record acct { suicided = true; balance = 0 }))
  | none ↦ (0, s)
]

unfoldable pub has_self_destructed : MemStateDb → ℕ → Bool
has_self_destructed s addr = elim (s.accounts addr) [ some acct ↦ acct.suicided | none ↦ false ]

unfoldable pub self_destruct6780 : MemStateDb → ℕ → (ℕ × Bool) × MemStateDb
unfolding self_destruct
self_destruct6780 s addr = elim (s.accounts addr) [
  | some acct ↦
      if acct.is_new
      then (let (prev, s') = self_destruct s addr in ((prev, true), s'))
      else ((acct.balance, false), set_account s addr (record acct { balance = 0 }))
  | none ↦ ((0, false), s)
]
