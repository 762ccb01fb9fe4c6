-- ===== src/StateDb/Build.antt =====
-- NewMemStateDB: the state that a task describes.
use ioswarm.Common.{
  ℕ, Option, none, some, List, [], ◌∷◌, Bytes, false, ◌==◌, if◌then◌else◌, length, empty, insert,
  index_or,
}
use ioswarm.Common.Int.{ℤ, pos, set_string, is_negative}
use ioswarm.Types.{AccountSnapshot, TaskPackage}
use ioswarm.StateDb.State.{Geth, LocalStore, EvmAccount, MemStateDb}
use ioswarm.StateDb.Accounts.{empty_code_hash, set_account}
use ioswarm.StateDb.Storage.{insert_slot}

abbrev pub blank_state : MemStateDb
blank_state = record {
  accounts = empty;
  storage = empty;
  committed_storage = empty;
  logs = [];
  changes = [];
  snapshots = [];
  tx_hash = 0;
  tx_index = 0;
  log_index = 0;
  refund = 0;
  accessed_addresses = empty;
  accessed_slots = empty;
  transient_storage = empty;
  local_store = none;
}

-- A balance that does not parse or is negative counts as zero.
unfoldable pub balance_or_zero : Bytes → ℤ
balance_or_zero text = elim (set_string text) [
  | none ↦ pos 0
  | some bal ↦ if is_negative bal then pos 0 else bal
]

module _ (g : Geth) where
  unfoldable pub account_of_snapshot : AccountSnapshot → ℕ → EvmAccount
  unfolding balance_or_zero
  account_of_snapshot snap code_hash = record {
    balance = (g.from_big (balance_or_zero snap.balance)).0;
    nonce = snap.nonce;
    code = [];
    code_hash = code_hash;
    suicided = false;
    is_new = false;
  }

  unfoldable pub load_sender : Option AccountSnapshot → MemStateDb → MemStateDb
  unfolding account_of_snapshot
  load_sender none s = s
  load_sender (some snap) s =
      set_account s (g.hex_to_address snap.address) (account_of_snapshot snap (empty_code_hash g))

  unfoldable pub load_receiver : Option AccountSnapshot → MemStateDb → MemStateDb
  unfolding account_of_snapshot
  load_receiver none s = s
  load_receiver (some snap) s =
      let hash =
        if length snap.code_hash == 0 then empty_code_hash g else g.bytes_to_hash snap.code_hash in
      set_account s (g.hex_to_address snap.address) (account_of_snapshot snap hash)

  unfoldable pub load_code : List (Bytes × Bytes) → MemStateDb → MemStateDb
  load_code [] s = s
  load_code ((addr_hex, code) ∷ rest) s =
      let addr = g.hex_to_address addr_hex in
      let hash = g.keccak256_hash code in
      let fresh : EvmAccount = record {
        balance = 0;
        nonce = 0;
        code = code;
        code_hash = hash;
        suicided = false;
        is_new = false;
      } in
      load_code rest (elim (s.accounts addr) [
        | some acct ↦ set_account s addr (record acct { code = code; code_hash = hash })
        | none ↦ set_account s addr fresh
      ])

  -- The inner loop, on one account's slots.
  unfoldable pub load_slots : ℕ → List (Bytes × Bytes) → MemStateDb → MemStateDb
  load_slots addr [] s = s
  load_slots addr ((slot_hex, val_hex) ∷ rest) s =
      let k = g.hex_to_hash slot_hex in
      let v = g.hex_to_hash val_hex in
      load_slots addr rest (record s {
        storage = insert_slot addr k v s.storage;
        committed_storage = insert_slot addr k v s.committed_storage;
      })

  abbrev pub make_maps : ℕ → MemStateDb → MemStateDb
  make_maps addr s = record s {
    storage = insert addr (index_or (s.storage addr) empty) s.storage;
    committed_storage = insert addr (index_or (s.committed_storage addr) empty) s.committed_storage;
  }

  unfoldable pub load_storage : List (Bytes × List (Bytes × Bytes)) → MemStateDb → MemStateDb
  unfolding load_slots
  load_storage [] s = s
  load_storage ((addr_hex, slots) ∷ rest) s =
      let addr = g.hex_to_address addr_hex in
      load_storage rest (load_slots addr slots (make_maps addr s))

  unfoldable pub new_mem_state_db : TaskPackage → MemStateDb
  unfolding load_sender load_receiver load_code load_storage
  new_mem_state_db task = load_storage task.storage_slots (
      load_code task.contract_code
        (load_receiver task.receiver (load_sender task.sender blank_state)))

-- SetLocalStore
unfoldable pub set_local_store : MemStateDb → LocalStore → MemStateDb
set_local_store s store = record s { local_store = some store }
