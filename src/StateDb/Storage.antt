-- ===== src/StateDb/Storage.antt =====
-- Storage slots, transient storage, and the gas refund.
use ioswarm.Common.{
  ℕ, ◌+◌, ◌-◌, ◌%◌, ◌^◌, Option, none, some, [], ◌∷◌, ◌++◌, Bytes, ltb, if◌then◌else◌, Map, empty,
  insert, index_or, Result, ok, err,
}
use ioswarm.Errors.{Error}
use ioswarm.StateDb.State.{Geth, LocalStore, StorageChange, MemStateDb}

-- `m[addr][slot] = v`, with the inner map made where it is missing.
abbrev pub insert_slot {ℓ} : {V : Type ℓ} → ℕ → ℕ → V → Map (Map V) → Map (Map V)
insert_slot addr slot v m = insert addr (insert slot v (index_or (m addr) empty)) m

-- `if stor, ok := m[addr]; ok { if v, ok := stor[slot]; ok { … } }`
abbrev pub slot_in {ℓ} : {V : Type ℓ} → Map (Map V) → ℕ → ℕ → Option V
slot_in m addr slot = index_or (m addr) empty slot

module _ (g : Geth) where
  -- What the local trie answers, which is kept in both maps where it is a value.
  unfoldable pub cache_slot :
      MemStateDb → ℕ → ℕ → Result Error (Option Bytes) → Option ℕ × MemStateDb
  cache_slot s addr slot (err e) = (none, s)
  cache_slot s addr slot (ok none) = (none, s)
  cache_slot s addr slot (ok (some val)) =
      let v = g.bytes_to_hash val in
      (
        some v,
        record s {
          storage = insert_slot addr slot v s.storage;
          committed_storage = insert_slot addr slot v s.committed_storage;
        },
      )

  unfoldable pub load_slot_from : MemStateDb → ℕ → ℕ → Option LocalStore → Option ℕ × MemStateDb
  unfolding cache_slot
  load_slot_from s addr slot none = (none, s)
  load_slot_from s addr slot (some store) = cache_slot s addr slot (store.slot_of addr slot)

  unfoldable pub load_slot_from_store : MemStateDb → ℕ → ℕ → Option ℕ × MemStateDb
  unfolding load_slot_from
  load_slot_from_store s addr slot = load_slot_from s addr slot s.local_store

  -- A slot of one of the two maps, then the local store, then zero.
  unfoldable pub read_slot : Option ℕ → MemStateDb → ℕ → ℕ → ℕ × MemStateDb
  unfolding load_slot_from_store
  read_slot (some v) s addr slot = (v, s)
  read_slot none s addr slot =
      let (loaded, s') = load_slot_from_store s addr slot in (index_or loaded 0, s')

  unfoldable pub get_committed_state : MemStateDb → ℕ → ℕ → ℕ × MemStateDb
  unfolding read_slot
  get_committed_state s addr slot = read_slot (slot_in s.committed_storage addr slot) s addr slot

  unfoldable pub get_state : MemStateDb → ℕ → ℕ → ℕ × MemStateDb
  unfolding read_slot
  get_state s addr slot = read_slot (slot_in s.storage addr slot) s addr slot

-- The value that the map in memory held, zero where it held none, and the new state.
unfoldable pub set_state : MemStateDb → ℕ → ℕ → ℕ → ℕ × MemStateDb
set_state s addr slot value =
    let old = index_or (slot_in s.storage addr slot) 0 in
    let change : StorageChange = record {
      address = addr;
      slot = slot;
      old_value = old;
      new_value = value;
    } in
    (
      old,
      record s {
        storage = insert_slot addr slot value s.storage;
        changes = s.changes ++ change ∷ [];
      },
    )

unfoldable pub get_transient_state : MemStateDb → ℕ → ℕ → ℕ
get_transient_state s addr key = index_or (slot_in s.transient_storage addr key) 0

unfoldable pub set_transient_state : MemStateDb → ℕ → ℕ → ℕ → MemStateDb
set_transient_state s addr key value = record s {
  transient_storage = insert_slot addr key value s.transient_storage;
}

-- uint64 arithmetic.
unfoldable pub add_refund : MemStateDb → ℕ → MemStateDb
add_refund s gas = record s { refund = (s.refund + gas) % 2 ^ 64 }

-- `none` is the panic "Refund counter below zero".
unfoldable pub sub_refund : MemStateDb → ℕ → Option MemStateDb
sub_refund s gas = if ltb s.refund gas then none else some (record s { refund = s.refund - gas })
