-- ===== src/StateDb/Access.antt =====
-- The access lists of EIP-2929, and the preparation of a transaction.
use ioswarm.Common.{
  ℕ, Option, none, some, List, [], ◌∷◌, Bool, true, false, empty, insert, index_or,
}
use ioswarm.StateDb.State.{MemStateDb}
use ioswarm.StateDb.Storage.{insert_slot, slot_in}

unfoldable pub address_in_access_list : MemStateDb → ℕ → Bool
address_in_access_list s addr = index_or (s.accessed_addresses addr) false

unfoldable pub slot_in_access_list : MemStateDb → ℕ → ℕ → Bool × Bool
slot_in_access_list s addr slot = (
  index_or (s.accessed_addresses addr) false,
  index_or (slot_in s.accessed_slots addr slot) false,
)

unfoldable pub add_address_to_access_list : ℕ → MemStateDb → MemStateDb
add_address_to_access_list addr s = record s {
  accessed_addresses = insert addr true s.accessed_addresses;
}

unfoldable pub add_slot_to_access_list : ℕ → ℕ → MemStateDb → MemStateDb
add_slot_to_access_list addr slot s = record s {
  accessed_addresses = insert addr true s.accessed_addresses;
  accessed_slots = insert_slot addr slot true s.accessed_slots;
}

-- The three loops of Prepare.
unfoldable pub add_addresses : List ℕ → MemStateDb → MemStateDb
unfolding add_address_to_access_list
add_addresses [] s = s
add_addresses (addr ∷ rest) s = add_addresses rest (add_address_to_access_list addr s)

unfoldable pub add_slots : ℕ → List ℕ → MemStateDb → MemStateDb
unfolding add_slot_to_access_list
add_slots addr [] s = s
add_slots addr (slot ∷ rest) s = add_slots addr rest (add_slot_to_access_list addr slot s)

unfoldable pub add_entries : List (ℕ × List ℕ) → MemStateDb → MemStateDb
unfolding add_address_to_access_list add_slots
add_entries [] s = s
add_entries ((addr, keys) ∷ rest) s =
    add_entries rest (add_slots addr keys (add_address_to_access_list addr s))

abbrev pub add_dest : Option ℕ → MemStateDb → MemStateDb
add_dest none s = s
add_dest (some addr) s = add_address_to_access_list addr s

-- Prepare does not read the rules.
unfoldable pub prepare : MemStateDb → ℕ → ℕ → Option ℕ → List ℕ → List (ℕ × List ℕ) → MemStateDb
unfolding add_address_to_access_list add_addresses add_entries
prepare s sender coinbase dest precompiles tx_accesses =
    let fresh : MemStateDb = record s { accessed_addresses = empty; accessed_slots = empty } in
    let s1 = add_address_to_access_list sender fresh in
    let s2 = add_address_to_access_list coinbase s1 in
    add_entries tx_accesses (add_addresses precompiles (add_dest dest s2))
