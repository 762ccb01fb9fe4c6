-- ===== src/StateDb/Slots.antt =====
-- Reads of a slot behind a write.
use ioswarm.Common.{
  ℕ, ◌≡◌, refl, ap, ◌∙◌, Option, none, some, Bytes, true, Map, Result, ok, err, ◌==◌, arith,
  index_or,
}
use ioswarm.Errors.{Error}
use ioswarm.StateDb.State.{Geth, LocalStore, MemStateDb}
use ioswarm.StateDb.Storage.{
  insert_slot, slot_in, cache_slot, load_slot_from, load_slot_from_store, read_slot,
  get_committed_state, get_state, set_state,
}

==-refl : (a : ℕ) → (a == a) ≡ true
==-refl a = ground arith

slot_in-insert_slot {ℓ} :
    {V : Type ℓ} (addr slot : ℕ) (v : V) (m : Map (Map V))
    → slot_in (insert_slot addr slot v m) addr slot ≡ some v
slot_in-insert_slot addr slot v m = rw (==-refl addr, ==-refl slot)

module _ (g : Geth) where
  -- A slot that was written reads as the value that was written, and the read changes nothing.
  pub get_state-set_state :
      (s : MemStateDb) (addr slot value : ℕ)
      → get_state g (set_state s addr slot value).1 addr slot
        ≡ (value, (set_state s addr slot value).1)
  unfolding get_state set_state
  get_state-set_state s addr slot value = rw (slot_in-insert_slot addr slot value s.storage)

  cache_slot_value :
      (s s' : MemStateDb) (addr slot : ℕ) (r : Result Error (Option Bytes))
      → (cache_slot g s addr slot r).0 ≡ (cache_slot g s' addr slot r).0
  unfolding cache_slot
  cache_slot_value s s' addr slot (err e) = refl
  cache_slot_value s s' addr slot (ok none) = refl
  cache_slot_value s s' addr slot (ok (some val)) = refl

  load_slot_from_value :
      (s s' : MemStateDb) (addr slot : ℕ) (store : Option LocalStore)
      → (load_slot_from g s addr slot store).0 ≡ (load_slot_from g s' addr slot store).0
  unfolding load_slot_from
  load_slot_from_value s s' addr slot none = refl
  load_slot_from_value s s' addr slot (some store) =
      cache_slot_value s s' addr slot (store.slot_of addr slot)

  read_slot_value :
      (o : Option ℕ) (s s' : MemStateDb) (addr slot : ℕ)
      → s.local_store ≡ s'.local_store
      → (read_slot g o s addr slot).0 ≡ (read_slot g o s' addr slot).0
  unfolding read_slot load_slot_from_store
  read_slot_value (some v) s s' addr slot e = refl
  read_slot_value none s s' addr slot e =
      ap (λ o. index_or o 0)
        (load_slot_from_value s s' addr slot s.local_store
          ∙ ap (λ store. (load_slot_from g s' addr slot store).0) e)

  -- A write to any slot does not change the committed value that is read of any slot.
  pub get_committed_state-set_state :
      (s : MemStateDb) (addr slot value a k : ℕ)
      → (get_committed_state g (set_state s addr slot value).1 a k).0
        ≡ (get_committed_state g s a k).0
  unfolding get_committed_state set_state
  get_committed_state-set_state s addr slot value a k =
      read_slot_value (slot_in s.committed_storage a k) (set_state s addr slot value).1 s a k refl

  -- If the local store has a value for a slot that is not in the committed storage, then a read
  -- of the slot that follows a write to it and a read of its committed state gives the local
  -- store's value and not the one that was written.
  pub get_committed_state_overwrites :
      (s : MemStateDb) (store : LocalStore) (addr slot value : ℕ) (stored : Bytes)
      → s.local_store ≡ some store
      → store.slot_of addr slot ≡ ok (some stored)
      → slot_in s.committed_storage addr slot ≡ none
      → (get_state g
          (get_committed_state g (set_state s addr slot value).1 addr slot).1
          addr
          slot).0
        ≡ g.bytes_to_hash stored
  unfolding get_state get_committed_state read_slot load_slot_from_store load_slot_from cache_slot
      set_state
  get_committed_state_overwrites s store addr slot value stored e f c = rw (
    c,
    e,
    f,
    slot_in-insert_slot addr slot (g.bytes_to_hash stored) (insert_slot addr slot value s.storage),
  )
