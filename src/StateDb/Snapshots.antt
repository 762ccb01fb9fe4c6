-- ===== src/StateDb/Snapshots.antt =====
-- Snapshot, RevertToSnapshot and the logs. The deep copies of Go are values here.
use ioswarm.Common.{ℕ, ◌+◌, ◌%◌, ◌^◌, Option, none, some, [], ◌∷◌, ◌++◌, get_elem?, take, length}
use ioswarm.Common.Int.{ℤ, pos, negsuc}
use ioswarm.StateDb.State.{Log, SnapshotEntry, MemStateDb}

abbrev pub entry_of : MemStateDb → SnapshotEntry
entry_of s = record {
  accounts = s.accounts;
  storage = s.storage;
  changes = s.changes;
  logs = s.logs;
  refund = s.refund;
  accessed_addresses = s.accessed_addresses;
  accessed_slots = s.accessed_slots;
  transient_storage = s.transient_storage;
}

-- The new snapshot's number, and the state with it.
unfoldable pub snapshot : MemStateDb → ℕ × MemStateDb
snapshot s = (length s.snapshots, record s { snapshots = s.snapshots ++ entry_of s ∷ [] })

abbrev pub restore : MemStateDb → ℕ → SnapshotEntry → MemStateDb
restore s id snap = record s {
  accounts = snap.accounts;
  storage = snap.storage;
  changes = snap.changes;
  logs = snap.logs;
  refund = snap.refund;
  accessed_addresses = snap.accessed_addresses;
  accessed_slots = snap.accessed_slots;
  transient_storage = snap.transient_storage;
  snapshots = take id s.snapshots;
}

-- A number of no snapshot changes nothing.
unfoldable pub restore_found : MemStateDb → ℕ → Option SnapshotEntry → MemStateDb
restore_found s id none = s
restore_found s id (some snap) = restore s id snap

unfoldable pub revert_to_snapshot : MemStateDb → ℤ → MemStateDb
unfolding restore_found
revert_to_snapshot s (negsuc n) = s
revert_to_snapshot s (pos id) = restore_found s id (get_elem? s.snapshots id)

-- The log's index is a Go uint of 64 bits.
unfoldable pub add_log : MemStateDb → Log → MemStateDb
add_log s log =
    let stamped : Log = record log {
      tx_hash = s.tx_hash;
      tx_index = s.tx_index;
      index = s.log_index;
    } in
    record s { log_index = (s.log_index + 1) % 2 ^ 64; logs = s.logs ++ stamped ∷ [] }
