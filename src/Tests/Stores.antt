-- ===== src/Tests/Stores.antt =====
-- A store over a database in memory, for statestore.go and snapshot.go.
use ioswarm.Common.{
  take, sym, take-append-drop, ◌≡◌, ◌≢◌, drop, ◌⊎◌, refl, none, some, List, [], ◌∷◌, ◌++◌, Bytes,
  codes, ok, arith, length,
}
use ioswarm.Common.{bytes_eq, ◌||◌, false}
use ioswarm.Common.BigEndian.{of_bytes, to_bytes, length-to_bytes}
use ioswarm.Mpt.{ns_contract}
use ioswarm.Errors.{Error}
use ioswarm.Store.{
  StateDiffEntry, StateStore, ns_account, ns_code, ns_meta, load_height, open_state_store,
  apply_diff,
}
use ioswarm.Store.Laws.{IsSynced, Changed, after_diff, apply_diff_atomic, apply_diff-IsSynced}
use ioswarm.Store.Open.{open_state_store-IsSynced, reopen_keeps}
use ioswarm.Store.Memory.{Memory, no_memory, memory, memory-IsBolt}
use ioswarm.Common.{err, drop, ◌≢◌}
use ioswarm.Snapshot.Steps.{Runs}
use ioswarm.Snapshot.Ends.{IsBody, read_body-Runs}
use ioswarm.Snapshot.Halts.{load_snapshot_ends}
use ioswarm.Snapshot.{exhausted, read_body, applied, load_snapshot}
use ioswarm.Snapshot.Format.{put_hashed, put_snapshot}
use ioswarm.Snapshot.RoundTrip.{load_snapshot-put_snapshot}
use ioswarm.Snapshot.Safety.{Outcome, load_snapshot-Outcome}

-- A store as it is opened the first time.
abbrev pub new_memory : Memory
new_memory = record {
  buckets = λ ns.
      bytes_eq ns ns_meta
      || (bytes_eq ns ns_contract || (bytes_eq ns ns_code || (bytes_eq ns ns_account || false)));
  content = λ ns key. none;
}

abbrev pub new_store : StateStore memory
new_store = record { db = new_memory; height = 0 }

new_store_opens : open_state_store memory (ok no_memory) ≡ ok new_store
unfolding open_state_store load_height
new_store_opens = refl

pub new_store-IsSynced : IsSynced memory memory-IsBolt new_store
new_store-IsSynced =
    (open_state_store-IsSynced memory memory-IsBolt no_memory new_store new_store_opens).0

abbrev put_one : StateDiffEntry
put_one = record { write_type = 0; namespace = ns_account; key = 7 ∷ []; value = 1 ∷ 2 ∷ [] }

abbrev delete_one : StateDiffEntry
delete_one = record { write_type = 1; namespace = codes "Other"; key = 8 ∷ []; value = [] }

abbrev pub two_entries : List StateDiffEntry
two_entries = put_one ∷ delete_one ∷ []

apply_diff_atomic_example :
    ((e : Error) × (apply_diff memory new_store 12 two_entries ≡ (some e, new_store)))
    ⊎ ((d' : Memory) × (apply_diff memory new_store 12 two_entries
          ≡ (none, record { db = d'; height = 12 }))
        × Changed memory memory-IsBolt (after_diff 12 two_entries) new_memory d')
apply_diff_atomic_example = apply_diff_atomic memory memory-IsBolt new_store 12 two_entries

apply_diff-IsSynced_example :
    IsSynced memory memory-IsBolt (apply_diff memory new_store 12 two_entries).1
apply_diff-IsSynced_example =
    apply_diff-IsSynced memory memory-IsBolt new_store 12 two_entries (omega arith)
      new_store-IsSynced

abbrev later_store : StateStore memory
later_store = (apply_diff memory new_store 12 two_entries).1

-- The same store behind a restart.
abbrev reopened_store : StateStore memory
reopened_store = record {
  db = record {
    buckets = λ ns.
        bytes_eq ns ns_meta
        || (bytes_eq ns ns_contract
            || (bytes_eq ns ns_code || (bytes_eq ns ns_account || later_store.db.buckets ns)));
    content = later_store.db.content;
  };
  height = 12;
}

later_store_opens : open_state_store memory (ok later_store.db) ≡ ok reopened_store
unfolding open_state_store load_height apply_diff bytes_eq to_bytes of_bytes
later_store_opens = refl

reopen_keeps_example :
    (12 ≡ later_store.height)
    × ((ns key : Bytes) → reopened_store.db.content ns key ≡ later_store.db.content ns key)
reopen_keeps_example =
    reopen_keeps memory memory-IsBolt later_store reopened_store
      (apply_diff-IsSynced memory memory-IsBolt new_store 12 two_entries (omega arith)
        new_store-IsSynced)
      later_store_opens

-- A digest of 32 bytes.
abbrev pub sample_digest : Bytes → Bytes
sample_digest bs = to_bytes 32 (length bs)

load_snapshot-put_snapshot_example :
    load_snapshot sample_digest memory
      (ok (put_snapshot sample_digest 12 (put_one ∷ []) ++ 99 ∷ []))
      new_store
    ≡ applied sample_digest memory 12 1 (apply_diff memory new_store 12 (put_one ∷ []))
load_snapshot-put_snapshot_example =
    load_snapshot-put_snapshot sample_digest memory new_store 12 (put_one ∷ []) (99 ∷ [])
      (
        record {
          is_put = refl;
          namespace_fits = omega arith;
          key_fits = omega arith;
          value_fits = omega arith;
        },
        tt,
      )
      (omega arith) (omega arith) (length-to_bytes 32 (length (put_hashed 12 (put_one ∷ []))))
      (omega arith)

load_snapshot-Outcome_example :
    Outcome sample_digest memory memory-IsBolt
      (ok (codes "IOSWSNAP"))
      new_store
      (load_snapshot sample_digest memory (ok (codes "IOSWSNAP")) new_store)
load_snapshot-Outcome_example =
    load_snapshot-Outcome sample_digest memory memory-IsBolt (ok (codes "IOSWSNAP")) new_store

abbrev sample_file : Bytes
sample_file = put_snapshot sample_digest 12 (put_one ∷ [])

load_snapshot_ends_example :
    (load_snapshot sample_digest memory (ok sample_file) new_store).0 ≢ err exhausted
load_snapshot_ends_example = load_snapshot_ends sample_digest memory sample_file new_store

read_body-Runs_example :
    Runs
      (IsBody sample_digest sample_file)
      (read_body sample_digest sample_file (drop 20 sample_file))
read_body-Runs_example =
    read_body-Runs sample_digest sample_file (drop 20 sample_file)
      (take 20 sample_file, sym (take-append-drop 20 sample_file))
