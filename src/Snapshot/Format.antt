-- ===== src/Snapshot/Format.antt =====
-- The file format as snapshot.go documents it: what a writer puts, apart from gzip.
use ioswarm.Common.{ℕ, ◌^◌, ◌<◌, ◌≡◌, List, [], ◌∷◌, ◌++◌, Bytes, length}
use ioswarm.Common.BigEndian.{to_bytes}
use ioswarm.Store.{StateDiffEntry, write_type_put}
use ioswarm.Snapshot.Read.{snapshot_magic, snapshot_end, snapshot_version, entry_marker, end_marker}

-- 0x01 + ns_len(uint8) + namespace + key_len(uint32) + key + val_len(uint32) + value
abbrev pub put_entry : StateDiffEntry → Bytes
put_entry e =
    to_bytes 1 (length e.namespace)
    ++ (e.namespace
        ++ (to_bytes 4 (length e.key) ++ (e.key ++ (to_bytes 4 (length e.value) ++ e.value))))

abbrev pub put_entries : List StateDiffEntry → Bytes
put_entries [] = []
put_entries (e ∷ entries) = entry_marker ∷ (put_entry e ++ put_entries entries)

-- magic(8) + version(uint32) + height(uint64)
abbrev pub put_header : ℕ → Bytes
put_header height = snapshot_magic ++ (to_bytes 4 snapshot_version ++ to_bytes 8 height)

-- What is hashed: the header, the entries and the end marker.
abbrev pub put_hashed : ℕ → List StateDiffEntry → Bytes
put_hashed height entries = put_header height ++ (put_entries entries ++ end_marker ∷ [])

-- entry_count(uint64) + sha256(32) + "SNAPEND\0"(8)
abbrev pub put_trailer : (Bytes → Bytes) → ℕ → List StateDiffEntry → Bytes
put_trailer sha256 height entries =
    to_bytes 8 (length entries) ++ (sha256 (put_hashed height entries) ++ snapshot_end)

abbrev pub put_snapshot : (Bytes → Bytes) → ℕ → List StateDiffEntry → Bytes
put_snapshot sha256 height entries = put_hashed height entries ++ put_trailer sha256 height entries

-- The lengths fit their fields, and every entry is a put.
pub record IsEntry (e : StateDiffEntry) : Type 0 where
  pub is_put : e.write_type ≡ write_type_put
  pub namespace_fits : length e.namespace < 2 ^ 8
  pub key_fits : length e.key < 2 ^ 32
  pub value_fits : length e.value < 2 ^ 32
