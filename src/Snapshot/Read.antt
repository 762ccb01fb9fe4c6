-- ===== src/Snapshot/Read.antt =====
-- Reading the header and the entries. A stream is the list of the bytes that gzip gives; one that
-- breaks off, or that gzip refuses half-way, is a list that ends there.
use mathlib.Core.Option
use ioswarm.Common.{
  ℕ, zero, suc, ◌+◌, Option, none, some, List, [], ◌∷◌, ◌++◌, Bytes, true, false, bytes_eq, codes,
  ◌==◌, ltb, not, if◌then◌else◌, take, drop, length, Result, ok, err, ◌>>=◌, or_err,
}
use ioswarm.Common.BigEndian.{of_bytes}
use ioswarm.Errors.{Error}
use ioswarm.Store.{StateDiffEntry, write_type_put}

-- The errors of LoadSnapshot, one for each message.
pub data SnapshotError : Type 0 where
  open_snapshot gzip_reader : SnapshotError
  read_magic read_version read_height read_entry_marker : SnapshotError
  read_ns_len read_namespace read_key_len read_key read_val_len read_value : SnapshotError
  read_entry_count read_digest read_end_magic : SnapshotError
  invalid_magic invalid_end_magic : Bytes → SnapshotError
  unsupported_version unexpected_marker : ℕ → SnapshotError
  entry_count_mismatch : ℕ → ℕ → SnapshotError
  digest_mismatch : SnapshotError
  apply_entries_failed : Error → SnapshotError
  -- no error of the program: the loop of the model ran out of its fuel
  exhausted : SnapshotError

abbrev pub snapshot_magic : Bytes
snapshot_magic = codes "IOSWSNAP"

abbrev pub snapshot_end : Bytes
snapshot_end = codes "SNAPEND" ++ 0 ∷ []

abbrev pub snapshot_version : ℕ
snapshot_version = 1

abbrev pub entry_marker : ℕ
entry_marker = 0x01

abbrev pub end_marker : ℕ
end_marker = 0x00

-- io.ReadFull of `n` bytes: these and the stream behind them.
unfoldable pub read_full : ℕ → Bytes → Option (Bytes × Bytes)
read_full n stream = if ltb (length stream) n then none else some (take n stream, drop n stream)

-- The number that bytes stand for.
abbrev pub number_of : Bytes × Bytes → ℕ × Bytes
number_of (bs, rest) = (of_bytes bs, rest)

-- binary.Read of a big-endian unsigned integer of `n` bytes.
unfoldable pub read_uint : ℕ → Bytes → Option (ℕ × Bytes)
unfolding read_full
read_uint n stream = Option.map number_of (read_full n stream)

-- The header: the height, and what follows it.
unfoldable pub read_header : Bytes → Result SnapshotError (ℕ × Bytes)
read_header stream = do
  (magic, after_magic) ← or_err (read_full 8 stream) read_magic
  if not (bytes_eq magic snapshot_magic) then err (invalid_magic magic) else (do
    (version, after_version) ← or_err (read_uint 4 after_magic) read_version
    if not (version == snapshot_version)
        then err (unsupported_version version)
        else or_err (read_uint 8 after_version) read_height)

-- One entry, behind its marker.
unfoldable pub read_entry : Bytes → Result SnapshotError (StateDiffEntry × Bytes)
read_entry stream = do
  (ns_len, s1) ← or_err (read_uint 1 stream) read_ns_len
  (ns, s2) ← or_err (read_full ns_len s1) read_namespace
  (key_len, s3) ← or_err (read_uint 4 s2) read_key_len
  (key, s4) ← or_err (read_full key_len s3) read_key
  (val_len, s5) ← or_err (read_uint 4 s4) read_val_len
  (val, s6) ← or_err (read_full val_len s5) read_value
  ok (record { write_type = write_type_put; namespace = ns; key = key; value = val }, s6)

-- The `for` loop: the entries so far, how many they are, and the stream behind the end marker.
unfoldable pub entries_loop :
    ℕ → Bytes → List StateDiffEntry → ℕ → Result SnapshotError (List StateDiffEntry × ℕ × Bytes)
entries_loop zero stream diffs entries = err exhausted
entries_loop (suc fuel) stream diffs entries = do
  (marker, rest) ← or_err (read_full 1 stream) read_entry_marker
  elim (bytes_eq marker (end_marker ∷ [])) [
    | true ↦ ok (diffs, entries, rest)
    | false ↦ elim (bytes_eq marker (entry_marker ∷ [])) [
      | false ↦ err (unexpected_marker (of_bytes marker))
      | true ↦ do
        (entry, rest') ← read_entry rest
        entries_loop fuel rest' (diffs ++ entry ∷ []) (entries + 1)
    ]
  ]
