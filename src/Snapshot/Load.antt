-- ===== src/Snapshot/Load.antt =====
-- The trailer, the digest, and the whole of LoadSnapshot. `sha256` is crypto/sha256's digest.
use ioswarm.Common.{
  ℕ, suc, ◌-◌, Option, none, some, List, [], Bytes, bytes_eq, ◌==◌, leb, not, if◌then◌else◌, take,
  length, Result, ok, err, ◌>>=◌, or_err,
}
use ioswarm.Errors.{Error}
use ioswarm.Store.{Bolt, StateDiffEntry, StateStore, apply_diff}
use ioswarm.Snapshot.Read.{
  SnapshotError, read_entry_count, read_digest, read_end_magic, invalid_end_magic,
  entry_count_mismatch, digest_mismatch, apply_entries_failed, snapshot_end, read_full, read_uint,
  read_header, entries_loop,
}

module _ (sha256 : Bytes → Bytes) where
  -- `read_so_far` is what the hasher has seen: header, entries and end marker. A count of 2^63 or
  -- more is a negative int, and equals no number of entries there as little as here.
  unfoldable pub check_trailer : Bytes → ℕ → Bytes → Result SnapshotError (Unit {0})
  check_trailer read_so_far entries stream = do
    (count, s1) ← or_err (read_uint 8 stream) read_entry_count
    if not (count == entries) then err (entry_count_mismatch count entries) else (do
      (digest_got, s2) ← or_err (read_full 32 s1) read_digest
      (end_magic, s3) ← or_err (read_full 8 s2) read_end_magic
      if not (bytes_eq end_magic snapshot_end)
          then err (invalid_end_magic end_magic)
          else if not (bytes_eq (sha256 read_so_far) digest_got)
          then err digest_mismatch
          else ok tt)

  -- All of the file behind the header: the entries to apply and their number.
  unfoldable pub read_body : Bytes → Bytes → Result SnapshotError (List StateDiffEntry × ℕ)
  read_body stream after_header = do
    (diffs, entries, trailer) ← entries_loop (suc (length after_header)) after_header [] 0
    checked ← check_trailer (take (length stream - length trailer) stream) entries trailer
    ok (diffs, entries)

  module _ (b : Bolt) where
    -- Behind ApplyDiff: its error, or the height and the number of entries.
    unfoldable pub applied :
        ℕ → ℕ → Option Error × StateStore b → Result SnapshotError (ℕ × ℕ) × StateStore b
    applied height entries (some e, s) = (err (apply_entries_failed e), s)
    applied height entries (none, s) = (ok (height, entries), s)

    -- Behind the header: a store that is as high already is left alone.
    unfoldable pub load_body :
        StateStore b → Bytes → ℕ → Bytes → Result SnapshotError (ℕ × ℕ) × StateStore b
    load_body s stream height after_header =
        if leb height s.height then (ok (height, 0), s) else elim (read_body stream after_header) [
          | err e ↦ (err e, s)
          | ok (diffs, entries) ↦ applied height entries (apply_diff b s height diffs)
        ]

    -- `opened` is the stream, or the error of os.Open or gzip.NewReader.
    unfoldable pub load_snapshot :
        Result SnapshotError Bytes → StateStore b → Result SnapshotError (ℕ × ℕ) × StateStore b
    load_snapshot opened s = elim opened [
      | err e ↦ (err e, s)
      | ok stream ↦ elim (read_header stream) [
        | err e ↦ (err e, s)
        | ok (height, after_header) ↦ load_body s stream height after_header
      ]
    ]
