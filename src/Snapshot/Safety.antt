-- ===== src/Snapshot/Safety.antt =====
-- What LoadSnapshot may do to a store, on every input.
use ioswarm.Common.{
  ℕ, ◌≤◌, ◌<◌, ◌≡◌, refl, inl, inr, List, Bytes, true, false, leb, arith, Result, ok, err,
  Result-cases, Bool-cases,
}
use ioswarm.Store.{Bolt, IsBolt, StateDiffEntry, StateStore, apply_diff}
use ioswarm.Store.Laws.{Changed, after_diff, apply_diff_atomic}
use ioswarm.Snapshot.Read.{SnapshotError, apply_entries_failed, read_header}
use ioswarm.Snapshot.Load.{read_body, applied, load_body, load_snapshot}

module _ (sha256 : Bytes → Bytes) (b : Bolt) (laws : IsBolt b) where
  -- The three ways in which loading ends.
  pub data Outcome (opened : Result SnapshotError Bytes) (s : StateStore b)
      : Result SnapshotError (ℕ × ℕ) × StateStore b → Type 0 where
    refused : (e : SnapshotError) → Outcome opened s (err e, s)
    skipped : (height : ℕ) → height ≤ s.height → Outcome opened s (ok (height, 0), s)
    loaded :
        (stream after_header : Bytes) (height n : ℕ) (entries : List StateDiffEntry) (d' : b.Db)
        → opened ≡ ok stream
        → read_header stream ≡ ok (height, after_header)
        → read_body sha256 stream after_header ≡ ok (entries, n)
        → s.height < height
        → Changed b laws (after_diff height entries) s.db d'
        → Outcome opened s (ok (height, n), record { db = d'; height = height })

  applied-Outcome :
      (s : StateStore b) (stream after_header : Bytes) (height n : ℕ)
      (entries : List StateDiffEntry)
      → read_header stream ≡ ok (height, after_header)
      → read_body sha256 stream after_header ≡ ok (entries, n)
      → s.height < height
      → Outcome (ok stream) s (applied sha256 b height n (apply_diff b s height entries))
  unfolding applied
  applied-Outcome s stream after_header height n entries header body higher =
      elim (apply_diff_atomic b laws s height entries) [
        | inl (e, failed) ↦ rw failed (refused (apply_entries_failed e))
        | inr (d', done, changed) ↦
            rw done (loaded stream after_header height n entries d' refl header body higher changed)
      ]

  reached : (height have : ℕ) → leb height have ≡ true → height ≤ have
  reached height have h = ground arith

  not_yet : (height have : ℕ) → leb height have ≡ false → have < height
  not_yet height have h = ground arith

  body-Outcome :
      (s : StateStore b) (stream : Bytes) (height : ℕ) (after_header : Bytes)
      → read_header stream ≡ ok (height, after_header)
      → Outcome (ok stream) s (load_body sha256 b s stream height after_header)
  unfolding load_body
  body-Outcome s stream height after_header header = elim (Bool-cases (leb height s.height)) [
    | inl done ↦ rw (load_body, done) (skipped height (reached height s.height done))
    | inr ahead ↦
        rw (load_body, ahead)
          (elim (Result-cases (read_body sha256 stream after_header)) [
            | inl ((entries, n), body) ↦ rw body (
                applied-Outcome s stream after_header height n entries header body
                  (not_yet height s.height ahead))
            | inr (e, body) ↦ rw body (refused e)
          ])
  ]

  -- Over a database that keeps BoltDB's laws, every load ends in one of three ways. It is
  -- refused and the store is as it was; or the store was as high already and is as it was; or
  -- the header and the body were read and passed every check, the height is above the store's,
  -- and the store is the old one changed by a diff of the entries that were read.
  pub load_snapshot-Outcome :
      (opened : Result SnapshotError Bytes) (s : StateStore b)
      → Outcome opened s (load_snapshot sha256 b opened s)
  unfolding load_snapshot
  load_snapshot-Outcome (err e) s = refused e
  load_snapshot-Outcome (ok stream) s = elim (Result-cases (read_header stream)) [
    | inl ((height, after_header), header) ↦
        rw (load_snapshot, header) (body-Outcome s stream height after_header header)
    | inr (e, header) ↦ rw (load_snapshot, header) (refused e)
  ]
