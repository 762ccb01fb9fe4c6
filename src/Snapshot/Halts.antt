-- ===== src/Snapshot/Halts.antt =====
-- LoadSnapshot ends on every stream.
use ioswarm.Common.{
  ℕ, ◌≡◌, ◌≢◌, Option, none, some, List, Bytes, ◌==◌, bytes_eq, leb, Result, ok, err, Bool-cases,
  inl, inr,
}
use ioswarm.Errors.{Error}
use ioswarm.Store.{Bolt, StateDiffEntry, StateStore, apply_diff}
use ioswarm.Snapshot.Read.{
  SnapshotError, exhausted, read_magic, read_version, read_height, invalid_magic,
  unsupported_version, snapshot_magic, snapshot_version, read_uint, read_header,
}
use ioswarm.Snapshot.Load.{read_body, applied, load_body, load_snapshot}
use ioswarm.Snapshot.Steps.{
  Runs, or_err-Runs, full_step, uint_step, Runs-guard, IsSuffix, IsSuffix-trans, read_full-IsSuffix,
  read_uint-IsSuffix,
}
use ioswarm.Snapshot.Ends.{IsBody, read_body-Runs}

read_header-Runs :
    (stream : Bytes) → Runs (λ (height, rest). IsSuffix rest stream) (read_header stream)
unfolding read_header
read_header-Runs stream =
    full_step _ 8 stream read_magic _ (λ q. cc)
      (λ magic s1 r1 _.
        Runs-guard _ (bytes_eq magic snapshot_magic) (invalid_magic magic) _ (λ q. cc)
          (λ _.
            uint_step _ 4 s1 read_version _ (λ q. cc)
              (λ version s2 r2 _.
                Runs-guard _ (version == snapshot_version) (unsupported_version version) _ (λ q. cc)
                  (λ _.
                    or_err-Runs _ (read_uint 8 s2) read_height (λ q. cc)
                      (λ (height, s3) r3.
                        IsSuffix-trans s3 s2 stream (read_uint-IsSuffix 8 s2 height s3 r3) (
                          IsSuffix-trans s2 s1 stream (read_uint-IsSuffix 4 s1 version s2 r2)
                            (read_full-IsSuffix 8 stream magic s1 r1)))))))

same_error :
    {A : Type 0} (e e' : SnapshotError) → Path (Result SnapshotError A) (err e) (err e') → e ≡ e'
same_error e e' q = cc

module _ (sha256 : Bytes → Bytes) (b : Bolt) where
  applied_ends :
      (height n : ℕ) (r : Option Error × StateStore b)
      → (applied sha256 b height n r).0 ≢ err exhausted
  unfolding applied
  applied_ends height n (some e, s) q = cc
  applied_ends height n (none, s) q = cc

  behind_body :
      (s : StateStore b) (height : ℕ) (P : List StateDiffEntry × ℕ → Type 0)
      (r : Result SnapshotError (List StateDiffEntry × ℕ))
      → Runs P r
      → (elim r as (λ _. Result SnapshotError (ℕ × ℕ) × StateStore b) [
        | err e ↦ (err e, s)
        | ok (diffs, entries) ↦ applied sha256 b height entries (apply_diff b s height diffs)
      ]).0
        ≢ err exhausted
  behind_body s height P (err e) h q = h (same_error e exhausted q)
  behind_body s height P (ok (diffs, entries)) h q =
      applied_ends height entries (apply_diff b s height diffs) q

  load_body_ends :
      (s : StateStore b) (stream : Bytes) (height : ℕ) (after_header : Bytes)
      → IsSuffix after_header stream
      → (load_body sha256 b s stream height after_header).0 ≢ err exhausted
  unfolding load_body
  load_body_ends s stream height after_header behind = elim (Bool-cases (leb height s.height)) [
    | inl high ↦ rw high (λ q. cc)
    | inr low ↦ rw low (
        behind_body s height (IsBody sha256 stream) (read_body sha256 stream after_header)
          (read_body-Runs sha256 stream after_header behind))
  ]

  behind_header :
      (s : StateStore b) (stream : Bytes) (r : Result SnapshotError (ℕ × Bytes))
      → Runs (λ (height, rest). IsSuffix rest stream) r
      → (elim r as (λ _. Result SnapshotError (ℕ × ℕ) × StateStore b) [
        | err e ↦ (err e, s)
        | ok (height, after_header) ↦ load_body sha256 b s stream height after_header
      ]).0
        ≢ err exhausted
  behind_header s stream (err e) h q = h (same_error e exhausted q)
  behind_header s stream (ok (height, after_header)) h q =
      load_body_ends s stream height after_header h q

  -- Whatever the bytes of the file and the store, loading never runs out of fuel.
  pub load_snapshot_ends :
      (stream : Bytes) (s : StateStore b) → (load_snapshot sha256 b (ok stream) s).0 ≢ err exhausted
  unfolding load_snapshot
  load_snapshot_ends stream s =
      behind_header s stream (read_header stream) (read_header-Runs stream)
