-- ===== src/Snapshot/Header.antt =====
-- The height that a snapshot's header gives, and what a load leaves of a store that is in step.
use mathlib.Core.Path.{subst}
use mathlib.Core.Option
use ioswarm.Common.{
  ℕ, zero, suc, none, Bool, false, ltb, if◌then◌else◌, length-take, ◌^◌, ◌<◌, ◌≡◌, refl, ap, ◌∙◌,
  some, [], ◌∷◌, ◌++◌, Bytes, true, false, bytes_eq, ◌==◌, take, drop, length, All, arith, Result,
  ok, err,
}
use ioswarm.Common.BigEndian.{of_bytes, of_bytes_bound, IsByte}
use ioswarm.Store.{Bolt, IsBolt, StateStore}
use ioswarm.Store.Laws.{IsSynced, Changed-IsSynced}
use ioswarm.Snapshot.Read.{
  SnapshotError, invalid_magic, unsupported_version, snapshot_magic, snapshot_version, number_of,
  read_magic, read_version, read_height, read_full, read_uint, read_header,
}
use ioswarm.Snapshot.Load.{load_snapshot}
use ioswarm.Snapshot.Steps.{
  Runs, Runs-guard, or_err-Runs, full_step, uint_step, IsSuffix, read_full-IsSuffix,
  read_uint-IsSuffix,
}
use ioswarm.Snapshot.Safety.{Outcome, refused, skipped, loaded, load_snapshot-Outcome}

take-All : (n : ℕ) (bs : Bytes) → All IsByte bs → All IsByte (take n bs)
take-All zero bs are = tt
take-All (suc n) [] are = tt
take-All (suc n) (c ∷ bs) (is_byte, are) = (is_byte, take-All n bs are)

suffix-All : (front rest : Bytes) → All IsByte (front ++ rest) → All IsByte rest
suffix-All [] rest are = are
suffix-All (c ∷ front) rest (is_byte, are) = suffix-All front rest are

left-All : (rest stream : Bytes) → IsSuffix rest stream → All IsByte stream → All IsByte rest
left-All rest stream (front, same) are = suffix-All front rest (subst (All IsByte) same are)

tested_bound :
    (n : ℕ) (stream rest : Bytes) (v : ℕ) (short : Bool)
    → ltb (length stream) n ≡ short
    → All IsByte stream
    → Option.map number_of (if short then none else some (take n stream, drop n stream))
      ≡ some (v, rest)
    → v < 256 ^ n
tested_bound n stream rest v true t are e = cc
tested_bound n stream rest v false t are e =
    let same : of_bytes (take n stream) ≡ v = ap (λ p. p.0) (Option.some_inj.0 e) in
    let full : length (take n stream) ≡ n = length-take n stream ∙ ground arith in
    subst (λ x. x < 256 ^ n) same
      (subst (λ k. of_bytes (take n stream) < 256 ^ k) full
        (of_bytes_bound (take n stream) (take-All n stream are)))

read_uint_bound :
    (n : ℕ) (stream rest : Bytes) (v : ℕ)
    → All IsByte stream
    → read_uint n stream ≡ some (v, rest)
    → v < 256 ^ n
unfolding read_uint read_full
read_uint_bound n stream rest v are e =
    tested_bound n stream rest v (ltb (length stream) n) refl are e

IsWordHeight : ℕ × Bytes → Type 0
IsWordHeight p = p.0 < 2 ^ 64

read_header-IsWord : (stream : Bytes) → All IsByte stream → Runs IsWordHeight (read_header stream)
unfolding read_header IsWordHeight
read_header-IsWord stream are =
    full_step IsWordHeight 8 stream read_magic _ (λ q. cc)
      (λ magic s1 r1 l1.
        Runs-guard IsWordHeight (bytes_eq magic snapshot_magic) (invalid_magic magic) _ (λ q. cc)
          (λ ok_magic.
            uint_step IsWordHeight 4 s1 read_version _ (λ q. cc)
              (λ version s2 r2 l2.
                Runs-guard IsWordHeight (version == snapshot_version) (unsupported_version version)
                  _ (λ q. cc)
                  (λ ok_version.
                    or_err-Runs IsWordHeight (read_uint 8 s2) read_height (λ q. cc)
                      (λ (height, rest) same.
                        read_uint_bound 8 s2 rest height
                          (left-All s2 s1 (read_uint-IsSuffix 4 s1 version s2 r2)
                            (left-All s1 stream (read_full-IsSuffix 8 stream magic s1 r1) are))
                          same)))))

-- A stream of bytes, where the file was opened.
abbrev pub IsStream : Result SnapshotError Bytes → Type 0
IsStream (ok stream) = All IsByte stream
IsStream (err e) = Unit {0}

module _ (sha256 : Bytes → Bytes) (b : Bolt) (laws : IsBolt b) where
  -- Over a database that keeps BoltDB's laws, a store that is in step with its database is so
  -- behind a load of any bytes, whether they are accepted, skipped or refused.
  pub load_snapshot-IsSynced :
      (opened : Result SnapshotError Bytes) (s : StateStore b)
      → IsStream opened
      → IsSynced b laws s
      → IsSynced b laws (load_snapshot sha256 b opened s).1
  unfolding IsWordHeight
  load_snapshot-IsSynced opened s are synced =
      by_outcome opened are (load_snapshot sha256 b opened s)
        (load_snapshot-Outcome sha256 b laws opened s)
    where
      word :
          (opened : Result SnapshotError Bytes)
          → IsStream opened
          → (stream after_header : Bytes) (height : ℕ) → opened ≡ ok stream
          → read_header stream ≡ ok (height, after_header)
          → height < 2 ^ 64
      word opened are stream after_header height same header =
          subst (Runs IsWordHeight) header (read_header-IsWord stream (subst IsStream same are))

      by_outcome :
          (opened : Result SnapshotError Bytes)
          → IsStream opened
          → (r : Result SnapshotError (ℕ × ℕ) × StateStore b) → Outcome sha256 b laws opened s r
          → IsSynced b laws r.1
      by_outcome opened are _ (refused e) = synced
      by_outcome opened are _ (skipped height there) = synced
      by_outcome opened are _
            (loaded stream after_header height n entries d' same header body higher changed) =
          Changed-IsSynced b laws s height entries d'
            (word opened are stream after_header height same header) synced changed
