-- ===== src/Snapshot/Ends.antt =====
-- Reading a snapshot ends on every stream, and what it accepts has passed the checks.
use ioswarm.Common.{
  ℕ, zero, suc, ◌+◌, ◌-◌, ◌≤◌, ◌<◌, ◌≡◌, refl, sym, ap, ◌∙◌, some, List, [], ◌∷◌, ◌++◌, Bytes,
  bytes_eq, bytes_eq_iff, ◌==◌, ==_iff, take, length, length-append, take-append_self, All, arith,
}
use ioswarm.Store.{StateDiffEntry, write_type_put}
use ioswarm.Snapshot.Read.{
  read_entry_marker, read_ns_len, read_namespace, read_key_len, read_key, read_val_len, read_value,
  read_entry_count, entry_count_mismatch, read_digest, read_end_magic, invalid_end_magic,
  digest_mismatch, snapshot_end, entry_marker, end_marker, read_full, read_uint, read_entry,
  entries_loop,
}
use ioswarm.Snapshot.Load.{check_trailer, read_body}
use ioswarm.Snapshot.Steps.{
  Runs, Runs-bind, Runs-choice, Runs-guard, Runs-map, full_step, uint_step, IsSuffix,
  IsSuffix-trans, read_full-IsSuffix, read_uint-IsSuffix,
}

abbrev pub IsPut : StateDiffEntry → Type 0
IsPut e = e.write_type ≡ write_type_put

read_entry-Runs :
    (stream : Bytes)
    → Runs
        (λ (e, rest). IsPut e × (length rest ≤ length stream) × IsSuffix rest stream)
        (read_entry stream)
unfolding read_entry
read_entry-Runs stream =
    uint_step _ 1 stream read_ns_len _ (λ q. cc)
      (λ ns_len s1 r1 l1.
        full_step _ ns_len s1 read_namespace _ (λ q. cc)
          (λ ns s2 r2 l2.
            uint_step _ 4 s2 read_key_len _ (λ q. cc)
              (λ key_len s3 r3 l3.
                full_step _ key_len s3 read_key _ (λ q. cc)
                  (λ key s4 r4 l4.
                    uint_step _ 4 s4 read_val_len _ (λ q. cc)
                      (λ val_len s5 r5 l5.
                        full_step _ val_len s5 read_value _ (λ q. cc)
                          (λ val s6 r6 l6. (
                            refl,
                            omega arith,
                            IsSuffix-trans s6 s5 stream (read_full-IsSuffix val_len s5 val s6 r6) (
                                IsSuffix-trans s5 s4 stream (read_uint-IsSuffix 4 s4 val_len s5 r5)
                                  (IsSuffix-trans s4 s3 stream
                                    (read_full-IsSuffix key_len s3 key s4 r4)
                                    (IsSuffix-trans s3 s2 stream
                                      (read_uint-IsSuffix 4 s2 key_len s3 r3)
                                      (IsSuffix-trans s2 s1 stream
                                        (read_full-IsSuffix ns_len s1 ns s2 r2)
                                        (read_uint-IsSuffix 1 stream ns_len s1 r1))))),
                          )))))))

-- The number counts the entries, and every entry is a put.
abbrev pub IsCounted : List StateDiffEntry → ℕ → Type 0
IsCounted entries n = (n ≡ length entries) × All IsPut entries

All-append_one :
    (es : List StateDiffEntry) (e : StateDiffEntry)
    → All IsPut es
    → IsPut e
    → All IsPut (es ++ e ∷ [])
All-append_one [] e h p = (p, tt)
All-append_one (x ∷ es) e h p = (h.0, All-append_one es e h.1 p)

entries_loop-Runs :
    (fuel : ℕ) (stream : Bytes) (diffs : List StateDiffEntry) (entries : ℕ)
    → length stream < fuel
    → IsCounted diffs entries
    → Runs
        (λ (ds, n, rest). IsCounted ds n × IsSuffix rest stream)
        (entries_loop fuel stream diffs entries)
unfolding entries_loop
entries_loop-Runs zero stream diffs entries lt h = absurd (omega arith)
entries_loop-Runs (suc fuel) stream diffs entries lt h =
    full_step _ 1 stream read_entry_marker _ (λ q. cc)
      (λ marker rest r1 l.
        let behind : IsSuffix rest stream = read_full-IsSuffix 1 stream marker rest r1 in
        Runs-choice _ (bytes_eq marker (end_marker ∷ [])) _ _ (h, behind)
          (Runs-choice _ (bytes_eq marker (entry_marker ∷ [])) _ _
            (Runs-bind _ _ (read_entry rest) _ (read_entry-Runs rest)
              (λ (e, rest') (put, shorter, behind').
                Runs-map _ _ (entries_loop fuel rest' (diffs ++ e ∷ []) (entries + 1))
                  (λ (ds, n, last) (counted, s). (
                    counted,
                    IsSuffix-trans last rest' stream s
                        (IsSuffix-trans rest' rest stream behind' behind),
                  ))
                  (entries_loop-Runs fuel rest' (diffs ++ e ∷ []) (entries + 1) (omega arith) (
                    omega (arith, h.0, length-append diffs (e ∷ [])),
                    All-append_one diffs e h.1 put,
                  ))))
            (λ q. cc)))

-- The trailer behind the entries: their number, the digest of what was read before it, and the end.
abbrev pub IsTrailer : (Bytes → Bytes) → Bytes → ℕ → Bytes → Type 0
IsTrailer sha256 seen n trailer =
    (s1 s2 s3 : Bytes) × (read_uint 8 trailer ≡ some (n, s1))
    × (read_full 32 s1 ≡ some (sha256 seen, s2))
    × (read_full 8 s2 ≡ some (snapshot_end, s3))

split_at_suffix :
    (rest stream : Bytes)
    → IsSuffix rest stream
    → stream ≡ take (length stream - length rest) stream ++ rest
split_at_suffix rest stream (front, e) =
    let size : length stream - length rest ≡ length front =
      omega (arith, ap length e, length-append front rest) in
    e
    ∙ ap (λ xs. xs ++ rest)
        (sym (
          ap (λ k. take k stream) size
          ∙ ap (λ xs. take (length front) xs) e
          ∙ take-append_self front rest))

module _ (sha256 : Bytes → Bytes) where
  check_trailer-Runs :
      (seen : Bytes) (n : ℕ) (trailer : Bytes)
      → Runs (λ _. IsTrailer sha256 seen n trailer) (check_trailer sha256 seen n trailer)
  unfolding check_trailer
  check_trailer-Runs seen n trailer =
      uint_step _ 8 trailer read_entry_count _ (λ q. cc)
        (λ count s1 r1 _.
          Runs-guard _ (count == n) (entry_count_mismatch count n) _ (λ q. cc)
            (λ same_count.
              full_step _ 32 s1 read_digest _ (λ q. cc)
                (λ digest s2 r2 _.
                  full_step _ 8 s2 read_end_magic _ (λ q. cc)
                    (λ end_magic s3 r3 _.
                      Runs-guard _ (bytes_eq end_magic snapshot_end) (invalid_end_magic end_magic) _
                        (λ q. cc)
                        (λ same_end.
                          Runs-guard _ (bytes_eq (sha256 seen) digest) digest_mismatch _ (λ q. cc)
                            (λ same_digest. (
                              s1,
                              s2,
                              s3,
                              r1 ∙ ap (λ c. some (c, s1)) ((==_iff count n).0 same_count),
                              r2
                                  ∙ ap (λ d. some (d, s2))
                                      (sym ((bytes_eq_iff (sha256 seen) digest).0 same_digest)),
                              r3
                                  ∙ ap (λ m. some (m, s3))
                                      ((bytes_eq_iff end_magic snapshot_end).0 same_end),
                            )))))))

  -- What an accepted file is: what the hasher has seen, then the trailer.
  abbrev pub IsBody : Bytes → List StateDiffEntry × ℕ → Type 0
  IsBody stream (entries, n) =
      IsCounted entries n
      × ((seen trailer : Bytes) × (stream ≡ seen ++ trailer) × IsTrailer sha256 seen n trailer)

  -- Reading what follows the header of a file does not run out of fuel; and if it gives entries,
  -- they are puts, and the file is some bytes followed by a trailer that holds the number of the
  -- entries, the digest of those bytes, and the end magic.
  pub read_body-Runs :
      (stream after_header : Bytes)
      → IsSuffix after_header stream
      → Runs (IsBody stream) (read_body sha256 stream after_header)
  unfolding read_body
  read_body-Runs stream after_header behind =
      Runs-bind _ _ (entries_loop (suc (length after_header)) after_header [] 0) _
        (entries_loop-Runs (suc (length after_header)) after_header [] 0 (omega arith) (refl, tt))
        (λ (diffs, n, trailer) (counted, s).
          let seen = take (length stream - length trailer) stream in
          Runs-bind _ _ (check_trailer sha256 seen n trailer) _ (check_trailer-Runs seen n trailer)
            (λ checked is_trailer. (
              counted,
              (
                seen,
                trailer,
                split_at_suffix trailer stream
                    (IsSuffix-trans trailer after_header stream s behind),
                is_trailer,
              ),
            )))
