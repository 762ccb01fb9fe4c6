-- ===== src/Snapshot/RoundTrip.antt =====
-- A file in the documented format loads, whatever stands behind it.
use ioswarm.Common.{
  ℕ, zero, suc, ◌+◌, ◌-◌, ◌^◌, ◌<◌, ◌≡◌, ap, ◌∙◌, some, List, [], ◌∷◌, ◌++◌, arith, Bytes, true,
  false, bytes_eq, bytes_eq_refl, ◌==◌, ltb, leb, take, length, length-append, take-append_self,
  drop-append_self, All, Result, ok,
}
use mathlib.Core.List.{append-nil, append_assoc}
use ioswarm.Common.BigEndian.{to_bytes, length-to_bytes, of_bytes-to_bytes}
use ioswarm.Store.{StateDiffEntry, write_type_put, Bolt, StateStore, apply_diff}
use ioswarm.Snapshot.Read.{
  SnapshotError, read_full, read_uint, read_header, read_entry, entries_loop, snapshot_magic,
  snapshot_end, snapshot_version, entry_marker, end_marker,
}
use ioswarm.Snapshot.Load.{check_trailer, read_body, applied, load_body, load_snapshot}
use ioswarm.Snapshot.Format.{
  put_entry, put_entries, put_header, put_hashed, put_trailer, put_snapshot, IsEntry,
}

not_short : (n k : ℕ) → ltb (n + k) n ≡ false
not_short n k = ground arith

read_full-append : (xs ys : Bytes) → read_full (length xs) (xs ++ ys) ≡ some (xs, ys)
unfolding read_full
read_full-append xs ys = rw (
  length-append xs ys,
  not_short (length xs) (length ys),
  take-append_self xs ys,
  drop-append_self xs ys,
)

read_full_sized : (n : ℕ) (xs ys : Bytes) → length xs ≡ n → read_full n (xs ++ ys) ≡ some (xs, ys)
read_full_sized n xs ys e = rw (← e) (read_full-append xs ys)

read_uint-to_bytes :
    (n v : ℕ) (rest : Bytes) → v < 256 ^ n → read_uint n (to_bytes n v ++ rest) ≡ some (v, rest)
unfolding read_uint
read_uint-to_bytes n v rest h = rw (
  read_uint,
  read_full_sized n (to_bytes n v) rest (length-to_bytes n v),
  of_bytes-to_bytes n v h,
)

same_entry :
    (e : StateDiffEntry) (rest : Bytes)
    → e.write_type ≡ write_type_put
    → Path
        (Result SnapshotError (StateDiffEntry × Bytes))
        (ok (
          record {
            write_type = write_type_put;
            namespace = e.namespace;
            key = e.key;
            value = e.value;
          },
          rest,
        ))
        (ok (e, rest))
same_entry e rest p = ground arith

-- The entry that is read is the entry that was put.
read_entry-put_entry :
    (e : StateDiffEntry) (rest : Bytes)
    → IsEntry e
    → read_entry (put_entry e ++ rest) ≡ ok (e, rest)
unfolding read_entry
read_entry-put_entry e rest h = simp append_assoc (
    rw
      (
        read_uint-to_bytes 1 (length e.namespace) _ h.namespace_fits,
        read_full-append,
        read_uint-to_bytes 4 (length e.key) _ h.key_fits,
        read_full-append,
        read_uint-to_bytes 4 (length e.value) _ h.value_fits,
        read_full-append,
      )
      (same_entry e rest h.is_put))

loop_end :
    (fuel : ℕ) (rest : Bytes) (diffs : List StateDiffEntry) (n : ℕ)
    → entries_loop (suc fuel) (end_marker ∷ rest) diffs n ≡ ok (diffs, n, rest)
unfolding entries_loop bytes_eq
loop_end fuel rest diffs n = rw (read_full-append (end_marker ∷ []) rest)

loop_entry :
    (fuel : ℕ) (rest rest' : Bytes) (diffs : List StateDiffEntry) (n : ℕ) (e : StateDiffEntry)
    → read_entry rest ≡ ok (e, rest')
    → entries_loop (suc fuel) (entry_marker ∷ rest) diffs n
      ≡ entries_loop fuel rest' (diffs ++ e ∷ []) (n + 1)
unfolding entries_loop bytes_eq
loop_entry fuel rest rest' diffs n e read = rw (read_full-append (entry_marker ∷ []) rest, read)

-- The loop reads all entries, adds them to those it has, and stops behind the end marker.
entries_loop-put_entries :
    (entries : List StateDiffEntry) (fuel : ℕ) (rest : Bytes) (diffs : List StateDiffEntry) (n : ℕ)
    → All IsEntry entries
    → length (put_entries entries) < fuel
    → entries_loop fuel (put_entries entries ++ end_marker ∷ rest) diffs n
      ≡ ok (diffs ++ entries, n + length entries, rest)
entries_loop-put_entries entries zero rest diffs n h le = absurd (omega arith)
entries_loop-put_entries [] (suc fuel) rest diffs n h le =
    loop_end fuel rest diffs n ∙ ending (append-nil diffs) (omega arith)
  where
    ending :
        {xs : List StateDiffEntry}
        → xs ≡ diffs
        → n + 0 ≡ n
        → Path
            (Result SnapshotError (List StateDiffEntry × ℕ × Bytes))
            (ok (diffs, n, rest))
            (ok (xs, n + 0, rest))
    ending p q = rw (p, q)
entries_loop-put_entries (e ∷ entries) (suc fuel) rest diffs n (he, hs) le =
    ap (λ (s : Bytes). entries_loop (suc fuel) (entry_marker ∷ s) diffs n)
      (append_assoc (put_entry e) (put_entries entries) (end_marker ∷ rest))
    ∙ loop_entry fuel _ (put_entries entries ++ end_marker ∷ rest) diffs n e
        (read_entry-put_entry e (put_entries entries ++ end_marker ∷ rest) he)
    ∙ entries_loop-put_entries entries fuel rest (diffs ++ e ∷ []) (n + 1) hs
        (omega (arith, length-append (put_entry e) (put_entries entries)))
    ∙ rw (append_assoc diffs (e ∷ []) entries, one_more n (length entries))
  where
    one_more : (a k : ℕ) → a + 1 + k ≡ a + suc k
    one_more a k = omega arith

read_header-put_header :
    (height : ℕ) (rest : Bytes)
    → height < 2 ^ 64
    → read_header (put_header height ++ rest) ≡ ok (height, rest)
unfolding read_header bytes_eq
read_header-put_header height rest h = rw (
  read_full-append snapshot_magic _,
  append_assoc (to_bytes 4 snapshot_version) (to_bytes 8 height) rest,
  read_uint-to_bytes 4 snapshot_version _ (omega arith),
  read_uint-to_bytes 8 height rest h,
)

==-refl : (n : ℕ) → (n == n) ≡ true
==-refl n = ground arith

not_reached : (height reached : ℕ) → reached < height → leb height reached ≡ false
not_reached height reached h = ground arith

minus_back : (a k : ℕ) → a + k - k ≡ a
minus_back a k = omega arith

module _ (sha256 : Bytes → Bytes) where
  -- The trailer of the format passes.
  check_trailer-put_trailer :
      (height : ℕ) (entries : List StateDiffEntry) (rest : Bytes)
      → length entries < 2 ^ 64
      → length (sha256 (put_hashed height entries)) ≡ 32
      → check_trailer sha256
          (put_hashed height entries)
          (length entries)
          (put_trailer sha256 height entries ++ rest)
        ≡ ok tt
  unfolding check_trailer bytes_eq
  check_trailer-put_trailer height entries rest small digest =
      let hash : Bytes = sha256 (put_hashed height entries) in
      rw (
        append_assoc (to_bytes 8 (length entries)) (hash ++ snapshot_end) rest,
        read_uint-to_bytes 8 (length entries) _ small,
        ==-refl (length entries),
        append_assoc hash snapshot_end rest,
        read_full_sized 32 hash _ digest,
        read_full-append snapshot_end rest,
        bytes_eq_refl hash,
      )

  -- The digest is taken of all that stands before the trailer.
  hashed_part :
      (stream hashed trailer : Bytes)
      → stream ≡ hashed ++ trailer
      → take (length stream - length trailer) stream ≡ hashed
  hashed_part stream hashed trailer e =
      rw (e, length-append hashed trailer, minus_back (length hashed) (length trailer))
        (take-append_self hashed trailer)

  read_body-put_snapshot :
      (stream : Bytes) (height : ℕ) (entries : List StateDiffEntry) (rest : Bytes)
      → stream ≡ put_hashed height entries ++ (put_trailer sha256 height entries ++ rest)
      → All IsEntry entries
      → length entries < 2 ^ 64
      → length (sha256 (put_hashed height entries)) ≡ 32
      → read_body sha256 stream
          (put_entries entries ++ end_marker ∷ (put_trailer sha256 height entries ++ rest))
        ≡ ok (entries, length entries)
  unfolding read_body
  read_body-put_snapshot stream height entries rest e h small digest =
      let trailer : Bytes = put_trailer sha256 height entries ++ rest in
      rw (
        entries_loop-put_entries entries
            (suc (length (put_entries entries ++ end_marker ∷ trailer))) trailer [] 0 h
            (omega (arith, length-append (put_entries entries) (end_marker ∷ trailer))),
        hashed_part stream (put_hashed height entries) trailer e,
        zero_plus (length entries),
        check_trailer-put_trailer height entries rest small digest,
      )
    where
      zero_plus : (n : ℕ) → 0 + n ≡ n
      zero_plus n = omega arith

  split_header :
      (height : ℕ) (entries : List StateDiffEntry) (tail : Bytes)
      → put_hashed height entries ++ tail
        ≡ put_header height ++ (put_entries entries ++ end_marker ∷ tail)
  split_header height entries tail =
      append_assoc (put_header height) (put_entries entries ++ end_marker ∷ []) tail
      ∙ ap (λ (t : Bytes). put_header height ++ t)
          (append_assoc (put_entries entries) (end_marker ∷ []) tail)

  load_stream :
      (b : Bolt) (s : StateStore b) (stream after_header : Bytes) (height n : ℕ)
      (entries : List StateDiffEntry)
      → read_header stream ≡ ok (height, after_header)
      → s.height < height
      → read_body sha256 stream after_header ≡ ok (entries, n)
      → load_snapshot sha256 b (ok stream) s
        ≡ applied sha256 b height n (apply_diff b s height entries)
  unfolding load_snapshot load_body
  load_stream b s stream after_header height n entries header higher body =
      rw (load_snapshot, header, load_body, not_reached height s.height higher, body)

  -- A file in the documented format, with any bytes behind it, is loaded as one diff of its
  -- entries at its height, if the entries are puts whose lengths fit, their number and the
  -- height are below 2^64, the digest has 32 bytes, and the height is above the store's.
  pub load_snapshot-put_snapshot :
      (b : Bolt) (s : StateStore b) (height : ℕ) (entries : List StateDiffEntry) (rest : Bytes)
      → All IsEntry entries
      → height < 2 ^ 64
      → length entries < 2 ^ 64
      → length (sha256 (put_hashed height entries)) ≡ 32
      → s.height < height
      → load_snapshot sha256 b (ok (put_snapshot sha256 height entries ++ rest)) s
        ≡ applied sha256 b height (length entries) (apply_diff b s height entries)
  load_snapshot-put_snapshot b s height entries rest h small count digest higher =
      let trailer : Bytes = put_trailer sha256 height entries ++ rest in
      let stream : Bytes = put_snapshot sha256 height entries ++ rest in
      let regrouped =
        append_assoc (put_hashed height entries) (put_trailer sha256 height entries) rest in
      load_stream b s stream (put_entries entries ++ end_marker ∷ trailer) height (length entries)
        entries
        (ap read_header (regrouped ∙ split_header height entries trailer)
          ∙ read_header-put_header height (put_entries entries ++ end_marker ∷ trailer) small)
        higher (read_body-put_snapshot stream height entries rest regrouped h count digest)
