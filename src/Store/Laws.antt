-- ===== src/Store/Laws.antt =====
-- What a diff does to the store, over what BoltDB documents.
use ioswarm.Common.{
  ℕ, ◌^◌, ◌<◌, ◌≡◌, refl, ap, ◌∙◌, ◌⊎◌, inl, inr, Option, none, some, List, [], ◌∷◌, Bytes, Bool,
  true, false, bytes_eq, ◌==◌, if◌then◌else◌, ◌>>=◌,
}
use ioswarm.Common.BigEndian.{to_bytes, length-to_bytes, of_bytes-to_bytes}
use ioswarm.Errors.{Error}
use ioswarm.Store.Steps.{OnOk, OnOk-intro, OnOk-wrap, OnOk-bind, OnOk-if, OnOk_elim}
use ioswarm.Store.Driver.{Bolt, IsBolt, same_key}
use ioswarm.Store.Defs.{
  StateDiffEntry, StateStore, ns_meta, meta_height, write_type_put, write_type_delete, load_height,
  ensure_bucket, apply_entry, apply_entries, write_height, store_height, apply_diff,
}

-- The content of one key after some entries, with no database: the last entry for the key counts,
-- where it is a put or a delete.
abbrev pub last_write : Bytes → Bytes → Option Bytes → List StateDiffEntry → Option Bytes
last_write ns key v [] = v
last_write ns key v (e ∷ entries) =
    last_write ns key
      (if same_key e.namespace e.key ns key
        then (if e.write_type == write_type_put
            then some e.value
            else if e.write_type == write_type_delete
            then none
            else v)
        else v)
      entries

-- One entry's effect on one key.
abbrev write_of : StateDiffEntry → Bytes → Bytes → Option Bytes → Option Bytes
write_of e ns key v =
    if same_key e.namespace e.key ns key
    then (if e.write_type == write_type_put
        then some e.value
        else if e.write_type == write_type_delete
        then none
        else v)
    else v

-- What a key holds behind a diff: the height is written last, over any entry for its key.
abbrev pub after_diff : ℕ → List StateDiffEntry → Bytes → Bytes → Option Bytes → Option Bytes
after_diff height entries ns key v =
    if same_key ns_meta meta_height ns key
    then some (to_bytes 8 height)
    else last_write ns key v entries

module _ (b : Bolt) (laws : IsBolt b) where
  -- A database whose reads are those of another, changed by `change`; no bucket is lost.
  abbrev pub Changed : (Bytes → Bytes → Option Bytes → Option Bytes) → b.Db → b.Db → Type 0
  Changed change d d' =
      ((ns key : Bytes) → b.bucket_get d' ns key ≡ change ns key (b.bucket_get d ns key))
      × ((ns : Bytes) → b.has_bucket d ns ≡ true → b.has_bucket d' ns ≡ true)

  ensure_bucket-Changed :
      (d : b.Db) (ns : Bytes) → OnOk (Changed (λ _ _ v. v) d) (ensure_bucket b d ns)
  unfolding ensure_bucket
  ensure_bucket-Changed d ns =
      OnOk-if (Changed (λ _ _ v. v) d) (b.has_bucket d ns) _ _
        (λ there. ((λ ns' key. refl), (λ ns' h. h)))
        (λ absent. OnOk-wrap (Changed (λ _ _ v. v) d) _ _ (
          OnOk-intro (Changed (λ _ _ v. v) d) _ (λ d' made. (
            (λ ns' key. laws.create_get d d' ns ns' key made),
            (λ ns' h. laws.create_keeps_bucket d d' ns ns' made h),
          ))))

  apply_entry-Changed :
      (d : b.Db) (e : StateDiffEntry) → OnOk (Changed (write_of e) d) (apply_entry b d e)
  unfolding apply_entry
  apply_entry-Changed d e =
      OnOk-bind (Changed (λ _ _ v. v) d) (Changed (write_of e) d) (ensure_bucket b d e.namespace) _
        (ensure_bucket-Changed d e.namespace)
        (λ d1 same.
          OnOk-if (Changed (write_of e) d) (e.write_type == write_type_put) _ _
            (λ is_put. OnOk-intro (Changed (write_of e) d) _ (λ d' done. (
              (λ ns key. rw (
                is_put,
                laws.put_get d1 d' e.namespace e.key e.value ns key done,
                same.0 ns key,
              )),
              (λ ns h. laws.put_has d1 d' e.namespace e.key e.value ns done ∙ same.1 ns h),
            )))
            (λ not_put.
              OnOk-if (Changed (write_of e) d) (e.write_type == write_type_delete) _ _
                (λ is_delete. OnOk-intro (Changed (write_of e) d) _ (λ d' done. (
                  (λ ns key. rw (
                    not_put,
                    is_delete,
                    laws.delete_get d1 d' e.namespace e.key ns key done,
                    same.0 ns key,
                  )),
                  (λ ns h. laws.delete_has d1 d' e.namespace e.key ns done ∙ same.1 ns h),
                )))
                (λ unknown_type. (
                  (λ ns key.
                      rw (not_put, unknown_type, same.0 ns key)
                        (unchanged (same_key e.namespace e.key ns key) (b.bucket_get d ns key))),
                  same.1,
                ))))
    where
      unchanged : (c : Bool) (v : Option Bytes) → v ≡ (if c then v else v)
      unchanged true v = refl
      unchanged false v = refl

  apply_entries-Changed :
      (entries : List StateDiffEntry) (d : b.Db)
      → OnOk (Changed (λ ns key v. last_write ns key v entries) d) (apply_entries b entries d)
  unfolding apply_entries
  apply_entries-Changed [] d = ((λ ns key. refl), (λ ns h. h))
  apply_entries-Changed (e ∷ entries) d =
      OnOk-bind (Changed (write_of e) d) (Changed (λ ns key v. last_write ns key v (e ∷ entries)) d)
        (apply_entry b d e) (apply_entries b entries) (apply_entry-Changed d e)
        (λ d1 one.
          let P = Changed (λ ns key v. last_write ns key v (e ∷ entries)) d in
          let ih = apply_entries-Changed entries d1 in
          OnOk-intro P (apply_entries b entries d1) (λ d' done.
            let rest =
              OnOk_elim (Changed (λ ns key v. last_write ns key v entries) d1)
                (apply_entries b entries d1) d' ih done in
            (
              (λ ns key.
                  rest.0 ns key
                  ∙ ap (λ (v : Option Bytes). last_write ns key v entries) (one.0 ns key)),
              (λ ns h. rest.1 ns (one.1 ns h)),
            )))

  write_height-Changed :
      (height : ℕ) (entries : List StateDiffEntry) (d : b.Db)
      → OnOk
          (Changed (after_diff height entries) d)
          (apply_entries b entries d >>= write_height b height)
  unfolding write_height
  write_height-Changed height entries d =
      let P = Changed (after_diff height entries) d in
      OnOk-bind (Changed (λ ns key v. last_write ns key v entries) d) P (apply_entries b entries d)
        (write_height b height) (apply_entries-Changed entries d)
        (λ d1 written.
          OnOk-if P (b.has_bucket d1 ns_meta) _ _
            (λ there. OnOk-intro P _ (λ d' done. (
              (λ ns key. rw (
                laws.put_get d1 d' ns_meta meta_height (to_bytes 8 height) ns key done,
                written.0 ns key,
              )),
              (λ ns h.
                  laws.put_has d1 d' ns_meta meta_height (to_bytes 8 height) ns done
                  ∙ written.1 ns h),
            )))
            (λ absent. tt))

  -- Over a database that keeps BoltDB's laws, ApplyDiff either reports an error and leaves the
  -- store as it was, or it reports none, the height is the diff's, no bucket is lost, and every
  -- key of every bucket holds what the diff's last put or delete for it says, or what it held
  -- before; the height's own key holds the new height.
  pub apply_diff_atomic :
      (s : StateStore b) (height : ℕ) (entries : List StateDiffEntry)
      → ((e : Error) × (apply_diff b s height entries ≡ (some e, s)))
        ⊎ ((d' : b.Db) × (apply_diff b s height entries
              ≡ (none, record { db = d'; height = height }))
            × Changed (after_diff height entries) s.db d')
  unfolding apply_diff
  apply_diff_atomic s height entries =
      elim (laws.update_law s.db (λ d. apply_entries b entries d >>= write_height b height)) [
        | inl (d', done, updated) ↦ inr (
          d',
          ap (store_height b s height) updated,
          OnOk_elim (Changed (after_diff height entries) s.db) _ d'
              (write_height-Changed height entries s.db) done,
        )
        | inr (e, updated) ↦ inl (e, ap (store_height b s height) updated)
      ]

  -- The height in memory is the one that the database holds, and its bucket is there.
  pub record IsSynced (s : StateStore b) : Type 0 where
    pub height_stored : load_height b s.db ≡ s.height
    pub meta_there : b.has_bucket s.db ns_meta ≡ true

  stored_height :
      (d : b.Db) (height : ℕ)
      → height < 2 ^ 64
      → b.bucket_get d ns_meta meta_height ≡ some (to_bytes 8 height)
      → load_height b d ≡ height
  unfolding load_height
  stored_height d height small e =
      rw (load_height, e, length-to_bytes 8 height) (of_bytes-to_bytes 8 height small)

  height_key : same_key ns_meta meta_height ns_meta meta_height ≡ true
  unfolding bytes_eq
  height_key = refl

  pub Changed-IsSynced :
      (s : StateStore b) (height : ℕ) (entries : List StateDiffEntry) (d' : b.Db)
      → height < 2 ^ 64
      → IsSynced s
      → Changed (after_diff height entries) s.db d'
      → IsSynced (record { db = d'; height = height })
  Changed-IsSynced s height entries d' small synced changed = record {
    height_stored = stored_height d' height small (changed.0 ns_meta meta_height ∙ rw height_key);
    meta_there = changed.1 ns_meta synced.meta_there;
  }

  -- Over a database that keeps BoltDB's laws, a store whose height in memory is the stored one
  -- is still such a store behind a diff, applied or refused, whose height is below 2^64.
  pub apply_diff-IsSynced :
      (s : StateStore b) (height : ℕ) (entries : List StateDiffEntry)
      → height < 2 ^ 64
      → IsSynced s
      → IsSynced (apply_diff b s height entries).1
  apply_diff-IsSynced s height entries small synced = elim (apply_diff_atomic s height entries) [
    | inl (e, failed) ↦ rw failed synced
    | inr (d', done, changed) ↦ rw done (Changed-IsSynced s height entries d' small synced changed)
  ]
