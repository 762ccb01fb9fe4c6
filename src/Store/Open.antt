-- ===== src/Store/Open.antt =====
-- Opening a store, also again after the agent has stopped.
use ioswarm.Common.{◌≡◌, refl, ◌∙◌, inl, inr, List, [], ◌∷◌, Bytes, true, All, Result, ok, err}
use mathlib.Core.Path.{subst}
use ioswarm.Errors.{Error, init_buckets}
use ioswarm.Store.Driver.{Bolt, IsBolt}
use ioswarm.Store.Defs.{
  StateStore, ns_account, ns_code, ns_meta, meta_height, load_height, create_buckets,
  open_state_store,
}
use ioswarm.Mpt.{ns_contract}
use ioswarm.Store.Steps.{OnOk, OnOk-intro, OnOk-bind, OnOk_elim}
use ioswarm.Store.Laws.{IsSynced, Changed}

module _ (b : Bolt) (laws : IsBolt b) where
  -- What the first transaction does: no content changes, and the named buckets are there.
  abbrev Opened : List Bytes → b.Db → b.Db → Type 0
  Opened names d d' = Changed b laws (λ _ _ v. v) d d' × All (λ ns. b.has_bucket d' ns ≡ true) names

  create_buckets-Opened :
      (names : List Bytes) (d : b.Db) → OnOk (Opened names d) (create_buckets b names d)
  unfolding create_buckets
  create_buckets-Opened [] d = (((λ ns key. refl), (λ ns h. h)), tt)
  create_buckets-Opened (n ∷ names) d =
      OnOk-bind (λ d1. (b.create_bucket_if_not_exists d n ≡ ok d1)) (Opened (n ∷ names) d)
        (b.create_bucket_if_not_exists d n) (create_buckets b names)
        (OnOk-intro _ _ (λ d1 made. made))
        (λ d1 made.
          let ih = create_buckets-Opened names d1 in
          OnOk-intro (Opened (n ∷ names) d) (create_buckets b names d1) (λ d' done.
            let rest = OnOk_elim (Opened names d1) (create_buckets b names d1) d' ih done in
            (
              (
                (λ ns key. rest.0.0 ns key ∙ laws.create_get d d1 n ns key made),
                (λ ns h. rest.0.1 ns (laws.create_keeps_bucket d d1 n ns made h)),
              ),
              (rest.0.1 n (laws.create_has d d1 n made), rest.1),
            )))

  abbrev four : List Bytes
  four = ns_account ∷ ns_code ∷ ns_contract ∷ ns_meta ∷ []

  same_store : (x y : StateStore b) → Path (Result Error (StateStore b)) (ok x) (ok y) → x ≡ y
  same_store x y p = cc

  not_made :
      (x : Error) (y : StateStore b)
      → Path (Result Error (StateStore b)) (err (init_buckets x)) (ok y)
      → ⊥
  not_made x y p = cc

  same_height :
      (d' d : b.Db)
      → b.bucket_get d' ns_meta meta_height ≡ b.bucket_get d ns_meta meta_height
      → load_height b d' ≡ load_height b d
  unfolding load_height
  same_height d' d e = rw (load_height, e)

  -- Over a database that keeps BoltDB's laws, a store that opens has the height that the
  -- database holds, in memory and stored, its meta bucket is there, and the content of every key
  -- is the database's.
  pub open_state_store-IsSynced :
      (d : b.Db) (s : StateStore b)
      → open_state_store b (ok d) ≡ ok s
      → IsSynced b laws s
        × (s.height ≡ load_height b d)
        × ((ns key : Bytes) → b.bucket_get s.db ns key ≡ b.bucket_get d ns key)
  unfolding open_state_store
  open_state_store-IsSynced d s e = elim (laws.update_law d (create_buckets b four)) [
    | inl (d', done, updated) ↦
        let opened = OnOk_elim (Opened four d) _ d' (create_buckets-Opened four d) done in
        let made : Path (Result Error (StateStore b))
            (ok (record { db = d'; height = load_height b d' })) (ok s) =
          rw updated at e in
        subst
          (λ (x : StateStore b).
            IsSynced b laws x
            × (x.height ≡ load_height b d)
            × ((ns key : Bytes) → b.bucket_get x.db ns key ≡ b.bucket_get d ns key))
          (same_store _ _ made)
          (
            record { height_stored = refl; meta_there = opened.1.1.1.1.0 },
            same_height d' d (opened.0.0 ns_meta meta_height),
            opened.0.0,
          )
    | inr (x, failed) ↦ absurd (not_made x s (rw failed at e))
  ]

  -- Over a database that keeps BoltDB's laws, a store whose height in memory is the stored one
  -- and which is opened again has the same height and the same content of every key.
  pub reopen_keeps :
      (s s' : StateStore b)
      → IsSynced b laws s
      → open_state_store b (ok s.db) ≡ ok s'
      → (s'.height ≡ s.height)
        × ((ns key : Bytes) → b.bucket_get s'.db ns key ≡ b.bucket_get s.db ns key)
  reopen_keeps s s' synced e =
      let (again, same, content) = open_state_store-IsSynced s.db s' e in
      (same ∙ synced.height_stored, content)
