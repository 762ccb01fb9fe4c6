-- ===== src/Agent/Active.antt =====
-- Which store a worker publishes.
use mathlib.Core.Path.{subst}
use mathlib.Core.Option
use ioswarm.Common.{
  ℕ, ◌<◌, ◌≡◌, refl, sym, ap, ◌∙◌, Option, none, some, List, Bytes, codes, bytes_eq_iff, Bool, true,
  false, ◌&&◌, not, ◌==◌, if◌then◌else◌, length, All, Result, ok, err, ◌>>=◌, map_err, arith,
  if_elim,
}
use ioswarm.Common.Text.{to_upper}
use ioswarm.Errors.{Error}
use ioswarm.Store.{Bolt, IsBolt, StateStore, open_state_store}
use ioswarm.Store.Laws.{IsSynced}
use ioswarm.Store.Open.{open_state_store-IsSynced}
use ioswarm.Snapshot.{SnapshotError, load_snapshot}
use ioswarm.Snapshot.Header.{IsStream, load_snapshot-IsSynced}
use ioswarm.StateSync.{StateSync, Event, start, run, wait_ready}
use ioswarm.StateSync.Laws.{IsWordEvent, applied, has_some, run-IsSound, run-IsBehind}
use ioswarm.Agent.Tasks.{is_registered}
use ioswarm.Agent.Worker.{
  WorkerConfig, WorkerError, store_failed, connect_failed, registration_failed, Answers,
  is_l4_worker, bootstrapped, bootstrap, waited, sync_store, set_up_l4, published, run_worker,
}

-- What a step that may fail gives is right.
abbrev OnStore : {b : Bolt} → (StateStore b → Type 0) → Result WorkerError (StateStore b) → Type 0
OnStore P (ok s) = P s
OnStore P (err e) = Unit {0}

bind-OnStore :
    {b : Bolt} (P Q : StateStore b → Type 0) (r : Result WorkerError (StateStore b))
    (f : StateStore b → Result WorkerError (StateStore b))
    → OnStore P r
    → ((s : StateStore b) → P s → OnStore Q (f s))
    → OnStore Q (r >>= f)
bind-OnStore P Q (ok s) f p k = k s p
bind-OnStore P Q (err e) f p k = tt

abbrev pub IsL4 : WorkerConfig → Type 0
IsL4 cfg = (to_upper cfg.level ≡ codes "L4") × (0 < length cfg.data_dir) × (cfg.worker_idx ≡ 0)

IsL4-worker-IsL4 : (cfg : WorkerConfig) → is_l4_worker cfg ≡ true → IsL4 cfg
unfolding is_l4_worker
IsL4-worker-IsL4 cfg h = ground (arith, bytes_eq_iff (to_upper cfg.level) (codes "L4"))

module _ (b : Bolt) (laws : IsBolt b) where
  -- A store that the sync has reached from one in step with its database, by one diff at least.
  pub record IsReady (events : List Event) (s : StateStore b) : Type 0 where
    pub first : StateStore b
    pub first_synced : IsSynced b laws first
    pub reached : s ≡ (run b (start b first) events).store
    pub diffs : has_some (applied b (start b first) events) ≡ true
    pub synced : IsSynced b laws s

  opened-OnStore :
      (database : Result Error b.Db)
      → OnStore (IsSynced b laws) (map_err store_failed (open_state_store b database))
  unfolding open_state_store
  opened-OnStore (err e) = tt
  opened-OnStore (ok d) = made (open_state_store b (ok d)) refl
    where
      made :
          (r : Result Error (StateStore b))
          → open_state_store b (ok d) ≡ r
          → OnStore (IsSynced b laws) (map_err store_failed r)
      made (ok s) same = (open_state_store-IsSynced b laws d s same).0
      made (err e) same = tt

  sync_store-OnStore :
      (a : Answers b) (s : StateStore b)
      → All IsWordEvent a.sync_events
      → IsSynced b laws s
      → OnStore (IsReady a.sync_events) (sync_store b a s)
  unfolding sync_store waited wait_ready start
  sync_store-OnStore a s are synced = settled ss.ready a.context_ended a.pick refl
    where
      ss : StateSync b
      ss = run b (start b s) a.sync_events

      is_ready : ss.ready ≡ true → IsReady a.sync_events ss.store
      is_ready t = record {
        first = s;
        first_synced = synced;
        reached = refl;
        diffs = sym (run-IsBehind b laws (start b s) a.sync_events).ready ∙ t;
        synced =
            (run-IsSound b laws (start b s) a.sync_events are
              (record { synced = synced; closed_once = refl })).synced;
      }

      settled :
          (ready ended pick : Bool)
          → ss.ready ≡ ready
          → OnStore (IsReady a.sync_events) (waited b (wait_ready ready ended pick) ss)
      settled true true true t = is_ready t
      settled true true false t = tt
      settled true false pick t = is_ready t
      settled false true pick t = tt
      settled false false pick t = tt

module _ (sha256 : Bytes → Bytes) (b : Bolt) (laws : IsBolt b) where
  bootstrap-OnStore :
      (snapshot : Bytes) (stream : Result SnapshotError Bytes) (s : StateStore b)
      → IsStream stream
      → IsSynced b laws s
      → OnStore (IsSynced b laws) (bootstrap sha256 b snapshot stream s)
  unfolding bootstrap bootstrapped
  bootstrap-OnStore snapshot stream s are synced =
      if_elim (OnStore (IsSynced b laws)) (not (length snapshot == 0) && s.height == 0)
        (λ t.
          kept (load_snapshot sha256 b stream s)
            (load_snapshot-IsSynced sha256 b laws stream s are synced))
        (λ t. synced)
    where
      kept :
          (r : Result SnapshotError (ℕ × ℕ) × StateStore b)
          → IsSynced b laws r.1
          → OnStore (IsSynced b laws) (bootstrapped sha256 b r)
      kept (ok n, s') k = k
      kept (err e, s') k = tt

  set_up_l4-OnStore :
      (cfg : WorkerConfig) (a : Answers b)
      → IsStream a.snapshot_stream
      → All IsWordEvent a.sync_events
      → OnStore (IsReady b laws a.sync_events) (set_up_l4 sha256 b cfg a)
  unfolding set_up_l4
  set_up_l4-OnStore cfg a stream_are are =
      bind-OnStore (IsSynced b laws) (IsReady b laws a.sync_events) _ _
        (opened-OnStore b laws a.database)
        (λ s synced.
          bind-OnStore (IsSynced b laws) (IsReady b laws a.sync_events) _ (sync_store b a)
            (bootstrap-OnStore cfg.snapshot a.snapshot_stream s stream_are synced)
            (λ s' synced'. sync_store-OnStore b laws a s' are synced'))

  nothing_stored : (s : StateStore b) → Path (Option (StateStore b)) none (some s) → ⊥
  nothing_stored s same = cc

  run_worker_publishes :
      (cfg : WorkerConfig) (r : Result WorkerError (StateStore b)) (e : Option WorkerError)
      (s : StateStore b) (Q : StateStore b → Type 0)
      → OnStore Q r
      → published sha256 b none r ≡ (e, some s)
      → (e ≡ none) × Q s
  unfolding published
  run_worker_publishes cfg (ok s') e s Q q done =
      (sym (ap (λ p. p.0) done), subst Q (Option.some_inj.0 (ap (λ p. p.1) done)) q)
  run_worker_publishes cfg (err e') e s Q q done = absurd (nothing_stored s (ap (λ p. p.1) done))

  -- Over a database that keeps BoltDB's laws, where the snapshot is a stream of bytes, the heights
  -- of the diffs are below 2^64 and no store is active: if behind the set-up of a worker a store is
  -- active, then the level reads L4 in capitals, there is a data directory, the worker is the first,
  -- the set-up has met no error, and the store is in step with its database and is what the sync
  -- loop has made, by one diff at least, of a store that was in step with its own.
  pub run_worker_active :
      (cfg : WorkerConfig) (a : Answers b) (e : Option WorkerError) (s : StateStore b)
      → IsStream a.snapshot_stream
      → All IsWordEvent a.sync_events
      → run_worker sha256 b cfg a none ≡ (e, some s)
      → IsL4 cfg × (e ≡ none) × IsReady b laws a.sync_events s
  unfolding run_worker
  run_worker_active cfg a e s stream_are are done =
      go a.dialled (is_registered a.registered) (is_l4_worker cfg) refl done
    where
      go :
          (dialled accepted l4 : Bool)
          → is_l4_worker cfg ≡ l4
          → Path
              (Option WorkerError × Option (StateStore b))
              (if not dialled
                then (some connect_failed, none)
                else if not accepted
                then (some registration_failed, none)
                else if l4
                then published sha256 b none (set_up_l4 sha256 b cfg a)
                else (none, none))
              (e, some s)
          → IsL4 cfg × (e ≡ none) × IsReady b laws a.sync_events s
      go false accepted l4 t done = absurd (nothing_stored s (ap (λ p. p.1) done))
      go true false l4 t done = absurd (nothing_stored s (ap (λ p. p.1) done))
      go true true false t done = absurd (nothing_stored s (ap (λ p. p.1) done))
      go true true true t done =
          let both =
            run_worker_publishes cfg (set_up_l4 sha256 b cfg a) e s (IsReady b laws a.sync_events)
              (set_up_l4-OnStore cfg a stream_are are) done in
          (IsL4-worker-IsL4 cfg t, both.0, both.1)
