-- ===== src/StateSync/Laws.antt =====
-- What the sync loop makes of the store, of its readiness and of its channel.
use mathlib.Core.Path.{subst⁻¹}
use ioswarm.Common.{
  ℕ, suc, ◌^◌, ◌<◌, ◌≡◌, refl, sym, ap, ◌∙◌, inl, inr, Option, none, some, List, [], ◌∷◌, ◌++◌,
  Bytes, Bool, true, false, ◌||◌, if◌then◌else◌, arith, All, Bool-cases, if_elim,
}
use ioswarm.Errors.{Error}
use ioswarm.Store.{Bolt, IsBolt, StateStore, apply_diff}
use ioswarm.Store.Laws.{IsSynced, after_diff, apply_diff_atomic, apply_diff-IsSynced}
use ioswarm.StateSync.Defs.{
  StateDiffResponse, Phase, connecting, sleeping, returned, receiving, StateSync, Event, cancel,
  opened, received, broken, woke, after_stream, mark_ready, on_applied, on_response, step, run,
}
use ioswarm.StateSync.Cases.{answers, step_cases}

-- Every height that the coordinator sends is a uint64.
abbrev pub IsWordEvent : Event → Type 0
IsWordEvent (received resp) = resp.height < 2 ^ 64
IsWordEvent _ = Unit {0}

abbrev pub accepted : Option Error → StateDiffResponse → List StateDiffResponse
accepted none resp = resp ∷ []
accepted (some e) resp = []

abbrev pub last_height : ℕ → List StateDiffResponse → ℕ
last_height height [] = height
last_height height (d ∷ ds) = last_height d.height ds

abbrev pub has_some : List StateDiffResponse → Bool
has_some [] = false
has_some (d ∷ ds) = true

-- What the diffs make of one key, one after another.
abbrev pub after_diffs : List StateDiffResponse → Bytes → Bytes → Option Bytes → Option Bytes
after_diffs [] ns key v = v
after_diffs (d ∷ ds) ns key v = after_diffs ds ns key (after_diff d.height d.entries ns key v)

module _ (b : Bolt) where
  abbrev pub taken : Phase → Event → StateStore b → List StateDiffResponse
  taken (receiving from n) (received resp) store =
      accepted (apply_diff b store resp.height resp.entries).0 resp
  taken _ _ store = []

  pub taken_none :
      (p : Phase) (e : Event) (store : StateStore b) → answers p e ≡ false → taken p e store ≡ []
  taken_none connecting e store idle = refl
  taken_none sleeping e store idle = refl
  taken_none returned e store idle = refl
  taken_none (receiving from n) cancel store idle = refl
  taken_none (receiving from n) (opened o) store idle = refl
  taken_none (receiving from n) (received resp) store idle = cc
  taken_none (receiving from n) (broken err) store idle = refl
  taken_none (receiving from n) woke store idle = refl

  -- The diffs that ApplyDiff took, in their order.
  abbrev pub applied : StateSync b → List Event → List StateDiffResponse
  applied ss [] = []
  applied ss (e ∷ es) = taken ss.phase e ss.store ++ applied (step b ss e) es

  -- One state behind another and some diffs.
  pub record IsBehind (ss : StateSync b) (ds : List StateDiffResponse) (ss' : StateSync b)
      : Type 0 where
    pub content :
        (ns key : Bytes)
        → b.bucket_get ss'.store.db ns key ≡ after_diffs ds ns key (b.bucket_get ss.store.db ns key)
    pub height : ss'.store.height ≡ last_height ss.store.height ds
    pub ready : ss'.ready ≡ (ss.ready || has_some ds)

last_height-append :
    (ds ds' : List StateDiffResponse) (height : ℕ)
    → last_height height (ds ++ ds') ≡ last_height (last_height height ds) ds'
last_height-append [] ds' height = refl
last_height-append (d ∷ ds) ds' height = last_height-append ds ds' d.height

has_some-append :
    (r : Bool) (ds ds' : List StateDiffResponse)
    → (r || has_some (ds ++ ds')) ≡ ((r || has_some ds) || has_some ds')
has_some-append true ds ds' = refl
has_some-append false [] ds' = refl
has_some-append false (d ∷ ds) ds' = refl

module _ (b : Bolt) where
  after_diffs-append :
      (ds ds' : List StateDiffResponse) (ns key : Bytes) (v : Option Bytes)
      → after_diffs (ds ++ ds') ns key v ≡ after_diffs ds' ns key (after_diffs ds ns key v)
  after_diffs-append [] ds' ns key v = refl
  after_diffs-append (d ∷ ds) ds' ns key v =
      after_diffs-append ds ds' ns key (after_diff d.height d.entries ns key v)

  same-IsBehind :
      (ss ss' : StateSync b) → ss'.store ≡ ss.store → ss'.ready ≡ ss.ready → IsBehind b ss [] ss'
  same-IsBehind ss ss' s r = record {
    content = λ ns key. ap (λ (st : StateStore b). b.bucket_get st.db ns key) s;
    height = ap (λ (st : StateStore b). st.height) s;
    ready = ground (arith, r, Bool-cases ss.ready);
  }

  append-IsBehind :
      (ss ss' ss'' : StateSync b) (ds ds' : List StateDiffResponse)
      → IsBehind b ss ds ss'
      → IsBehind b ss' ds' ss''
      → IsBehind b ss (ds ++ ds') ss''
  append-IsBehind ss ss' ss'' ds ds' p q = record {
    content = λ ns key. rw (
      q.content ns key,
      p.content ns key,
      after_diffs-append ds ds' ns key (b.bucket_get ss.store.db ns key),
    );
    height = rw (q.height, p.height, last_height-append ds ds' ss.store.height);
    ready = rw (q.ready, p.ready, has_some-append ss.ready ds ds');
  }

  pub mark_ready_ready : (ss : StateSync b) → (mark_ready b ss).ready ≡ true
  unfolding mark_ready
  mark_ready_ready ss = if_elim (λ (s : StateSync b). s.ready ≡ true) ss.ready (λ r. r) (λ r. refl)

  pub mark_ready_store : (ss : StateSync b) → (mark_ready b ss).store ≡ ss.store
  unfolding mark_ready
  mark_ready_store ss =
      if_elim (λ (s : StateSync b). s.store ≡ ss.store) ss.ready (λ r. refl) (λ r. refl)

module _ (b : Bolt) (laws : IsBolt b) where
  on_response-IsBehind :
      (from n : ℕ) (resp : StateDiffResponse) (ss : StateSync b)
      → IsBehind b ss
          (accepted (apply_diff b ss.store resp.height resp.entries).0 resp)
          (on_response b from n resp ss)
  unfolding on_response on_applied after_stream
  on_response-IsBehind from n resp ss =
      elim (apply_diff_atomic b laws ss.store resp.height resp.entries) [
        | inl (e, failed) ↦
            subst⁻¹ (λ r. IsBehind b ss (accepted r.0 resp) (on_applied b resp.height from n r ss))
              failed (same-IsBehind b ss _ refl refl)
        | inr (d', done, changed) ↦
            subst⁻¹ (λ r. IsBehind b ss (accepted r.0 resp) (on_applied b resp.height from n r ss))
              done (took (record { db = d'; height = resp.height }) changed.0 refl)
      ]
    where
      took :
          (store : StateStore b)
          → ((ns key : Bytes)
              → b.bucket_get store.db ns key
                ≡ after_diff resp.height resp.entries ns key (b.bucket_get ss.store.db ns key))
          → store.height ≡ resp.height
          → IsBehind b ss (resp ∷ []) (on_applied b resp.height from n (none, store) ss)
      took store c h = record {
        content = λ ns key.
            rw (mark_ready_store b (record ss { store = store; phase = receiving from (suc n) }))
              (c ns key);
        height =
            rw (mark_ready_store b (record ss { store = store; phase = receiving from (suc n) })) h;
        ready =
            rw (mark_ready_ready b (record ss { store = store; phase = receiving from (suc n) }))
              (sym (or_true ss.ready));
      }
        where
          or_true : (r : Bool) → (r || true) ≡ true
          or_true true = refl
          or_true false = refl

  step-IsBehind :
      (ss : StateSync b) (e : Event) → IsBehind b ss (taken b ss.phase e ss.store) (step b ss e)
  step-IsBehind ss =
      step_cases b ss (λ e ss'. IsBehind b ss (taken b ss.phase e ss.store) ss')
        (λ e idle c same. quiet e _ idle refl refl)
        (λ e idle p err out stops. quiet e _ idle refl refl) (λ e idle. quiet e _ idle refl refl)
        (λ from n resp at.
          subst⁻¹
            (λ p. IsBehind b ss (taken b p (received resp) ss.store) (on_response b from n resp ss))
            at (on_response-IsBehind from n resp ss))
    where
      quiet :
          (e : Event) (ss' : StateSync b)
          → answers ss.phase e ≡ false
          → ss'.store ≡ ss.store
          → ss'.ready ≡ ss.ready
          → IsBehind b ss (taken b ss.phase e ss.store) ss'
      quiet e ss' idle s r = rw (taken_none b ss.phase e ss.store idle) (same-IsBehind b ss ss' s r)

  -- Over a database that keeps BoltDB's laws, behind any events every key of every bucket holds
  -- what the diffs that ApplyDiff took, one after another in the order of their arrival, make of
  -- what it held before, the height is that of the last of them, and the sync is ready exactly if
  -- it was or if there is one.
  pub run-IsBehind :
      (ss : StateSync b) (es : List Event) → IsBehind b ss (applied b ss es) (run b ss es)
  unfolding run
  run-IsBehind ss [] = same-IsBehind b ss ss refl refl
  run-IsBehind ss (e ∷ es) =
      append-IsBehind b ss (step b ss e) (run b (step b ss e) es) (taken b ss.phase e ss.store)
        (applied b (step b ss e) es) (step-IsBehind ss e) (run-IsBehind (step b ss e) es)

  -- The store is in step with its database, and the channel was closed once if the sync is ready,
  -- and else not at all.
  pub record IsSound (ss : StateSync b) : Type 0 where
    pub synced : IsSynced b laws ss.store
    pub closed_once : ss.ready_closes ≡ (if ss.ready then 1 else 0)

  mark_ready-IsSound : (ss : StateSync b) → IsSound ss → IsSound (mark_ready b ss)
  unfolding mark_ready
  mark_ready-IsSound ss s =
      if_elim IsSound ss.ready (λ r. s)
        (λ r. record { synced = s.synced; closed_once = ap suc (s.closed_once ∙ rw r) })

  on_applied-IsSound :
      (height from n : ℕ) (r : Option Error × StateStore b) (ss : StateSync b)
      → IsSynced b laws r.1
      → IsSound ss
      → IsSound (on_applied b height from n r ss)
  unfolding on_applied after_stream
  on_applied-IsSound height from n (some e, store) ss k s = record {
    synced = k;
    closed_once = s.closed_once;
  }
  on_applied-IsSound height from n (none, store) ss k s =
      mark_ready-IsSound _ (record { synced = k; closed_once = s.closed_once })

  step-IsSound : (ss : StateSync b) (e : Event) → IsWordEvent e → IsSound ss → IsSound (step b ss e)
  unfolding on_response
  step-IsSound ss e w s =
      step_cases b ss (λ e ss'. IsWordEvent e → IsSound ss')
        (λ e idle c same w. record { synced = s.synced; closed_once = s.closed_once })
        (λ e idle p err out stops w. record { synced = s.synced; closed_once = s.closed_once })
        (λ e idle w. record { synced = s.synced; closed_once = s.closed_once })
        (λ from n resp at w.
          on_applied-IsSound resp.height from n _ ss
            (apply_diff-IsSynced b laws ss.store resp.height resp.entries w s.synced) s)
        e w

  -- Over a database that keeps BoltDB's laws, if the heights of the diffs are below 2^64, then
  -- behind any events a sync whose store is in step with its database, and whose channel was
  -- closed once if it is ready and else not at all, is such a sync still.
  pub run-IsSound :
      (ss : StateSync b) (es : List Event) → All IsWordEvent es → IsSound ss → IsSound (run b ss es)
  unfolding run
  run-IsSound ss [] w s = s
  run-IsSound ss (e ∷ es) (w, ws) s = run-IsSound (step b ss e) es ws (step-IsSound ss e w s)
