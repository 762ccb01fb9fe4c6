-- ===== src/StateSync/Ready.antt =====
-- The loop always gets to a diff.
use ioswarm.Common.{
  ℕ, suc, ◌≡◌, refl, ◌∙◌, ◌⊎◌, inl, inr, Option, none, some, List, [], ◌∷◌, ◌++◌, Bool, true, false,
  All, if_elim,
}
use ioswarm.Errors.{Error}
use ioswarm.Store.{Bolt, StateStore, apply_diff}
use ioswarm.StateSync.Defs.{
  StateDiffResponse, Phase, connecting, sleeping, returned, receiving, StateSync, Event, cancel,
  opened, received, woke, start, from_height, after_stream, mark_ready, on_applied, on_opened,
  on_response, dispatch, open_error, step, run,
}
use ioswarm.StateSync.Cases.{has_returned, step_cases}
use ioswarm.StateSync.Laws.{mark_ready_ready, mark_ready_store}

abbrev pub is_cancel : Event → Bool
is_cancel cancel = true
is_cancel _ = false

-- What brings the loop to a diff, from where it stands.
abbrev pub rejoin : Phase → StateDiffResponse → List Event
rejoin (receiving from n) resp = received resp ∷ []
rejoin connecting resp =
    opened (record { new_stream = none; send_msg = none; close_send = none }) ∷ received resp ∷ []
rejoin sleeping resp =
    woke
    ∷ opened (record { new_stream = none; send_msg = none; close_send = none })
    ∷ received resp
    ∷ []
rejoin returned resp = []

module _ (b : Bolt) where
  record IsRunning (ss : StateSync b) : Type 0 where
    not_cancelled : ss.cancelled ≡ false
    not_returned : has_returned ss.phase ≡ false

  answered :
      (from n : ℕ) (resp : StateDiffResponse) (ss : StateSync b) (store' : StateStore b)
      → apply_diff b ss.store resp.height resp.entries ≡ (none, store')
      → ((on_response b from n resp ss).ready ≡ true)
        × ((on_response b from n resp ss).store ≡ store')
  unfolding on_response on_applied
  answered from n resp ss store' took =
      let ss' = record ss { store = store'; phase = receiving from (suc n) } in
      rw took (mark_ready_ready b ss', mark_ready_store b ss')

  asked :
      (resp : StateDiffResponse) (ss : StateSync b) (store' : StateStore b)
      → ss.cancelled ≡ false
      → apply_diff b ss.store resp.height resp.entries ≡ (none, store')
      → let ss' = run b (record ss { phase = connecting }) (rejoin connecting resp) in
        (ss'.ready ≡ true) × (ss'.store ≡ store')
  unfolding run step dispatch on_opened open_error
  asked resp ss store' going took = rw going (
      answered (from_height b ss.store) 0 resp
        (record ss { cancelled = false; phase = receiving (from_height b ss.store) 0 }) store' took)

  rejoined :
      (p : Phase) (resp : StateDiffResponse) (ss : StateSync b) (store' : StateStore b)
      → ss.cancelled ≡ false
      → has_returned p ≡ false
      → apply_diff b ss.store resp.height resp.entries ≡ (none, store')
      → let ss' = run b (record ss { phase = p }) (rejoin p resp) in
        (ss'.ready ≡ true) × (ss'.store ≡ store')
  unfolding run step dispatch
  rejoined connecting resp ss store' going on took = asked resp ss store' going took
  rejoined sleeping resp ss store' going on took = asked resp ss store' going took
  rejoined returned resp ss store' going on took = cc
  rejoined (receiving from n) resp ss store' going on took =
      answered from n resp (record ss { phase = receiving from n }) store' took

  on_applied-IsRunning :
      (height from n : ℕ) (r : Option Error × StateStore b) (ss : StateSync b)
      → IsRunning ss
      → IsRunning (on_applied b height from n r ss)
  unfolding on_applied after_stream mark_ready
  on_applied-IsRunning height from n (some e, store) ss r = record {
    not_cancelled = r.not_cancelled;
    not_returned = if_elim (λ p. has_returned p ≡ false) ss.cancelled (λ t. cc) (λ t. refl);
  }
  on_applied-IsRunning height from n (none, store) ss r =
      if_elim IsRunning ss.ready
        (λ t. record { not_cancelled = r.not_cancelled; not_returned = refl })
        (λ t. record { not_cancelled = r.not_cancelled; not_returned = refl })

  step-IsRunning :
      (ss : StateSync b) (e : Event) → is_cancel e ≡ false → IsRunning ss → IsRunning (step b ss e)
  unfolding on_response
  step-IsRunning ss e on r =
      step_cases b ss (λ e ss'. is_cancel e ≡ false → IsRunning ss')
        (λ e idle c same on. record {
          not_cancelled = kept e c same on;
          not_returned = r.not_returned;
        })
        (λ e idle p err out stops on. record {
          not_cancelled = r.not_cancelled;
          not_returned = paused p stops;
        })
        (λ e idle on. record { not_cancelled = r.not_cancelled; not_returned = refl })
        (λ from n resp at on.
          on_applied-IsRunning resp.height from n (apply_diff b ss.store resp.height resp.entries)
            ss r)
        e on
    where
      kept :
          (e : Event) (c : Bool)
          → (c ≡ ss.cancelled) ⊎ (e ≡ cancel)
          → is_cancel e ≡ false
          → c ≡ false
      kept e c (inl same) on = same ∙ r.not_cancelled
      kept e c (inr cancels) on = cc

      paused :
          (p : Phase) → (has_returned p ≡ false) ⊎ (ss.cancelled ≡ true) → has_returned p ≡ false
      paused p (inl on) = on
      paused p (inr t) = cc

  run-IsRunning :
      (ss : StateSync b) (es : List Event)
      → All (λ e. is_cancel e ≡ false) es
      → IsRunning ss
      → IsRunning (run b ss es)
  unfolding run
  run-IsRunning ss [] on r = r
  run-IsRunning ss (e ∷ es) (on, later) r =
      run-IsRunning (step b ss e) es later (step-IsRunning ss e on r)

  run-append :
      (es es' : List Event) (ss : StateSync b) → run b ss (es ++ es') ≡ run b (run b ss es) es'
  unfolding run
  run-append [] es' ss = refl
  run-append (e ∷ es) es' ss = run-append es es' (step b ss e)

  -- Behind any events none of which is a cancellation, the loop can get from where it stands to
  -- any diff that ApplyDiff takes: there are events that bring it there, behind which the sync is
  -- ready and the store is the one that ApplyDiff made.
  pub run_can_rejoin :
      (store : StateStore b) (es : List Event) (resp : StateDiffResponse) (store' : StateStore b)
      → All (λ e. is_cancel e ≡ false) es
      → apply_diff b (run b (start b store) es).store resp.height resp.entries ≡ (none, store')
      → (more : List Event) × ((run b (start b store) (es ++ more)).ready ≡ true)
        × ((run b (start b store) (es ++ more)).store ≡ store')
  unfolding start
  run_can_rejoin store es resp store' on took =
      let ss = run b (start b store) es in
      let r =
        run-IsRunning (start b store) es on
          (record { not_cancelled = refl; not_returned = refl }) in
      let more = rejoin ss.phase resp in
      let both = rejoined ss.phase resp ss store' r.not_cancelled r.not_returned took in
      (
        more,
        rw (run-append es more (start b store)) both.0,
        rw (run-append es more (start b store)) both.1,
      )
