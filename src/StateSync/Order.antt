-- ===== src/StateSync/Order.antt =====
-- The heights of the diffs, over the streams that the loop asks for one after another.
use mathlib.Core.Path.{subst, subst⁻¹}
use ioswarm.Common.{
  count_up, ℕ, suc, ◌+◌, ◌^◌, ◌≤◌, ◌<◌, ◌≡◌, refl, ◌∙◌, ◌⊎◌, inl, inr, none, List, [], ◌∷◌, map,
  length, Bool, true, false, arith, if_elim,
}
use ioswarm.Store.{Bolt, IsBolt, StateStore, apply_diff}
use ioswarm.Store.Laws.{apply_diff_atomic}
use ioswarm.StateSync.Defs.{
  StateDiffResponse, Phase, connecting, sleeping, returned, receiving, StateSync, Event, received,
  start, from_height, after_stream, mark_ready, on_applied, on_response, step,
}
use ioswarm.StateSync.Cases.{answers, in_stream, step_cases}
use ioswarm.StateSync.Laws.{accepted, taken, taken_none, applied}

-- A stream that was asked for from one height brings that one and the next ones.
abbrev pub IsNext : Phase → Event → Type 0
IsNext (receiving from n) (received resp) = resp.height ≡ from + n
IsNext _ _ = Unit {0}

abbrev pub height_of : StateDiffResponse → ℕ
height_of resp = resp.height

abbrev OnCourse : Phase → ℕ → Type 0
OnCourse (receiving from n) h = from + n ≡ suc h
OnCourse _ h = Unit {0}

module _ (b : Bolt) where
  abbrev pub AreNext : StateSync b → List Event → Type 0
  AreNext ss [] = Unit {0}
  AreNext ss (e ∷ es) = IsNext ss.phase e × AreNext (step b ss e) es

  record IsAdvance (ss : StateSync b) (ds : List StateDiffResponse) (ss' : StateSync b)
      : Type 0 where
    course : OnCourse ss'.phase ss'.store.height
    none_or_next :
        ((ds ≡ []) × (ss'.store.height ≡ ss.store.height))
        ⊎ ((resp : StateDiffResponse) × (ds ≡ resp ∷ [])
            × (resp.height ≡ suc ss.store.height)
            × (ss'.store.height ≡ suc ss.store.height))

  out-OnCourse : (p : Phase) (h : ℕ) → in_stream p ≡ false → OnCourse p h
  out-OnCourse connecting h out = tt
  out-OnCourse sleeping h out = tt
  out-OnCourse returned h out = tt
  out-OnCourse (receiving from n) h out = cc

  from_height-OnCourse :
      (s : StateStore b) → 0 < s.height → s.height + 1 < 2 ^ 64 → from_height b s + 0 ≡ suc s.height
  unfolding from_height
  from_height-OnCourse s positive small = ground arith

module _ (b : Bolt) (laws : IsBolt b) where
  on_response-IsAdvance :
      (from n : ℕ) (resp : StateDiffResponse) (ss : StateSync b)
      → from + n ≡ suc ss.store.height
      → resp.height ≡ from + n
      → IsAdvance b ss
          (accepted (apply_diff b ss.store resp.height resp.entries).0 resp)
          (on_response b from n resp ss)
  unfolding on_response on_applied after_stream mark_ready
  on_response-IsAdvance from n resp ss course next =
      elim (apply_diff_atomic b laws ss.store resp.height resp.entries) [
        | inl (e, failed) ↦
            subst⁻¹ (λ r. IsAdvance b ss (accepted r.0 resp) (on_applied b resp.height from n r ss))
              failed
              (record {
                course = if_elim (λ p. OnCourse p ss.store.height) ss.cancelled (λ t. tt) (λ t. tt);
                none_or_next = inl (refl, refl);
              })
        | inr (d', done, changed) ↦
            subst⁻¹ (λ r. IsAdvance b ss (accepted r.0 resp) (on_applied b resp.height from n r ss))
              done (took (record { db = d'; height = resp.height }) refl)
      ]
    where
      advance :
          (store : StateStore b)
          → store.height ≡ resp.height
          → (r : Bool) (c : ℕ)
          → IsAdvance b ss (resp ∷ []) (record ss {
            store = store;
            ready = r;
            ready_closes = c;
            phase = receiving from (suc n);
          })
      advance store h r c = record {
        course = omega (arith, course, next, h);
        none_or_next = inr (resp, refl, next ∙ course, h ∙ next ∙ course);
      }

      took :
          (store : StateStore b)
          → store.height ≡ resp.height
          → IsAdvance b ss (resp ∷ []) (on_applied b resp.height from n (none, store) ss)
      took store h =
          if_elim (IsAdvance b ss (resp ∷ [])) ss.ready
            (λ t. advance store h ss.ready ss.ready_closes)
            (λ t. advance store h true (suc ss.ready_closes))

  step-IsAdvance :
      (ss : StateSync b) (e : Event)
      → 0 < ss.store.height
      → ss.store.height + 1 < 2 ^ 64
      → OnCourse ss.phase ss.store.height
      → IsNext ss.phase e
      → IsAdvance b ss (taken b ss.phase e ss.store) (step b ss e)
  step-IsAdvance ss e positive small course next =
      step_cases b ss
        (λ e ss'. IsNext ss.phase e → IsAdvance b ss (taken b ss.phase e ss.store) ss')
        (λ e idle c same next. quiet e _ idle course refl)
        (λ e idle p err out stops next. quiet e _ idle (out-OnCourse b p ss.store.height out) refl)
        (λ e idle next. quiet e _ idle (from_height-OnCourse b ss.store positive small) refl)
        (λ from n resp at next.
          subst⁻¹
            (λ p.
              IsAdvance b ss (taken b p (received resp) ss.store) (on_response b from n resp ss))
            at
            (on_response-IsAdvance from n resp ss
              (subst (λ p. OnCourse p ss.store.height) at course)
              (subst (λ p. IsNext p (received resp)) at next)))
        e next
    where
      quiet :
          (e : Event) (ss' : StateSync b)
          → answers ss.phase e ≡ false
          → OnCourse ss'.phase ss'.store.height
          → ss'.store.height ≡ ss.store.height
          → IsAdvance b ss (taken b ss.phase e ss.store) ss'
      quiet e ss' idle course s = record {
        course = course;
        none_or_next = inl (taken_none b ss.phase e ss.store idle, s);
      }

  counted :
      (ss : StateSync b) (e : Event) (es : List Event)
      → IsAdvance b ss (taken b ss.phase e ss.store) (step b ss e)
      → map height_of (applied b (step b ss e) es)
        ≡ count_up (suc (step b ss e).store.height) (length (applied b (step b ss e) es))
      → map height_of (applied b ss (e ∷ es))
        ≡ count_up (suc ss.store.height) (length (applied b ss (e ∷ es)))
  counted ss e es advance rest = elim advance.none_or_next [
    | inl (nothing, same) ↦ rw (nothing, rest, same)
    | inr (resp, one, at, up) ↦ rw (one, rest, at, up)
  ]

  grows :
      (ss : StateSync b) (ds : List StateDiffResponse) (ss' : StateSync b)
      → IsAdvance b ss ds ss'
      → (ss.store.height ≤ ss'.store.height) × (ss'.store.height ≤ suc ss.store.height)
  grows ss ds ss' advance = elim advance.none_or_next [
    | inl (nothing, same) ↦ (omega (arith, same), omega (arith, same))
    | inr (resp, one, at, up) ↦ (omega (arith, up), omega (arith, up))
  ]

  next_in_order :
      (ss : StateSync b) (es : List Event)
      → 0 < ss.store.height
      → ss.store.height + length es < 2 ^ 64
      → OnCourse ss.phase ss.store.height
      → AreNext b ss es
      → map height_of (applied b ss es) ≡ count_up (suc ss.store.height) (length (applied b ss es))
  next_in_order ss [] positive small course all_next = refl
  next_in_order ss (e ∷ es) positive small course (next, all_next) =
      let advance = step-IsAdvance ss e positive (omega (arith, small)) course next in
      let bounds = grows ss _ (step b ss e) advance in
      counted ss e es advance (
        next_in_order (step b ss e) es (omega (arith, positive, bounds.0))
          (omega (arith, small, bounds.1)) advance.course all_next)

  -- Over a database that keeps BoltDB's laws, let the store have a height above 0, and let this
  -- height and the number of events together be below 2^64. If each stream brings the height that
  -- was asked for and then the next ones, then behind any events the heights of the diffs that
  -- ApplyDiff took are the ones that follow the store's, with none missing and none twice.
  pub run_in_order :
      (store : StateStore b) (es : List Event)
      → 0 < store.height
      → store.height + length es < 2 ^ 64
      → AreNext b (start b store) es
      → map height_of (applied b (start b store) es)
        ≡ count_up (suc store.height) (length (applied b (start b store) es))
  unfolding start
  run_in_order store es positive small all_next =
      next_in_order (start b store) es positive small tt all_next
