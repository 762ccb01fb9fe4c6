-- ===== src/StateSync/Cases.antt =====
-- What holds of the sync loop behind any events.
use ioswarm.Common.{
  ℕ, ◌^◌, ◌<◌, ◌≡◌, refl, ap, ◌⊎◌, inl, inr, Option, none, some, if_elim, Bool, true, false,
  if◌then◌else◌,
}
use ioswarm.Store.{Bolt}
use ioswarm.StateSync.Defs.{
  StateDiffResponse, SyncError, Phase, connecting, sleeping, returned, receiving, StateSync, Event,
  cancel, opened, received, broken, woke, open_error, from_height, after_stream, on_response,
  on_opened, dispatch, step,
}

-- Every height that the coordinator sends is a uint64.
abbrev pub IsWordEvent : Event → Type 0
IsWordEvent (received resp) = resp.height < 2 ^ 64
IsWordEvent _ = Unit {0}

abbrev pub in_stream : Phase → Bool
in_stream (receiving from n) = true
in_stream _ = false

abbrev pub has_returned : Phase → Bool
has_returned returned = true
has_returned _ = false

-- RecvMsg brings a diff.
abbrev pub answers : Phase → Event → Bool
answers (receiving from n) (received resp) = true
answers _ _ = false

module _ (b : Bolt) where
  -- What a step can do: note a cancellation, or nothing; leave the stream; ask for a stream; or
  -- answer a diff.
  pub step_cases :
      (ss : StateSync b) (P : Event → StateSync b → Type 0)
      → ((e : Event)
          → answers ss.phase e ≡ false
          → (c : Bool) → (c ≡ ss.cancelled) ⊎ (e ≡ cancel)
          → P e (record ss { cancelled = c }))
      → ((e : Event)
          → answers ss.phase e ≡ false
          → (p : Phase) (err : Option SyncError) → in_stream p ≡ false
          → (has_returned p ≡ false) ⊎ (ss.cancelled ≡ true)
          → P e (record ss { phase = p; last_error = err }))
      → ((e : Event)
          → answers ss.phase e ≡ false
          → P e (record ss { phase = receiving (from_height b ss.store) 0 }))
      → ((from n : ℕ) (resp : StateDiffResponse)
          → ss.phase ≡ receiving from n
          → P (received resp) (on_response b from n resp ss))
      → (e : Event) → P e (step b ss e)
  unfolding step after_stream on_opened dispatch
  step_cases ss P stay leave ask answer e = by_phase ss.phase refl e
    where
      paused :
          (e : Event) → answers ss.phase e ≡ false → (err : SyncError) → P e (after_stream b err ss)
      paused e idle err =
          leave e idle _ _ (if_elim (λ p. in_stream p ≡ false) ss.cancelled (λ t. refl) (λ t. refl))
            (if_elim (λ p. (has_returned p ≡ false) ⊎ (ss.cancelled ≡ true)) ss.cancelled
              (λ t. inr t) (λ t. inl refl))

      asked :
          (e : Event)
          → answers ss.phase e ≡ false
          → (err : Option SyncError) → P e (on_opened b err ss)
      asked e idle (some err) = paused e idle err
      asked e idle none = ask e idle

      opens :
          (e : Event)
          → answers ss.phase e ≡ false
          → (err : Option SyncError)
          → P e (if ss.cancelled then record ss { phase = returned } else on_opened b err ss)
      opens e idle err =
          if_elim (P e) ss.cancelled (λ t. leave e idle returned ss.last_error refl (inr t))
            (λ t. asked e idle err)

      by_phase : (p : Phase) → ss.phase ≡ p → (e : Event) → P e (dispatch b p e ss)
      by_phase connecting at cancel = stay cancel (ap (λ p. answers p cancel) at) true (inr refl)
      by_phase connecting at (opened o) =
          opens (opened o) (ap (λ p. answers p (opened o)) at) (open_error o)
      by_phase connecting at (received resp) =
          stay (received resp) (ap (λ p. answers p (received resp)) at) ss.cancelled (inl refl)
      by_phase connecting at (broken err) =
          stay (broken err) (ap (λ p. answers p (broken err)) at) ss.cancelled (inl refl)
      by_phase connecting at woke = stay woke (ap (λ p. answers p woke) at) ss.cancelled (inl refl)
      by_phase sleeping at cancel = stay cancel (ap (λ p. answers p cancel) at) true (inr refl)
      by_phase sleeping at (opened o) =
          stay (opened o) (ap (λ p. answers p (opened o)) at) ss.cancelled (inl refl)
      by_phase sleeping at (received resp) =
          stay (received resp) (ap (λ p. answers p (received resp)) at) ss.cancelled (inl refl)
      by_phase sleeping at (broken err) =
          stay (broken err) (ap (λ p. answers p (broken err)) at) ss.cancelled (inl refl)
      by_phase sleeping at woke =
          leave woke (ap (λ p. answers p woke) at) connecting ss.last_error refl (inl refl)
      by_phase returned at cancel = stay cancel (ap (λ p. answers p cancel) at) true (inr refl)
      by_phase returned at (opened o) =
          stay (opened o) (ap (λ p. answers p (opened o)) at) ss.cancelled (inl refl)
      by_phase returned at (received resp) =
          stay (received resp) (ap (λ p. answers p (received resp)) at) ss.cancelled (inl refl)
      by_phase returned at (broken err) =
          stay (broken err) (ap (λ p. answers p (broken err)) at) ss.cancelled (inl refl)
      by_phase returned at woke = stay woke (ap (λ p. answers p woke) at) ss.cancelled (inl refl)
      by_phase (receiving from n) at cancel =
          stay cancel (ap (λ p. answers p cancel) at) true (inr refl)
      by_phase (receiving from n) at (opened o) =
          stay (opened o) (ap (λ p. answers p (opened o)) at) ss.cancelled (inl refl)
      by_phase (receiving from n) at (received resp) = answer from n resp at
      by_phase (receiving from n) at (broken err) =
          paused (broken err) (ap (λ p. answers p (broken err)) at) err
      by_phase (receiving from n) at woke =
          stay woke (ap (λ p. answers p woke) at) ss.cancelled (inl refl)
