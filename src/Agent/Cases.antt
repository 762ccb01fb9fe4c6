-- ===== src/Agent/Cases.antt =====
-- The steps of the task loop, sorted by what they exchange.
use ioswarm.Common.{ℕ, ◌≡◌, refl, ap, List, [], ◌∷◌, Bool, true, false, ◌&&◌}
use ioswarm.Wire.{Protowire}
use ioswarm.Store.{Bolt}
use ioswarm.StateDb.{Geth}
use ioswarm.Evm.{Interpreter}
use ioswarm.Agent.Batch.{TaskBatch, Moment}
use ioswarm.Agent.Tasks.{
  Identity, TaskPhase, registering, opening, receiving, backing_off, returned, Exchange,
  registration, task_stream, TaskEvent, cancel, registered, opened, batch, ended, woke, TaskStream,
  register_request, get_tasks_request, is_registered, loop_top, on_registered, on_task_stream,
  on_batch, dispatch_task, step_task,
}

-- A batch comes in.
abbrev pub brings : {b : Bolt} → TaskPhase → TaskEvent b → Bool
brings receiving (batch tb moments now) = true
brings _ _ = false

module _ (w : Protowire) (b : Bolt) (fuel : ℕ) (g : Geth) (vm : Interpreter) (id : Identity) where
  -- A step changes the phase, or the flag of a cancellation, and exchanges nothing; or it ends a
  -- registration, or the opening of a stream; or it answers a batch.
  pub step_task_cases :
      (ts : TaskStream) (P : TaskEvent b → List Exchange × TaskStream → Type 0)
      → ((e : TaskEvent b) (c : Bool)
          → brings ts.phase e ≡ false
          → P e ([], record ts { cancelled = c }))
      → ((e : TaskEvent b)
          → brings ts.phase e ≡ false
          → ts.phase ≡ receiving
          → P e ([], record ts { phase = backing_off }))
      → ((e : TaskEvent b)
          → brings ts.phase e ≡ false
          → ts.phase ≡ backing_off
          → P e ([], loop_top ts))
      → ((e : TaskEvent b) (accepted : Bool)
          → brings ts.phase e ≡ false
          → ts.phase ≡ registering
          → P e (registration (register_request id) accepted ∷ [], on_registered accepted ts))
      → ((e : TaskEvent b) (there : Bool)
          → brings ts.phase e ≡ false
          → ts.phase ≡ opening
          → P e (task_stream (get_tasks_request id) there ∷ [], on_task_stream there ts))
      → ((tb : TaskBatch) (moments : ℕ → Moment b) (now : ℕ)
          → ts.phase ≡ receiving
          → P (batch tb moments now) (on_batch w b fuel g vm id tb moments now ts))
      → (e : TaskEvent b) → P e (step_task w b fuel g vm id ts e)
  unfolding step_task dispatch_task
  step_task_cases ts P stay break_off again register ask answer e = by_phase ts.phase refl e
    where
      same : (e : TaskEvent b) → brings ts.phase e ≡ false → P e ([], ts)
      same e idle = stay e ts.cancelled idle

      by_phase :
          (p : TaskPhase)
          → ts.phase ≡ p
          → (e : TaskEvent b) → P e (dispatch_task w b fuel g vm id p e ts)
      by_phase registering at cancel = stay cancel true (ap (λ q. brings {b = b} q cancel) at)
      by_phase registering at (registered resp) =
          register (registered resp) (is_registered resp)
            (ap (λ q. brings {b = b} q (registered resp)) at) at
      by_phase registering at (opened there sent) =
          same (opened there sent) (ap (λ q. brings {b = b} q (opened there sent)) at)
      by_phase registering at (batch tb moments now) =
          same (batch tb moments now) (ap (λ q. brings {b = b} q (batch tb moments now)) at)
      by_phase registering at ended = same ended (ap (λ q. brings {b = b} q ended) at)
      by_phase registering at woke = same woke (ap (λ q. brings {b = b} q woke) at)
      by_phase opening at cancel = stay cancel true (ap (λ q. brings {b = b} q cancel) at)
      by_phase opening at (registered resp) =
          same (registered resp) (ap (λ q. brings {b = b} q (registered resp)) at)
      by_phase opening at (opened there sent) =
          ask (opened there sent) (there && sent)
            (ap (λ q. brings {b = b} q (opened there sent)) at) at
      by_phase opening at (batch tb moments now) =
          same (batch tb moments now) (ap (λ q. brings {b = b} q (batch tb moments now)) at)
      by_phase opening at ended = same ended (ap (λ q. brings {b = b} q ended) at)
      by_phase opening at woke = same woke (ap (λ q. brings {b = b} q woke) at)
      by_phase receiving at cancel = stay cancel true (ap (λ q. brings {b = b} q cancel) at)
      by_phase receiving at (registered resp) =
          same (registered resp) (ap (λ q. brings {b = b} q (registered resp)) at)
      by_phase receiving at (opened there sent) =
          same (opened there sent) (ap (λ q. brings {b = b} q (opened there sent)) at)
      by_phase receiving at (batch tb moments now) = answer tb moments now at
      by_phase receiving at ended = break_off ended (ap (λ q. brings {b = b} q ended) at) at
      by_phase receiving at woke = same woke (ap (λ q. brings {b = b} q woke) at)
      by_phase backing_off at cancel = stay cancel true (ap (λ q. brings {b = b} q cancel) at)
      by_phase backing_off at (registered resp) =
          same (registered resp) (ap (λ q. brings {b = b} q (registered resp)) at)
      by_phase backing_off at (opened there sent) =
          same (opened there sent) (ap (λ q. brings {b = b} q (opened there sent)) at)
      by_phase backing_off at (batch tb moments now) =
          same (batch tb moments now) (ap (λ q. brings {b = b} q (batch tb moments now)) at)
      by_phase backing_off at ended = same ended (ap (λ q. brings {b = b} q ended) at)
      by_phase backing_off at woke = again woke (ap (λ q. brings {b = b} q woke) at) at
      by_phase returned at cancel = stay cancel true (ap (λ q. brings {b = b} q cancel) at)
      by_phase returned at (registered resp) =
          same (registered resp) (ap (λ q. brings {b = b} q (registered resp)) at)
      by_phase returned at (opened there sent) =
          same (opened there sent) (ap (λ q. brings {b = b} q (opened there sent)) at)
      by_phase returned at (batch tb moments now) =
          same (batch tb moments now) (ap (λ q. brings {b = b} q (batch tb moments now)) at)
      by_phase returned at ended = same ended (ap (λ q. brings {b = b} q ended) at)
      by_phase returned at woke = same woke (ap (λ q. brings {b = b} q woke) at)
