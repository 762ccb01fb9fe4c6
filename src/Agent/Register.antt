-- ===== src/Agent/Register.antt =====
-- Before a stream of tasks is asked for again, the worker has registered again.
use ioswarm.Common.{
  ℕ, ◌≡◌, ◌≢◌, ◌⊎◌, inl, inr, refl, sym, ◌∙◌, List, [], ◌∷◌, ◌++◌, Bool, true, false, ◌&&◌, ◌||◌,
  if_elim,
}
use ioswarm.Wire.{Protowire}
use ioswarm.Store.{Bolt}
use ioswarm.StateDb.{Geth}
use ioswarm.Evm.{Interpreter}
use ioswarm.Agent.Tasks.{
  Identity, registering, opening, backing_off, returned, Exchange, registration, task_stream,
  submission, TaskEvent, TaskStream, loop_top, start_tasks, on_registered, on_task_stream, on_batch,
  step_task, run_tasks,
}
use ioswarm.Agent.Cases.{step_task_cases}

-- Whether a stream may be asked for behind an exchange: an accepted registration is good for one.
abbrev pub may_open : Bool → Exchange → Bool
may_open may (registration req accepted) = accepted || may
may_open may (task_stream req there) = false
may_open may (submission result) = may

abbrev pub in_turn : Bool → Exchange → Bool
in_turn may (task_stream req there) = may
in_turn may _ = true

-- Every stream is asked for in its turn.
abbrev pub are_in_turn : Bool → List Exchange → Bool
are_in_turn may [] = true
are_in_turn may (x ∷ xs) = in_turn may x && are_in_turn (may_open may x) xs

abbrev pub may_open_behind : Bool → List Exchange → Bool
may_open_behind may [] = may
may_open_behind may (x ∷ xs) = may_open_behind (may_open may x) xs

are_in_turn-append :
    (xs ys : List Exchange) (may : Bool)
    → are_in_turn may (xs ++ ys) ≡ (are_in_turn may xs && are_in_turn (may_open_behind may xs) ys)
are_in_turn-append [] ys may = refl
are_in_turn-append (x ∷ xs) ys may =
    rw (are_in_turn-append xs ys (may_open may x))
      (and_assoc (in_turn may x) (are_in_turn (may_open may x) xs) _)
  where
    and_assoc : (a c d : Bool) → (a && (c && d)) ≡ ((a && c) && d)
    and_assoc true c d = refl
    and_assoc false c d = refl

-- The loop asks for a stream only where one is allowed, and once it runs it is past its first run.
record IsAllowed (may : Bool) (ts : TaskStream) : Type 0 where
  open_turn : ts.phase ≡ opening → may ≡ true
  later : (ts.phase ≡ returned) ⊎ (ts.first_run ≡ false)

InTurn : Bool → TaskStream → List Exchange × TaskStream → Type 0
InTurn may ts (xs, ts') =
    IsAllowed may ts → (are_in_turn may xs ≡ true) × IsAllowed (may_open_behind may xs) ts'

not_first :
    (ts : TaskStream)
    → (ts.phase ≡ returned) ⊎ (ts.first_run ≡ false)
    → ts.phase ≢ returned
    → ts.first_run ≡ false
not_first ts (inl ends) on = absurd (on ends)
not_first ts (inr later) on = later

loop_top-IsAllowed :
    (may : Bool) (ts : TaskStream)
    → ts.phase ≡ backing_off
    → IsAllowed may ts
    → IsAllowed may (loop_top ts)
unfolding loop_top
loop_top-IsAllowed may ts at h =
    let later = not_first ts h.later (λ q. backed_off (sym at ∙ q)) in
    if_elim (IsAllowed may) ts.cancelled (λ t. record { open_turn = λ q. cc; later = inl refl })
      (λ t.
        if_elim (IsAllowed may) ts.first_run (λ u. absurd (first (sym u ∙ later)))
          (λ u. record { open_turn = λ q. cc; later = inr later }))
  where
    backed_off : backing_off ≢ returned
    backed_off q = cc

    first : true ≢ false
    first q = cc

on_registered-IsAllowed :
    (accepted may : Bool) (ts : TaskStream)
    → ts.phase ≡ registering
    → IsAllowed may ts
    → IsAllowed (accepted || may) (on_registered accepted ts)
unfolding on_registered
on_registered-IsAllowed true may ts at h = record {
  open_turn = λ q. refl;
  later = inr (not_first ts h.later (λ q. cc));
}
on_registered-IsAllowed false may ts at h = record {
  open_turn = λ q. cc;
  later = inr (not_first ts h.later (λ q. cc));
}

on_task_stream-IsAllowed :
    (there may : Bool) (ts : TaskStream)
    → ts.phase ≡ opening
    → IsAllowed may ts
    → IsAllowed false (on_task_stream there ts)
unfolding on_task_stream
on_task_stream-IsAllowed true may ts at h = record {
  open_turn = λ q. cc;
  later = inr (not_first ts h.later (λ q. cc));
}
on_task_stream-IsAllowed false may ts at h = record {
  open_turn = λ q. cc;
  later = inr (not_first ts h.later (λ q. cc));
}

module _ (w : Protowire) (b : Bolt) (fuel : ℕ) (g : Geth) (vm : Interpreter) (id : Identity) where
  step_task-InTurn :
      (may : Bool) (ts : TaskStream) (e : TaskEvent b)
      → InTurn may ts (step_task w b fuel g vm id ts e)
  unfolding InTurn on_batch
  step_task-InTurn may ts e =
      step_task_cases w b fuel g vm id ts (λ e out. InTurn may ts out)
        (λ e c idle h. (refl, record { open_turn = h.open_turn; later = h.later }))
        (λ e idle at h.
          (refl, record { open_turn = λ q. cc; later = inr (not_first ts h.later (λ q. cc)) }))
        (λ e idle at h. (refl, loop_top-IsAllowed may ts at h))
        (λ e accepted idle at h. (refl, on_registered-IsAllowed accepted may ts at h))
        (λ e there idle at h.
          (and_true may (h.open_turn at), on_task_stream-IsAllowed there may ts at h))
        (λ tb moments now at h. (refl, record { open_turn = h.open_turn; later = h.later })) e
    where
      and_true : (c : Bool) → c ≡ true → (c && true) ≡ true
      and_true true t = refl
      and_true false t = t

  run_tasks-InTurn :
      (es : List (TaskEvent b)) (may : Bool) (ts : TaskStream)
      → IsAllowed may ts
      → are_in_turn may (run_tasks w b fuel g vm id ts es).0 ≡ true
  unfolding run_tasks InTurn
  run_tasks-InTurn [] may ts h = refl
  run_tasks-InTurn (e ∷ es) may ts h =
      let one = step_task-InTurn may ts e h in
      let out = step_task w b fuel g vm id ts e in
      are_in_turn-append out.0 (run_tasks w b fuel g vm id out.1 es).0 may
      ∙ rw (one.0, run_tasks-InTurn es (may_open_behind may out.0) out.1 one.1)

  -- Behind any events, each stream of tasks that the loop asks for, opened or not, is allowed by
  -- an accepted registration that no other stream was asked for since: the first by the one with
  -- which the worker starts, each later one by one of the loop's own.
  pub run_tasks_registers :
      (tasks_processed : ℕ) (cancelled : Bool) (es : List (TaskEvent b))
      → are_in_turn true (run_tasks w b fuel g vm id (start_tasks tasks_processed cancelled) es).0
        ≡ true
  unfolding start_tasks loop_top
  run_tasks_registers tasks_processed true es =
      run_tasks-InTurn es true _ (record { open_turn = λ q. refl; later = inl refl })
  run_tasks_registers tasks_processed false es =
      run_tasks-InTurn es true _ (record { open_turn = λ q. refl; later = inr refl })
