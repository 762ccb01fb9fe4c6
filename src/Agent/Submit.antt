-- ===== src/Agent/Submit.antt =====
-- What the worker sends back for the batches that it receives.
use mathlib.Core.Path.{subst⁻¹}
use ioswarm.Common.{
  if_elim, ℕ, suc, ◌+◌, ◌%◌, ◌^◌, ◌<◌, ◌≡◌, refl, ap, Option, none, some, List, [], ◌∷◌, ◌++◌,
  Bytes, true, false, length, AllPairs, arith,
}
use ioswarm.Wire.{Protowire}
use ioswarm.Store.{Bolt}
use ioswarm.Types.{TaskPackage, TaskResult}
use ioswarm.StateDb.{Geth}
use ioswarm.Evm.{EvmResult, Interpreter}
use ioswarm.Validator.{validate_task, task_result_of, with_execution, validate_at}
use ioswarm.Validator.Signature.{IsSigned, validate_task-IsSigned}
use ioswarm.Agent.Batch.{TaskBatch, BatchResult, Moment, process_tasks, process_batch}
use ioswarm.Agent.Tasks.{
  Identity, TaskPhase, registering, opening, receiving, backing_off, returned, Exchange,
  registration, task_stream, submission, TaskEvent, cancel, registered, opened, batch, ended, woke,
  TaskStream, loop_top, on_registered, on_task_stream, on_batch, step_task, run_tasks,
}
use ioswarm.Agent.Cases.{brings, step_task_cases}

-- The result of a task, which is valid only if the transaction is signed.
abbrev pub IsAnswer : TaskPackage → TaskResult → Type 0
IsAnswer task result =
    (result.task_id ≡ task.task_id) × (result.valid ≡ true → IsSigned task.tx_raw)

-- The answer to a batch: its id, and an answer to each task, in the tasks' order.
abbrev pub IsSubmission : Bytes → TaskBatch → BatchResult → Type 0
IsSubmission agent_id tb result =
    (result.agent_id ≡ agent_id)
    × (result.batch_id ≡ tb.batch_id)
    × AllPairs IsAnswer tb.tasks result.results

abbrev pub submissions : List Exchange → List BatchResult
submissions [] = []
submissions (submission result ∷ xs) = result ∷ submissions xs
submissions (registration req accepted ∷ xs) = submissions xs
submissions (task_stream req there ∷ xs) = submissions xs

submissions-append :
    (xs ys : List Exchange) → submissions (xs ++ ys) ≡ submissions xs ++ submissions ys
submissions-append [] ys = refl
submissions-append (submission result ∷ xs) ys = ap (λ rs. result ∷ rs) (submissions-append xs ys)
submissions-append (registration req accepted ∷ xs) ys = submissions-append xs ys
submissions-append (task_stream req there ∷ xs) ys = submissions-append xs ys

abbrev pub task_count : List TaskBatch → ℕ
task_count [] = 0
task_count (tb ∷ tbs) = length tb.tasks + task_count tbs

abbrev pub brought_by : {b : Bolt} → TaskPhase → TaskEvent b → List TaskBatch
brought_by receiving (batch tb moments now) = tb ∷ []
brought_by _ _ = []

brought_by_none :
    {b : Bolt} (p : TaskPhase) (e : TaskEvent b) → brings p e ≡ false → brought_by p e ≡ []
brought_by_none registering e idle = refl
brought_by_none opening e idle = refl
brought_by_none backing_off e idle = refl
brought_by_none returned e idle = refl
brought_by_none receiving cancel idle = refl
brought_by_none receiving (registered resp) idle = refl
brought_by_none receiving (opened there sent) idle = refl
brought_by_none receiving (batch tb moments now) idle = cc
brought_by_none receiving ended idle = refl
brought_by_none receiving woke idle = refl

with_execution_id :
    (r : TaskResult) (e : Option EvmResult) → (with_execution r e).task_id ≡ r.task_id
unfolding with_execution
with_execution_id r none = refl
with_execution_id r (some e) = refl

module _ (w : Protowire) (b : Bolt) (fuel : ℕ) (g : Geth) (vm : Interpreter) where
  process_tasks-IsAnswer :
      (tasks : List TaskPackage) (moments : ℕ → Moment b) (level : Bytes)
      → AllPairs IsAnswer tasks (process_tasks w b fuel g vm moments level tasks)
  unfolding process_tasks validate_task task_result_of
  process_tasks-IsAnswer [] moments level = tt
  process_tasks-IsAnswer (task ∷ tasks) moments level = (
    (
      named (moments 0),
      validate_task-IsSigned w b fuel g vm (moments 0).latency (moments 0).active task level,
    ),
    process_tasks-IsAnswer tasks (λ i. moments (suc i)) level,
  )
    where
      named :
          (m : Moment b)
          → (validate_task w b fuel g vm m.latency m.active task level).task_id ≡ task.task_id
      named m = with_execution_id _ (validate_at w b fuel g vm m.active task level).evm_result

  length-process_tasks :
      (tasks : List TaskPackage) (moments : ℕ → Moment b) (level : Bytes)
      → length (process_tasks w b fuel g vm moments level tasks) ≡ length tasks
  unfolding process_tasks
  length-process_tasks [] moments level = refl
  length-process_tasks (task ∷ tasks) moments level =
      ap suc (length-process_tasks tasks (λ i. moments (suc i)) level)

  module _ (id : Identity) where
    -- The batches that the loop receives.
    abbrev pub brought : TaskStream → List (TaskEvent b) → List TaskBatch
    brought ts [] = []
    brought ts (e ∷ es) = brought_by ts.phase e ++ brought (step_task w b fuel g vm id ts e).1 es

    pub record IsServed (ts : TaskStream) (tbs : List TaskBatch) (out : List Exchange × TaskStream)
        : Type 0 where
      pub answers : AllPairs (IsSubmission id.agent_id) tbs (submissions out.0)
      pub counted : out.1.tasks_processed ≡ (ts.tasks_processed + task_count tbs) % 2 ^ 32

    append_pairs :
        (tbs tbs' : List TaskBatch) (rs rs' : List BatchResult)
        → AllPairs (IsSubmission id.agent_id) tbs rs
        → AllPairs (IsSubmission id.agent_id) tbs' rs'
        → AllPairs (IsSubmission id.agent_id) (tbs ++ tbs') (rs ++ rs')
    append_pairs [] tbs' [] rs' p q = q
    append_pairs [] tbs' (r ∷ rs) rs' p q = absurd p
    append_pairs (tb ∷ tbs) tbs' [] rs' p q = absurd p
    append_pairs (tb ∷ tbs) tbs' (r ∷ rs) rs' (p, ps) q = (p, append_pairs tbs tbs' rs rs' ps q)

    task_count-append :
        (tbs tbs' : List TaskBatch) → task_count (tbs ++ tbs') ≡ task_count tbs + task_count tbs'
    task_count-append [] tbs' = omega arith
    task_count-append (tb ∷ tbs) tbs' = omega (arith, task_count-append tbs tbs')

    quiet :
        (ts ts' : TaskStream) (xs : List Exchange)
        → submissions xs ≡ []
        → ts'.tasks_processed ≡ ts.tasks_processed
        → ts.tasks_processed < 2 ^ 32
        → IsServed ts [] (xs, ts')
    quiet ts ts' xs nothing same small = record {
      answers = rw nothing tt;
      counted = omega (arith, same, small);
    }

    on_batch-IsServed :
        (ts : TaskStream) (tb : TaskBatch) (moments : ℕ → Moment b) (now : ℕ)
        → IsServed ts (tb ∷ []) (on_batch w b fuel g vm id tb moments now ts)
    unfolding on_batch process_batch
    on_batch-IsServed ts tb moments now = record {
      answers = ((refl, refl, process_tasks-IsAnswer tb.tasks moments id.level), tt);
      counted = omega (arith, length-process_tasks tb.tasks moments id.level);
    }

    step_task-IsServed :
        (ts : TaskStream) (e : TaskEvent b)
        → ts.tasks_processed < 2 ^ 32
        → IsServed ts (brought_by ts.phase e) (step_task w b fuel g vm id ts e)
    unfolding loop_top on_registered on_task_stream
    step_task-IsServed ts e small =
        step_task_cases w b fuel g vm id ts (λ e out. IsServed ts (brought_by ts.phase e) out)
          (λ e c idle. rw (brought_by_none ts.phase e idle) (quiet ts _ [] refl refl small))
          (λ e idle at. rw (brought_by_none ts.phase e idle) (quiet ts _ [] refl refl small))
          (λ e idle at.
            rw (brought_by_none ts.phase e idle) (quiet ts (loop_top ts) [] refl top small))
          (λ e accepted idle at.
            rw (brought_by_none ts.phase e idle) (quiet ts _ _ refl refl small))
          (λ e there idle at. rw (brought_by_none ts.phase e idle) (quiet ts _ _ refl refl small))
          (λ tb moments now at.
            subst⁻¹
              (λ p.
                IsServed ts (brought_by {b = b} p (batch tb moments now))
                  (on_batch w b fuel g vm id tb moments now ts))
              at (on_batch-IsServed ts tb moments now))
          e
      where
        top : (loop_top ts).tasks_processed ≡ ts.tasks_processed
        top =
            if_elim (λ (s : TaskStream). s.tasks_processed ≡ ts.tasks_processed) ts.cancelled
              (λ t. refl)
              (λ t.
                if_elim (λ (s : TaskStream). s.tasks_processed ≡ ts.tasks_processed) ts.first_run
                  (λ u. refl) (λ u. refl))

    -- If the counter of tasks is below 2^32, then behind any events the worker has sent one result
    -- for each batch that it received, in their order. Each result has the agent's id and its
    -- batch's, and one answer for each task of the batch, in the tasks' order, with the task's id,
    -- and valid only if the signature of the task's transaction is in range. The counter is the
    -- old one and the number of these tasks together, modulo 2^32.
    pub run_tasks-IsServed :
        (es : List (TaskEvent b)) (ts : TaskStream)
        → ts.tasks_processed < 2 ^ 32
        → IsServed ts (brought ts es) (run_tasks w b fuel g vm id ts es)
    unfolding run_tasks
    run_tasks-IsServed [] ts small = quiet ts ts [] refl refl small
    run_tasks-IsServed (e ∷ es) ts small =
        let one = step_task-IsServed ts e small in
        let out = step_task w b fuel g vm id ts e in
        let later = run_tasks-IsServed es out.1 (omega (arith, one.counted)) in
        record {
          answers = rw (submissions-append out.0 (run_tasks w b fuel g vm id out.1 es).0) (
              append_pairs (brought_by ts.phase e) (brought out.1 es) (submissions out.0)
                (submissions (run_tasks w b fuel g vm id out.1 es).0) one.answers later.answers);
          counted = omega (
            arith,
            task_count-append (brought_by ts.phase e) (brought out.1 es),
            one.counted,
            later.counted,
          );
        }
