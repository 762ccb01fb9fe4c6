-- ===== src/Agent/Tasks.antt =====
-- register, streamTasks and submitResults, cut where they block.
use ioswarm.Common.{
  ℕ, Option, none, some, List, [], ◌∷◌, ◌++◌, Bytes, Bool, true, false, ◌&&◌, if◌then◌else◌,
}
use ioswarm.Wire.{Protowire}
use ioswarm.Store.{Bolt}
use ioswarm.StateDb.{Geth}
use ioswarm.Evm.{Interpreter}
use ioswarm.Agent.Level.{parse_level}
use ioswarm.Agent.Batch.{TaskBatch, BatchResult, Moment, process_batch}

pub record RegisterRequest : Type 0 where
  pub agent_id : Bytes
  pub capability : ℕ
  pub region : Bytes
  pub version : Bytes
  pub wallet_address : Bytes

pub record RegisterResponse : Type 0 where
  pub accepted : Bool
  pub reason : Bytes
  pub heartbeat_interval_sec : ℕ

pub record GetTasksRequest : Type 0 where
  pub agent_id : Bytes
  pub max_level : ℕ
  pub max_batch_size : ℕ

-- What the worker says of itself.
pub record Identity : Type 0 where
  pub agent_id : Bytes
  pub level : Bytes
  pub region : Bytes
  pub wallet : Bytes
  pub version : Bytes

pub data TaskPhase : Type 0 where
  registering opening receiving backing_off returned : TaskPhase

-- An exchange with the coordinator and, where the loop reads it, the answer: a registration and
-- whether it was accepted, a stream that was asked for and whether it was opened, and a batch's
-- results.
pub data Exchange : Type 0 where
  registration : RegisterRequest → Bool → Exchange
  task_stream : GetTasksRequest → Bool → Exchange
  submission : BatchResult → Exchange

-- The last argument of `batch` is the clock's time of the submission.
pub data TaskEvent (b : Bolt) : Type 0 where
  cancel : TaskEvent b
  registered : Option RegisterResponse → TaskEvent b
  opened : Bool → Bool → TaskEvent b
  batch : TaskBatch → (ℕ → Moment b) → ℕ → TaskEvent b
  ended : TaskEvent b
  woke : TaskEvent b

pub record TaskStream : Type 0 where
  pub first_run : Bool
  pub cancelled : Bool
  pub phase : TaskPhase
  pub tasks_processed : ℕ

unfoldable pub register_request : Identity → RegisterRequest
unfolding parse_level
register_request id = record {
  agent_id = id.agent_id;
  capability = parse_level id.level;
  region = id.region;
  version = id.version;
  wallet_address = id.wallet;
}

unfoldable pub get_tasks_request : Identity → GetTasksRequest
unfolding parse_level
get_tasks_request id = record {
  agent_id = id.agent_id;
  max_level = parse_level id.level;
  max_batch_size = 10;
}

-- register has no error: the call came back, and the coordinator accepts.
unfoldable pub is_registered : Option RegisterResponse → Bool
is_registered none = false
is_registered (some resp) = resp.accepted

-- From the top of the loop to where it blocks.
unfoldable pub loop_top : TaskStream → TaskStream
loop_top ts =
    if ts.cancelled
    then record ts { phase = returned }
    else if ts.first_run
    then record ts { first_run = false; phase = opening }
    else record ts { phase = registering }

-- The start of streamTasks, with what `tasksProcessed` holds.
unfoldable pub start_tasks : ℕ → Bool → TaskStream
unfolding loop_top
start_tasks tasks_processed cancelled = loop_top (record {
  first_run = true;
  cancelled = cancelled;
  phase = registering;
  tasks_processed = tasks_processed;
})

unfoldable pub on_registered : Bool → TaskStream → TaskStream
on_registered accepted ts = record ts { phase = if accepted then opening else backing_off }

unfoldable pub on_task_stream : Bool → TaskStream → TaskStream
on_task_stream there ts = record ts { phase = if there then receiving else backing_off }

module _ (w : Protowire) (b : Bolt) (fuel : ℕ) (g : Geth) (vm : Interpreter) (id : Identity) where
  unfoldable pub on_batch : TaskBatch → (ℕ → Moment b) → ℕ → TaskStream → List Exchange × TaskStream
  unfolding process_batch
  on_batch tb moments now ts =
      let done = process_batch w b fuel g vm moments ts.tasks_processed tb id.level in
      (
        submission (record {
          agent_id = id.agent_id;
          batch_id = tb.batch_id;
          results = done.0;
          timestamp = now;
        })
            ∷ [],
        record ts { tasks_processed = done.1 },
      )

  -- The error of CloseSend is dropped, and the answer to a submission is logged alone. An event
  -- that the phase does not wait for does not arise, and changes nothing.
  unfoldable pub dispatch_task : TaskPhase → TaskEvent b → TaskStream → List Exchange × TaskStream
  unfolding is_registered loop_top on_registered on_task_stream on_batch register_request
      get_tasks_request
  dispatch_task registering (registered resp) ts = (
    registration (register_request id) (is_registered resp) ∷ [],
    on_registered (is_registered resp) ts,
  )
  dispatch_task opening (opened there sent) ts =
      (task_stream (get_tasks_request id) (there && sent) ∷ [], on_task_stream (there && sent) ts)
  dispatch_task receiving (batch tb moments now) ts = on_batch tb moments now ts
  dispatch_task receiving ended ts = ([], record ts { phase = backing_off })
  dispatch_task backing_off woke ts = ([], loop_top ts)
  dispatch_task phase cancel ts = ([], record ts { cancelled = true })
  dispatch_task _ _ ts = ([], ts)

  unfoldable pub step_task : TaskStream → TaskEvent b → List Exchange × TaskStream
  unfolding dispatch_task
  step_task ts e = dispatch_task ts.phase e ts

  unfoldable pub run_tasks : TaskStream → List (TaskEvent b) → List Exchange × TaskStream
  unfolding step_task
  run_tasks ts [] = ([], ts)
  run_tasks ts (e ∷ es) =
      let one = step_task ts e in let rest = run_tasks one.1 es in (one.0 ++ rest.0, rest.1)
