-- ===== src/Tests/Agents.antt =====
-- A worker that registers, receives a batch, loses its stream and comes back, for main.go and
-- worker.go.
use ioswarm.Common.{
  ℕ, ◌≡◌, refl, none, some, Option, List, [], ◌∷◌, codes, bytes_eq, true, false, if◌then◌else◌, ok,
  err, arith,
}
use ioswarm.Common.Text.{to_upper, to_lower, has_suffix}
use ioswarm.Wire.Wide.{wide}
use ioswarm.Store.{StateStore, apply_diff, load_height, open_state_store}
use ioswarm.Store.Memory.{no_memory, memory, memory-IsBolt}
use ioswarm.Snapshot.{open_snapshot}
use ioswarm.StateSync.{
  start, run, step, dispatch, on_opened, open_error, on_response, on_applied, mark_ready,
  after_stream, from_height, opened, received, wait_ready,
}
use ioswarm.Validator.{validate_at}
use ioswarm.Agent.{
  TaskBatch, Moment, Identity, TaskEvent, registered, batch, ended, woke, start_tasks, run_tasks,
  WorkerConfig, WorkerError, Answers, run_worker, parse_level, is_registered, Flags, workers,
  with_env, course_of, main_course, worker_dial, dial_options, transport_of, tls_of,
}
use ioswarm.Agent.Active.{IsL4, IsReady, run_worker_active}
use ioswarm.Agent.Register.{are_in_turn, run_tasks_registers}
use ioswarm.Agent.Submit.{brought, IsServed, run_tasks-IsServed}
use ioswarm.Agent.Dial.{is_secure, IsCredited, worker_dial_secure}
use ioswarm.Agent.Single.{l4_count, main_course_single}
use ioswarm.Agent.Switch.{validate_by, validate_at-parse_level}
use ioswarm.Tests.States.{sample_geth}
use ioswarm.Tests.Validation.{sample_task, idle, empty_store}
use ioswarm.Tests.Stores.{new_store, two_entries, sample_digest}

abbrev sample_identity : Identity
sample_identity = record {
  agent_id = codes "agent";
  level = codes "L1";
  region = codes "default";
  wallet = [];
  version = codes "dev";
}

abbrev sample_moments : ℕ → Moment memory
sample_moments i = record { latency = i; active = none }

abbrev sample_batch : TaskBatch
sample_batch = record {
  batch_id = codes "b1";
  tasks = sample_task ∷ sample_task ∷ [];
  timestamp = 0;
}

-- A batch, a stream that ends, and a batch of a second stream.
abbrev task_events : List (TaskEvent memory)
task_events =
    TaskEvent.opened true true
    ∷ batch sample_batch sample_moments 17
    ∷ ended
    ∷ woke
    ∷ registered (some (record { accepted = true; reason = []; heartbeat_interval_sec = 5 }))
    ∷ TaskEvent.opened true true
    ∷ batch sample_batch sample_moments 18
    ∷ []

run_tasks_registers_example :
    are_in_turn true
      (run_tasks wide memory 40 sample_geth idle sample_identity
        (start_tasks 0 false)
        task_events).0
    ≡ true
run_tasks_registers_example =
    run_tasks_registers wide memory 40 sample_geth idle sample_identity 0 false task_events

run_tasks-IsServed_example :
    IsServed wide memory 40 sample_geth idle sample_identity
      (start_tasks 0 false)
      (brought wide memory 40 sample_geth idle sample_identity (start_tasks 0 false) task_events)
      (run_tasks wide memory 40 sample_geth idle sample_identity (start_tasks 0 false) task_events)
unfolding start_tasks
run_tasks-IsServed_example =
    run_tasks-IsServed wide memory 40 sample_geth idle sample_identity task_events
      (start_tasks 0 false) (omega arith)

validate_at-parse_level_example :
    validate_at wide memory 40 sample_geth idle (some empty_store) sample_task (codes "l4")
    ≡ validate_by wide memory 40 sample_geth idle
        (some empty_store)
        sample_task
        (if bytes_eq (to_upper (codes "l4")) (codes "l4") then parse_level (codes "l4") else 1)
validate_at-parse_level_example =
    validate_at-parse_level wide memory 40 sample_geth idle (some empty_store) sample_task
      (codes "l4")

abbrev l4_config : WorkerConfig
l4_config = record {
  coordinator = codes "host:443";
  agent_id = codes "agent";
  api_key = codes "key";
  level = codes "l4";
  region = codes "default";
  wallet = [];
  tls_cert = [];
  use_tls = true;
  data_dir = codes "/data";
  snapshot = [];
  worker_idx = 0;
}

-- A database that is opened the first time, and a stream that brings one diff.
abbrev l4_answers : Answers memory
l4_answers = record {
  dialled = true;
  registered = some (record { accepted = true; reason = []; heartbeat_interval_sec = 5 });
  database = ok no_memory;
  snapshot_stream = err open_snapshot;
  sync_events =
      opened (record { new_stream = none; send_msg = none; close_send = none })
      ∷ received (record { height = 1; entries = two_entries; digest_bytes = [] })
      ∷ [];
  context_ended = false;
  pick = false;
}

-- The store that the diff makes of a new one.
abbrev active_store : StateStore memory
active_store = (apply_diff memory new_store 1 two_entries).1

run_worker_active_example :
    IsL4 l4_config
    × (Path (Option WorkerError) none none)
    × IsReady memory memory-IsBolt l4_answers.sync_events active_store
unfolding run_worker open_state_store apply_diff load_height bytes_eq to_upper start run step
    dispatch on_opened open_error on_response on_applied mark_ready after_stream from_height
    wait_ready is_registered
run_worker_active_example =
    run_worker_active sample_digest memory memory-IsBolt l4_config l4_answers none active_store tt
      (tt, (omega arith, tt)) refl

abbrev sample_flags : Flags
sample_flags = record {
  coordinator = codes "a:1, b:2";
  api_key = codes "k";
  agent_id = codes "agent";
  level = codes "l4";
  region = codes "default";
  wallet = [];
  tls_cert = [];
  use_tls = true;
  data_dir = codes "/data";
  snapshot = [];
  mode = codes "validator";
}

main_course_single_example : l4_count (workers sample_flags) ≡ 1
unfolding bytes_eq main_course course_of with_env to_upper to_lower workers
main_course_single_example =
    main_course_single (λ name. []) sample_flags false (workers sample_flags) refl

-- TLS by the coordinator's port alone.
abbrev port_config : WorkerConfig
port_config = record l4_config { use_tls = false }

worker_dial_secure_example :
    (is_secure (worker_dial port_config).transport ≡ true)
    × IsCredited port_config
        (worker_dial port_config).transport
        (some (record { agent_id = codes "agent"; token = codes "key"; require_tls = true }))
unfolding worker_dial dial_options transport_of tls_of has_suffix bytes_eq
worker_dial_secure_example = worker_dial_secure port_config
