-- ===== src/Agent/Worker.antt =====
-- runWorker: the connection, the registration, and the set-up of L4.
use ioswarm.Common.{
  ℕ, ◌*◌, Option, none, some, List, Bytes, codes, bytes_eq, Bool, ◌&&◌, ◌||◌, not, ◌==◌, ltb,
  if◌then◌else◌, length, Result, ok, err, ◌>>=◌, map_err,
}
use ioswarm.Common.Text.{to_upper, has_suffix}
use ioswarm.Errors.{Error}
use ioswarm.Store.{Bolt, StateStore, open_state_store}
use ioswarm.Snapshot.{SnapshotError, load_snapshot}
use ioswarm.StateSync.{StateSync, Event, start, run, wait_ready}
use ioswarm.Agent.Tasks.{RegisterResponse, Identity, is_registered}

pub record WorkerConfig : Type 0 where
  pub coordinator : Bytes
  pub agent_id : Bytes
  pub api_key : Bytes
  pub level : Bytes
  pub region : Bytes
  pub wallet : Bytes
  pub tls_cert : Bytes
  pub use_tls : Bool
  pub data_dir : Bytes
  pub snapshot : Bytes
  pub worker_idx : ℕ

-- What runWorker hands to register and to streamTasks. `version` is the program's.
unfoldable pub identity_of : Bytes → WorkerConfig → Identity
identity_of version cfg = record {
  agent_id = cfg.agent_id;
  level = cfg.level;
  region = cfg.region;
  wallet = cfg.wallet;
  version = version;
}

-- credentials.NewClientTLSFromFile, NewTLS and insecure.NewCredentials
pub data Transport : Type 0 where
  tls_from_file : Bytes → Transport
  tls_system insecure : Transport

pub record AgentCred : Type 0 where
  pub agent_id : Bytes
  pub token : Bytes
  pub require_tls : Bool

pub record DialOptions : Type 0 where
  pub transport : Transport
  pub per_rpc : Option AgentCred
  pub max_message_size : ℕ

-- `if !useTLS && tlsCert == "" && strings.HasSuffix(coordinator, ":443")`
unfoldable pub tls_of : WorkerConfig → Bool
tls_of cfg = cfg.use_tls || (length cfg.tls_cert == 0 && has_suffix cfg.coordinator (codes ":443"))

unfoldable pub transport_of : Bytes → Bool → Transport
transport_of tls_cert use_tls =
    if not (length tls_cert == 0)
    then tls_from_file tls_cert
    else if use_tls
    then tls_system
    else insecure

-- dialCoordinator: what it hands to gRPC.
unfoldable pub dial_options : Bytes → Bytes → Bytes → Bool → DialOptions
unfolding transport_of
dial_options agent_id api_key tls_cert use_tls = record {
  transport = transport_of tls_cert use_tls;
  per_rpc =
      if not (length api_key == 0) && not (length agent_id == 0)
      then some (record {
        agent_id = agent_id;
        token = api_key;
        require_tls = use_tls || not (length tls_cert == 0);
      })
      else none;
  max_message_size = 32 * (1024 * 1024);
}

-- dialCoordinator as runWorker calls it.
unfoldable pub worker_dial : WorkerConfig → DialOptions
unfolding tls_of dial_options
worker_dial cfg = dial_options cfg.agent_id cfg.api_key cfg.tls_cert (tls_of cfg)

-- The pause between heartbeats, in seconds.
unfoldable pub heartbeat_interval : RegisterResponse → ℕ
heartbeat_interval resp =
    if ltb resp.heartbeat_interval_sec 1 then 10 else resp.heartbeat_interval_sec

pub data WorkerError : Type 0 where
  connect_failed registration_failed sync_not_ready : WorkerError
  store_failed : Error → WorkerError
  snapshot_failed : SnapshotError → WorkerError

unfoldable pub is_l4_worker : WorkerConfig → Bool
is_l4_worker cfg =
    bytes_eq (to_upper cfg.level) (codes "L4")
    && not (length cfg.data_dir == 0)
    && cfg.worker_idx == 0

-- What the environment answers: the dial, the registration, the database, the snapshot's stream,
-- and, until WaitReady comes back, what reaches the sync loop, whether the context has ended, and
-- which of the two `select` picks.
pub record Answers (b : Bolt) : Type 0 where
  pub dialled : Bool
  pub registered : Option RegisterResponse
  pub database : Result Error b.Db
  pub snapshot_stream : Result SnapshotError Bytes
  pub sync_events : List Event
  pub context_ended : Bool
  pub pick : Bool

module _ (b : Bolt) where
  -- Behind WaitReady. Where neither case of `select` is there yet, the timeout of 60 seconds ends
  -- the context.
  unfoldable pub waited : Option Bool → StateSync b → Result WorkerError (StateStore b)
  waited none ss = err sync_not_ready
  waited (some is_nil) ss = if is_nil then ok ss.store else err sync_not_ready

  unfoldable pub sync_store : Answers b → StateStore b → Result WorkerError (StateStore b)
  unfolding waited
  sync_store a s =
      let ss = run b (start b s) a.sync_events in
      waited (wait_ready ss.ready a.context_ended a.pick) ss

module _ (sha256 : Bytes → Bytes) (b : Bolt) where
  unfoldable pub bootstrapped :
      Result SnapshotError (ℕ × ℕ) × StateStore b → Result WorkerError (StateStore b)
  bootstrapped (ok loaded, s) = ok s
  bootstrapped (err e, s) = err (snapshot_failed e)

  -- `if snapshot != "" && stateStore.Height() == 0`
  unfoldable pub bootstrap :
      Bytes → Result SnapshotError Bytes → StateStore b → Result WorkerError (StateStore b)
  unfolding bootstrapped
  bootstrap snapshot stream s =
      if not (length snapshot == 0) && s.height == 0
      then bootstrapped (load_snapshot sha256 b stream s)
      else ok s

  unfoldable pub set_up_l4 : WorkerConfig → Answers b → Result WorkerError (StateStore b)
  unfolding bootstrap sync_store
  set_up_l4 cfg a = do
    s ← map_err store_failed (open_state_store b a.database)
    s' ← bootstrap cfg.snapshot a.snapshot_stream s
    sync_store b a s'

  -- `activeStateStore.Store` comes last.
  unfoldable pub published :
      Option (StateStore b)
      → Result WorkerError (StateStore b)
      → Option WorkerError × Option (StateStore b)
  published active (ok s) = (none, some s)
  published active (err e) = (some e, active)

  -- Up to streamTasks: the error that ends the worker, and what `activeStateStore` holds, which
  -- is the last argument before.
  unfoldable pub run_worker :
      WorkerConfig → Answers b → Option (StateStore b) → Option WorkerError × Option (StateStore b)
  unfolding is_l4_worker set_up_l4 published
  run_worker cfg a active =
      if not a.dialled
      then (some connect_failed, active)
      else if not (is_registered a.registered)
      then (some registration_failed, active)
      else if is_l4_worker cfg
      then published active (set_up_l4 cfg a)
      else (none, active)
