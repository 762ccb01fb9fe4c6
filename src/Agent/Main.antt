-- ===== src/Agent/Main.antt =====
-- main: the fallbacks of the flags, the mode, and the workers that it starts.
use ioswarm.Common.{
  ℕ, suc, List, [], ◌∷◌, Bytes, codes, bytes_eq, Bool, ◌&&◌, ◌==◌, if◌then◌else◌, length, map,
}
use ioswarm.Common.Text.{to_upper, to_lower, trim_space, split}
use ioswarm.Agent.Level.{comma, worker_key}
use ioswarm.Agent.Worker.{WorkerConfig}

-- The flags that the code below reads; the flags of the language-model proxy are left out.
pub record Flags : Type 0 where
  pub coordinator : Bytes
  pub api_key : Bytes
  pub agent_id : Bytes
  pub level : Bytes
  pub region : Bytes
  pub wallet : Bytes
  pub tls_cert : Bytes
  pub use_tls : Bool
  pub data_dir : Bytes
  pub snapshot : Bytes
  pub mode : Bytes

-- `if s == "" { s = os.Getenv(name) }`
abbrev pub or_env : (Bytes → Bytes) → Bytes → Bytes → Bytes
or_env getenv name s = if length s == 0 then getenv name else s

abbrev pub default_coordinator : Bytes
default_coordinator = codes "127.0.0.1:14689"

abbrev pub coordinator_or_env : (Bytes → Bytes) → Bytes → Bytes
coordinator_or_env getenv s =
    let env = getenv (codes "IOSWARM_COORDINATOR") in
    if bytes_eq s default_coordinator then (if length env == 0 then s else env) else s

-- `getenv` is os.Getenv, which gives the empty text for a name that is not set.
unfoldable pub with_env : (Bytes → Bytes) → Flags → Flags
with_env getenv flags = record flags {
  api_key = or_env getenv (codes "IOSWARM_API_KEY") flags.api_key;
  agent_id = or_env getenv (codes "IOSWARM_AGENT_ID") flags.agent_id;
  wallet = or_env getenv (codes "IOSWARM_WALLET") flags.wallet;
  coordinator = coordinator_or_env getenv flags.coordinator;
  data_dir = or_env getenv (codes "IOSWARM_DATADIR") flags.data_dir;
}

-- What main comes to: the proxy alone, an exit with the status 1, or the workers, with the proxy
-- beside them or not.
pub data Course : Type 0 where
  llm_proxy missing_agent_id missing_data_dir : Course
  validators : Bool → List WorkerConfig → Course

abbrev pub worker_config : Flags → List Bytes → ℕ → Bytes → WorkerConfig
worker_config flags api_keys idx coord = record {
  coordinator = coord;
  agent_id = flags.agent_id;
  api_key = worker_key flags.api_key api_keys idx;
  level = flags.level;
  region = flags.region;
  wallet = flags.wallet;
  tls_cert = flags.tls_cert;
  use_tls = flags.use_tls;
  data_dir = flags.data_dir;
  snapshot = flags.snapshot;
  worker_idx = idx;
}

-- The workers from one index on.
unfoldable pub workers_from : Flags → List Bytes → ℕ → List Bytes → List WorkerConfig
unfolding worker_key
workers_from flags api_keys idx [] = []
workers_from flags api_keys idx (coord ∷ coords) =
    worker_config flags api_keys idx coord ∷ workers_from flags api_keys (suc idx) coords

-- One worker for each coordinator, in the order of their indices.
unfoldable pub workers : Flags → List WorkerConfig
unfolding workers_from
workers flags =
    workers_from flags (map trim_space (split comma flags.api_key)) 0
      (map trim_space (split comma flags.coordinator))

-- Behind the fallbacks.
unfoldable pub course_of : Flags → Course
unfolding workers
course_of flags =
    if bytes_eq (to_lower flags.mode) (codes "llm")
    then llm_proxy
    else if length flags.agent_id == 0
    then missing_agent_id
    else if bytes_eq (to_upper flags.level) (codes "L4") && length flags.data_dir == 0
    then missing_data_dir
    else validators (bytes_eq (to_lower flags.mode) (codes "both")) (workers flags)

unfoldable pub main_course : (Bytes → Bytes) → Flags → Course
unfolding course_of with_env
main_course getenv flags = course_of (with_env getenv flags)
