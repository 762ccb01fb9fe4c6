-- ===== src/Config/Status.antt =====
-- runStatus: what it reports of an agent's directory.
use ioswarm.Common.{
  ℕ, zero, suc, ◌-◌, Option, none, some, List, [], ◌∷◌, ◌++◌, Bytes, codes, bytes_eq, Bool, true,
  false, if◌then◌else◌, length,
}
use ioswarm.Common.Int.{ℤ, pos}
use ioswarm.Common.Text.{split, trim_space, has_prefix}
use ioswarm.Upgrade.{atoi}
use ioswarm.Config.Service.{newline, assignment}

pub record AgentStatus : Type 0 where
  pub running : Bool
  pub pid : ℤ
  pub agent_id : Bytes
  pub wallet : Bytes
  pub coordinator : Bytes
  pub level : Bytes
  pub region : Bytes
  pub uptime_seconds : ℕ
  pub tasks_processed : ℕ
  pub log_file : Bytes

-- What the operating system answers: os.ReadFile, whether a process takes the signal 0, and the
-- seconds since agent.pid was written, where os.Stat finds it.
pub record Os : Type 0 where
  pub read_file : Bytes → Option Bytes
  pub is_alive : ℤ → Bool
  pub seconds_since : Bytes → Option ℕ

unfoldable pub set_status : Bytes → Bytes → AgentStatus → AgentStatus
set_status key value st =
    if bytes_eq key (codes "IOSWARM_COORDINATOR")
    then record st { coordinator = value }
    else if bytes_eq key (codes "IOSWARM_LEVEL")
    then record st { level = value }
    else if bytes_eq key (codes "IOSWARM_REGION")
    then record st { region = value }
    else st

abbrev pub status_line : Option (Bytes × Bytes) → AgentStatus → AgentStatus
status_line none st = st
status_line (some (key, value)) st = set_status key value st

unfoldable pub status_lines : List Bytes → AgentStatus → AgentStatus
unfolding assignment set_status
status_lines [] st = st
status_lines (line ∷ lines) st = status_lines lines (status_line (assignment line) st)

-- The text of a small file, without the spaces around it.
abbrev pub trimmed_or_empty : Option Bytes → Bytes
trimmed_or_empty none = []
trimmed_or_empty (some text) = trim_space text

unfoldable pub read_config : Option Bytes → AgentStatus → AgentStatus
unfolding status_lines
read_config none st = st
read_config (some file) st = status_lines (split newline file) st

abbrev pub seconds_or_zero : Option ℕ → ℕ
seconds_or_zero none = 0
seconds_or_zero (some n) = n

-- Behind strconv.Atoi on the text of agent.pid.
unfoldable pub with_process : Os → Bytes → Option ℤ → AgentStatus → AgentStatus
with_process os path none st = st
with_process os path (some pid) st =
    if os.is_alive pid
    then record st {
      running = true;
      pid = pid;
      uptime_seconds = seconds_or_zero (os.seconds_since path);
    }
    else st

unfoldable pub read_pid : Os → Bytes → Option Bytes → AgentStatus → AgentStatus
unfolding with_process
read_pid os path none st = st
read_pid os path (some text) st = with_process os path (atoi (trim_space text)) st

-- `strings.Count`: a text that was counted is passed over, `skip` bytes of which are left.
unfoldable pub count_from : Bytes → ℕ → Bytes → ℕ
count_from sub skip [] = 0
count_from sub (suc skip) (c ∷ s) = count_from sub skip s
count_from sub zero (c ∷ s) =
    let over = count_from sub (length sub - 1) s in
    let next = count_from sub 0 s in if has_prefix (c ∷ s) sub then suc over else next

abbrev pub batches_in : Option Bytes → ℕ
batches_in none = 0
batches_in (some log) = count_from (codes "received batch") 0 log

unfoldable pub agent_status : Os → Bytes → AgentStatus
unfolding read_config read_pid count_from
agent_status os dir =
    let blank : AgentStatus = record {
      running = false;
      pid = pos 0;
      agent_id = trimmed_or_empty (os.read_file (dir ++ codes "/agent.id"));
      wallet = trimmed_or_empty (os.read_file (dir ++ codes "/wallet.addr"));
      coordinator = [];
      level = [];
      region = [];
      uptime_seconds = 0;
      tasks_processed = 0;
      log_file = dir ++ codes "/agent.log";
    } in
    let configured = read_config (os.read_file (dir ++ codes "/config.env")) blank in
    let pid_file = dir ++ codes "/agent.pid" in
    let with_pid = read_pid os pid_file (os.read_file pid_file) configured in
    record with_pid { tasks_processed = batches_in (os.read_file (dir ++ codes "/agent.log")) }
