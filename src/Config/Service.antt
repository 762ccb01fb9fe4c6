-- ===== src/Config/Service.antt =====
-- loadServiceConfig, and the command line that the service is installed with.
use ioswarm.Common.{
  ℕ, Option, none, some, List, [], ◌∷◌, ◌++◌, Bytes, codes, bytes_eq, ◌==◌, if◌then◌else◌, length,
}
use ioswarm.Common.Text.{split, split_n}

pub record ServiceConfig : Type 0 where
  pub agent_bin : Bytes
  pub coordinator : Bytes
  pub agent_id : Bytes
  pub level : Bytes
  pub region : Bytes
  pub wallet : Bytes
  pub api_key : Bytes
  pub log_file : Bytes

abbrev pub newline : ℕ
newline = 10

abbrev pub equals : ℕ
equals = 61

-- `len(parts) != 2`
abbrev pub two_parts : List Bytes → Option (Bytes × Bytes)
two_parts (key ∷ value ∷ []) = some (key, value)
two_parts _ = none

-- A line of config.env, where it has the key and the value that the loops look at.
unfoldable pub assignment : Bytes → Option (Bytes × Bytes)
assignment line = two_parts (split_n equals 2 line)

-- `switch parts[0]`
unfoldable pub set_service : Bytes → Bytes → ServiceConfig → ServiceConfig
set_service key value cfg =
    if bytes_eq key (codes "IOSWARM_COORDINATOR")
    then record cfg { coordinator = value }
    else if bytes_eq key (codes "IOSWARM_AGENT_ID")
    then record cfg { agent_id = value }
    else if bytes_eq key (codes "IOSWARM_LEVEL")
    then record cfg { level = value }
    else if bytes_eq key (codes "IOSWARM_REGION")
    then record cfg { region = value }
    else if bytes_eq key (codes "IOSWARM_WALLET")
    then record cfg { wallet = value }
    else if bytes_eq key (codes "IOSWARM_API_KEY")
    then record cfg { api_key = value }
    else cfg

abbrev pub service_line : Option (Bytes × Bytes) → ServiceConfig → ServiceConfig
service_line none cfg = cfg
service_line (some (key, value)) cfg = set_service key value cfg

unfoldable pub service_lines : List Bytes → ServiceConfig → ServiceConfig
unfolding assignment set_service
service_lines [] cfg = cfg
service_lines (line ∷ lines) cfg = service_lines lines (service_line (assignment line) cfg)

abbrev pub service_default : Bytes → ServiceConfig
service_default dir = record {
  agent_bin = dir ++ codes "/ioswarm-agent";
  coordinator = [];
  agent_id = [];
  level = codes "L2";
  region = codes "default";
  wallet = [];
  api_key = [];
  log_file = dir ++ codes "/agent.log";
}

-- `file` is what os.ReadFile gives for config.env, or none for its error.
unfoldable pub load_service_config : Bytes → Option Bytes → ServiceConfig
unfolding service_lines
load_service_config dir none = service_default dir
load_service_config dir (some file) = service_lines (split newline file) (service_default dir)

-- installService goes on only with an agent id.
unfoldable pub install_config : Bytes → Option Bytes → Option ServiceConfig
unfolding load_service_config
install_config dir file =
    let cfg = load_service_config dir file in if length cfg.agent_id == 0 then none else some cfg

-- The command of both templates: the program and its arguments.
unfoldable pub service_command : ServiceConfig → List Bytes
service_command cfg =
    cfg.agent_bin
    ∷ (codes "--coordinator=" ++ cfg.coordinator)
    ∷ (codes "--agent-id=" ++ cfg.agent_id)
    ∷ (codes "--level=" ++ cfg.level)
    ∷ (codes "--region=" ++ cfg.region)
    ∷ (codes "--wallet=" ++ cfg.wallet)
    ∷ []

-- The variables of both templates: the key, where there is one.
unfoldable pub service_environment : ServiceConfig → List (Bytes × Bytes)
service_environment cfg =
    if length cfg.api_key == 0 then [] else (codes "IOSWARM_API_KEY", cfg.api_key) ∷ []
