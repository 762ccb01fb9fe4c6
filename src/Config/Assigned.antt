-- ===== src/Config/Assigned.antt =====
-- loadServiceConfig: the last line of config.env for a name counts.
use mathlib.Core.Path.{subst⁻¹}
use ioswarm.Common.{
  arith, bytes_eq_iff, ◌≡◌, refl, Option, none, some, List, [], ◌∷◌, Bytes, codes, bytes_eq, true,
  false, if◌then◌else◌,
}
use ioswarm.Common.Text.{split}
use ioswarm.Config.Service.{
  ServiceConfig, newline, assignment, set_service, service_line, service_lines, service_default,
  load_service_config,
}

abbrev pub value_of : Bytes → Bytes → Option (Bytes × Bytes) → Bytes
value_of name before none = before
value_of name before (some (key, value)) = if bytes_eq key name then value else before

-- What a name holds behind some lines: the value of the last line that assigns it.
abbrev pub last_value : Bytes → Bytes → List Bytes → Bytes
last_value name before [] = before
last_value name before (line ∷ lines) =
    last_value name (value_of name before (assignment line)) lines

-- The lines of a file; none of a file that is not there.
abbrev pub lines_of : Option Bytes → List Bytes
lines_of none = []
lines_of (some file) = split newline file

-- Every name's field is set in one way.
pub record IsAssigned (set : Bytes → Bytes → Bytes) (cfg cfg' : ServiceConfig) : Type 0 where
  pub coordinator : cfg'.coordinator ≡ set (codes "IOSWARM_COORDINATOR") cfg.coordinator
  pub agent_id : cfg'.agent_id ≡ set (codes "IOSWARM_AGENT_ID") cfg.agent_id
  pub level : cfg'.level ≡ set (codes "IOSWARM_LEVEL") cfg.level
  pub region : cfg'.region ≡ set (codes "IOSWARM_REGION") cfg.region
  pub wallet : cfg'.wallet ≡ set (codes "IOSWARM_WALLET") cfg.wallet
  pub api_key : cfg'.api_key ≡ set (codes "IOSWARM_API_KEY") cfg.api_key

-- A key is one name at most.
pub apart :
    (key name other : Bytes)
    → bytes_eq name other ≡ false
    → bytes_eq key name ≡ true
    → bytes_eq key other ≡ false
apart key name other differ t =
    subst⁻¹ (λ k. bytes_eq k other ≡ false) ((bytes_eq_iff key name).0 t) differ

set_service-IsAssigned :
    (key value : Bytes) (cfg : ServiceConfig)
    → IsAssigned
        (λ name before. if bytes_eq key name then value else before)
        cfg
        (set_service key value cfg)
unfolding set_service bytes_eq
set_service-IsAssigned key value cfg = record {
  coordinator = ground arith;
  agent_id =
      ground (arith, apart key (codes "IOSWARM_COORDINATOR") (codes "IOSWARM_AGENT_ID") refl);
  level = ground (
    arith,
    apart key (codes "IOSWARM_COORDINATOR") (codes "IOSWARM_LEVEL") refl,
    apart key (codes "IOSWARM_AGENT_ID") (codes "IOSWARM_LEVEL") refl,
  );
  region = ground (
    arith,
    apart key (codes "IOSWARM_COORDINATOR") (codes "IOSWARM_REGION") refl,
    apart key (codes "IOSWARM_AGENT_ID") (codes "IOSWARM_REGION") refl,
    apart key (codes "IOSWARM_LEVEL") (codes "IOSWARM_REGION") refl,
  );
  wallet = ground (
    arith,
    apart key (codes "IOSWARM_COORDINATOR") (codes "IOSWARM_WALLET") refl,
    apart key (codes "IOSWARM_AGENT_ID") (codes "IOSWARM_WALLET") refl,
    apart key (codes "IOSWARM_LEVEL") (codes "IOSWARM_WALLET") refl,
    apart key (codes "IOSWARM_REGION") (codes "IOSWARM_WALLET") refl,
  );
  api_key = ground (
    arith,
    apart key (codes "IOSWARM_COORDINATOR") (codes "IOSWARM_API_KEY") refl,
    apart key (codes "IOSWARM_AGENT_ID") (codes "IOSWARM_API_KEY") refl,
    apart key (codes "IOSWARM_LEVEL") (codes "IOSWARM_API_KEY") refl,
    apart key (codes "IOSWARM_REGION") (codes "IOSWARM_API_KEY") refl,
    apart key (codes "IOSWARM_WALLET") (codes "IOSWARM_API_KEY") refl,
  );
}

service_line-IsAssigned :
    (a : Option (Bytes × Bytes)) (cfg : ServiceConfig)
    → IsAssigned (λ name before. value_of name before a) cfg (service_line a cfg)
service_line-IsAssigned none cfg = record {
  coordinator = refl;
  agent_id = refl;
  level = refl;
  region = refl;
  wallet = refl;
  api_key = refl;
}
service_line-IsAssigned (some (key, value)) cfg = set_service-IsAssigned key value cfg

service_lines-IsAssigned :
    (lines : List Bytes) (cfg : ServiceConfig)
    → IsAssigned (λ name before. last_value name before lines) cfg (service_lines lines cfg)
unfolding service_lines
service_lines-IsAssigned [] cfg = record {
  coordinator = refl;
  agent_id = refl;
  level = refl;
  region = refl;
  wallet = refl;
  api_key = refl;
}
service_lines-IsAssigned (line ∷ lines) cfg =
    let one = service_line-IsAssigned (assignment line) cfg in
    let rest = service_lines-IsAssigned lines (service_line (assignment line) cfg) in
    record {
      coordinator = rw (← one.coordinator) rest.coordinator;
      agent_id = rw (← one.agent_id) rest.agent_id;
      level = rw (← one.level) rest.level;
      region = rw (← one.region) rest.region;
      wallet = rw (← one.wallet) rest.wallet;
      api_key = rw (← one.api_key) rest.api_key;
    }

pub load_service_config-IsAssigned :
    (dir : Bytes) (file : Option Bytes)
    → IsAssigned
        (λ name before. last_value name before (lines_of file))
        (service_default dir)
        (load_service_config dir file)
unfolding load_service_config
load_service_config-IsAssigned dir none = service_lines-IsAssigned [] (service_default dir)
load_service_config-IsAssigned dir (some file) =
    service_lines-IsAssigned (split newline file) (service_default dir)
