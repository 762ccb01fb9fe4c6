-- ===== src/Config/Lines.antt =====
-- The two readers of config.env agree, and what else the status shows.
use ioswarm.Common.{
  arith, if_elim, ◌≡◌, refl, ◌∙◌, Option, none, some, List, [], ◌∷◌, ◌++◌, Bytes, codes, bytes_eq,
  if◌then◌else◌,
}
use ioswarm.Common.Int.{ℤ}
use ioswarm.Common.Text.{split, trim_space}
use ioswarm.Upgrade.{atoi}
use ioswarm.Config.Service.{newline, assignment, service_default, load_service_config}
use ioswarm.Config.Status.{
  AgentStatus, Os, set_status, status_line, status_lines, read_config, with_process, read_pid,
  trimmed_or_empty, agent_status,
}
use ioswarm.Config.Assigned.{
  value_of, last_value, lines_of, IsAssigned, apart, load_service_config-IsAssigned,
}

-- The three fields that the status has too, and the two that the lines leave alone.
pub record IsShown (set : Bytes → Bytes → Bytes) (st st' : AgentStatus) : Type 0 where
  pub coordinator : st'.coordinator ≡ set (codes "IOSWARM_COORDINATOR") st.coordinator
  pub level : st'.level ≡ set (codes "IOSWARM_LEVEL") st.level
  pub region : st'.region ≡ set (codes "IOSWARM_REGION") st.region
  pub agent_id : st'.agent_id ≡ st.agent_id
  pub wallet : st'.wallet ≡ st.wallet

IsShown-refl : (st : AgentStatus) → IsShown (λ name before. before) st st
IsShown-refl st = record {
  coordinator = refl;
  level = refl;
  region = refl;
  agent_id = refl;
  wallet = refl;
}

set_status-IsShown :
    (key value : Bytes) (st : AgentStatus)
    → IsShown
        (λ name before. if bytes_eq key name then value else before)
        st
        (set_status key value st)
unfolding set_status bytes_eq
set_status-IsShown key value st = record {
  coordinator = ground arith;
  level = ground (arith, apart key (codes "IOSWARM_COORDINATOR") (codes "IOSWARM_LEVEL") refl);
  region = ground (
    arith,
    apart key (codes "IOSWARM_COORDINATOR") (codes "IOSWARM_REGION") refl,
    apart key (codes "IOSWARM_LEVEL") (codes "IOSWARM_REGION") refl,
  );
  agent_id = ground arith;
  wallet = ground arith;
}

status_line-IsShown :
    (a : Option (Bytes × Bytes)) (st : AgentStatus)
    → IsShown (λ name before. value_of name before a) st (status_line a st)
status_line-IsShown none st = IsShown-refl st
status_line-IsShown (some (key, value)) st = set_status-IsShown key value st

status_lines-IsShown :
    (lines : List Bytes) (st : AgentStatus)
    → IsShown (λ name before. last_value name before lines) st (status_lines lines st)
unfolding status_lines
status_lines-IsShown [] st = IsShown-refl st
status_lines-IsShown (line ∷ lines) st =
    let one = status_line-IsShown (assignment line) st in
    let rest = status_lines-IsShown lines (status_line (assignment line) st) in
    record {
      coordinator = rw (← one.coordinator) rest.coordinator;
      level = rw (← one.level) rest.level;
      region = rw (← one.region) rest.region;
      agent_id = rest.agent_id ∙ one.agent_id;
      wallet = rest.wallet ∙ one.wallet;
    }

read_config-IsShown :
    (file : Option Bytes) (st : AgentStatus)
    → IsShown (λ name before. last_value name before (lines_of file)) st (read_config file st)
unfolding read_config
read_config-IsShown none st = status_lines-IsShown [] st
read_config-IsShown (some file) st = status_lines-IsShown (split newline file) st

read_pid-IsShown :
    (os : Os) (path : Bytes) (file : Option Bytes) (st : AgentStatus)
    → IsShown (λ name before. before) st (read_pid os path file st)
unfolding read_pid
read_pid-IsShown os path none st = IsShown-refl st
read_pid-IsShown os path (some text) st = found (atoi (trim_space text))
  where
    found : (pid : Option ℤ) → IsShown (λ name before. before) st (with_process os path pid st)
    found none = IsShown-refl st
    found (some pid) =
        if_elim (IsShown (λ name before. before) st) (os.is_alive pid)
          (λ t. record {
            coordinator = refl;
            level = refl;
            region = refl;
            agent_id = refl;
            wallet = refl;
          })
          (λ t. IsShown-refl st)

-- What a file holds without the blanks around it; nothing if it is not there.
abbrev pub trimmed : Option Bytes → Bytes
trimmed none = []
trimmed (some text) = trim_space text

trimmed_lem : (file : Option Bytes) → trimmed_or_empty file ≡ trimmed file
trimmed_lem none = refl
trimmed_lem (some text) = refl

-- What the status shows of the agent: the address, the level and the region from config.env, the
-- agent id and the wallet from files of their own.
pub record IsStatus (os : Os) (dir : Bytes) (st : AgentStatus) : Type 0 where
  pub coordinator :
      st.coordinator
      ≡ last_value
          (codes "IOSWARM_COORDINATOR")
          []
          (lines_of (os.read_file (dir ++ codes "/config.env")))
  pub level :
      st.level
      ≡ last_value (codes "IOSWARM_LEVEL") [] (lines_of (os.read_file (dir ++ codes "/config.env")))
  pub region :
      st.region
      ≡ last_value
          (codes "IOSWARM_REGION")
          []
          (lines_of (os.read_file (dir ++ codes "/config.env")))
  pub agent_id : st.agent_id ≡ trimmed (os.read_file (dir ++ codes "/agent.id"))
  pub wallet : st.wallet ≡ trimmed (os.read_file (dir ++ codes "/wallet.addr"))

-- The service is installed with the value, for each of its six names, of the last line of
-- config.env that assigns the name, behind the first equals sign of the line; a name that no line
-- assigns, or the lack of the file, leaves the service's default. The status shows the same lines'
-- values for the coordinator, the level and the region, and nothing where there is none; for its
-- agent id and its wallet it shows what agent.id and wallet.addr hold, not config.env, without
-- the blanks around it, and nothing where the file is not there.
pub agent_status-load_service_config :
    (os : Os) (dir : Bytes)
    → IsAssigned
        (λ name before.
          last_value name before (lines_of (os.read_file (dir ++ codes "/config.env"))))
        (service_default dir)
        (load_service_config dir (os.read_file (dir ++ codes "/config.env")))
      × IsStatus os dir (agent_status os dir)
unfolding agent_status
agent_status-load_service_config os dir =
    let file = os.read_file (dir ++ codes "/config.env") in
    let shown = read_config-IsShown file _ in
    let kept =
      read_pid-IsShown os (dir ++ codes "/agent.pid") (os.read_file (dir ++ codes "/agent.pid"))
        _ in
    (
      load_service_config-IsAssigned dir file,
      record {
        coordinator = kept.coordinator ∙ shown.coordinator;
        level = kept.level ∙ shown.level;
        region = kept.region ∙ shown.region;
        agent_id =
            kept.agent_id ∙ shown.agent_id ∙ trimmed_lem (os.read_file (dir ++ codes "/agent.id"));
        wallet =
            kept.wallet ∙ shown.wallet ∙ trimmed_lem (os.read_file (dir ++ codes "/wallet.addr"));
      },
    )
