-- ===== src/Tests/Commands.antt =====
-- A release, a directory with a config.env, a network that takes two of three transfers, and two
-- keys, for upgrade.go, service.go, status.go, fund.go, claim.go,
-- deploy.go and llm.go.
use ioswarm.Common.{
  Option, List, ℕ, suc, ◌≡◌, ◌↔◌, refl, none, some, [], ◌∷◌, ◌++◌, codes, Bytes, bytes_eq, true,
  false, not, ◌==◌, if◌then◌else◌, length, arith, All,
}
use ioswarm.Common.Int.{parse_unsigned}
use ioswarm.Common.Text.{trim_prefix}
use ioswarm.Upgrade.{check_for_update}
use ioswarm.Upgrade.Newer.{IsLess, check_for_update_newer}
use ioswarm.Config.{Os, load_service_config, service_default, agent_status}
use ioswarm.Config.Assigned.{IsAssigned, last_value, lines_of}
use ioswarm.Config.Lines.{IsStatus, agent_status-load_service_config}
use ioswarm.Chain.{
  ChainApi, FundFlags, run_fund, ClaimFlags, with_claim_env, run_claim, DeployFlags, run_deploy,
}
use ioswarm.Chain.Created.{IsReported, run_deploy-IsReported}
use ioswarm.Chain.Once.{IsHonest, run_claim-IsHonest}
use ioswarm.Llm.{Keys, LlmMessage, detect_models}
use ioswarm.Llm.Listed.{IsServed, detect_models_routed}
use ioswarm.Chain.Sent.{IsFunded, run_fund-IsCareful}

check_for_update_newer_example :
    (check_for_update (codes "v1.9.12") (some (codes "v1.10.0"))
      ≡ some (codes "1.9.12", codes "1.10.0"))
    ↔ IsLess (1, 9, 12) (1, 10, 0)
unfolding parse_unsigned
check_for_update_newer_example =
    check_for_update_newer (codes "1") (codes "9") (codes "12") (codes "1") (codes "10") (codes "0")
      1 9 12 1 10 0 (refl, omega arith) (refl, omega arith) (refl, omega arith) (refl, omega arith)
      (refl, omega arith) (refl, omega arith)

-- Two lines for the level, of which the later counts.
abbrev config_env : Bytes
config_env =
    codes "IOSWARM_LEVEL=L1" ++ 10 ∷ (codes "IOSWARM_AGENT_ID=a=b" ++ 10 ∷ codes "IOSWARM_LEVEL=L3")

abbrev sample_os : Os
sample_os = record {
  read_file = λ path.
      if bytes_eq path (codes "/d/config.env")
      then some config_env
      else if bytes_eq path (codes "/d/agent.id")
      then some (codes " a1 ")
      else none;
  is_alive = λ pid. true;
  seconds_since = λ path. none;
}

agent_status-load_service_config_example :
    IsAssigned
      (λ name before. last_value name before (lines_of (some config_env)))
      (service_default (codes "/d"))
      (load_service_config (codes "/d") (some config_env))
    × IsStatus sample_os (codes "/d") (agent_status sample_os (codes "/d"))
unfolding bytes_eq
agent_status-load_service_config_example = agent_status-load_service_config sample_os (codes "/d")

-- The network counts what reaches it, and refuses the second transaction.
abbrev sample_api : ChainApi ℕ ℕ ℕ
sample_api = record {
  hex_to_ecdsa = λ hex. some (length hex);
  address_of = λ key. key;
  hex_to_address = length;
  dials = λ rpc net. true;
  balance_at = λ net address. some 100;
  pending_nonce_at = λ net address. some 5;
  suggest_gas_price = λ net. some 1;
  call_claimable = λ net contract wallet. some 7;
  pack_claim = some (codes "claim");
  estimate_gas = λ net sender input. some 1000;
  sign_tx = λ chain key tx. some tx.nonce;
  send_transaction = λ signed net. (not (net == 1), suc net);
}

abbrev sample_fund : FundFlags
sample_fund = record {
  private_key = codes "0xkey";
  rpc = codes "rpc";
  chain_id = 4689;
  amount_wei = 30;
  dry_run = false;
  wallets = codes "a" ∷ codes "bb" ∷ codes "ccc" ∷ [];
}

run_fund-IsCareful_example :
    IsFunded ℕ ℕ ℕ sample_api sample_fund (some 3) 0 100 5 (record { sent = 2; failed = 1 }) 3
unfolding run_fund trim_prefix bytes_eq
run_fund-IsCareful_example = run_fund-IsCareful ℕ ℕ ℕ sample_api (λ name. []) sample_fund 0

abbrev sample_claim : ClaimFlags
sample_claim = record {
  contract = codes "0xcc";
  private_key = codes "0xkey";
  rpc = codes "rpc";
  chain_id = 4689;
  dry_run = false;
}

-- The receipt comes at the third try.
abbrev sample_receipts : ℕ → Option ℕ
sample_receipts i = if i == 2 then some 1 else none

run_claim-IsHonest_example :
    IsHonest ℕ ℕ ℕ sample_api
      (with_claim_env (λ name. []) sample_claim)
      sample_receipts
      0
      (run_claim ℕ ℕ ℕ sample_api (λ name. []) sample_claim sample_receipts 0)
run_claim-IsHonest_example =
    run_claim-IsHonest ℕ ℕ ℕ sample_api (λ name. []) sample_claim sample_receipts 0

-- Keys for two of the three services.
abbrev sample_keys : Keys
sample_keys = record { claude = codes "sk-ant-api03"; gemini = []; openai = codes "sk" }

abbrev sample_chat : List LlmMessage
sample_chat = record { role = codes "user"; content = codes "hi" } ∷ []

detect_models_routed_example : All (IsServed sample_keys sample_chat) (detect_models sample_keys)
detect_models_routed_example = detect_models_routed sample_keys sample_chat

abbrev sample_deploy : DeployFlags
sample_deploy = record {
  private_key = codes "0xkey";
  coordinator = codes "0xcc";
  rpc = codes "rpc";
  chain_id = 4689;
}

-- A receipt of a contract at the address 9.
abbrev deploy_receipts : ℕ → Option (ℕ × ℕ)
deploy_receipts i = if i == 1 then some (1, 9) else none

run_deploy-IsReported_example :
    IsReported ℕ ℕ ℕ sample_api
      (96 ∷ [])
      sample_deploy
      deploy_receipts
      0
      (run_deploy ℕ ℕ ℕ sample_api (96 ∷ []) (λ name. []) sample_deploy deploy_receipts 0)
run_deploy-IsReported_example =
    run_deploy-IsReported ℕ ℕ ℕ sample_api (96 ∷ []) (λ name. []) sample_deploy deploy_receipts 0
