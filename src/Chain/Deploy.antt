-- ===== src/Chain/Deploy.antt =====
-- runDeploy.
use ioswarm.Common.{
  ℕ, ◌*◌, ◌/◌, ◌%◌, ◌^◌, Option, none, some, ◌++◌, Bytes, codes, Bool, true, false, ◌==◌,
  if◌then◌else◌, length,
}
use ioswarm.Common.BigEndian.{to_bytes}
use ioswarm.Common.Text.{trim_prefix}
use ioswarm.Agent.{or_env}
use ioswarm.Chain.Api.{Transaction, ChainApi}
use ioswarm.Chain.Receipt.{wait_for}

pub record DeployFlags : Type 0 where
  pub private_key : Bytes
  pub coordinator : Bytes
  pub rpc : Bytes
  pub chain_id : ℕ

pub data DeployError : Type 0 where
  deploy_key_missing coordinator_missing deploy_key_bad deploy_not_connected : DeployError
  deploy_no_balance zero_deployer_balance deploy_no_nonce deploy_no_price : DeployError
  deploy_not_signed deploy_not_sent : DeployError

-- The gas limit, and the address of the contract.
pub data DeployOutcome : Type 0 where
  deploy_refused : DeployError → DeployOutcome
  deploy_reverted deploy_unconfirmed : ℕ → DeployOutcome
  deployed : ℕ → ℕ → DeployOutcome

-- 30% more than the estimate, in 64 bits, or 1500000 where the estimate fails.
unfoldable pub gas_limit_of : Option ℕ → ℕ
gas_limit_of none = 1500000
gas_limit_of (some estimate) = estimate * 130 % 2 ^ 64 / 100

-- Behind the wait, for a receipt's status and contract address.
unfoldable pub deploy_settled : ℕ → Option (ℕ × ℕ) → DeployOutcome
deploy_settled gas none = deploy_unconfirmed gas
deploy_settled gas (some (status, contract)) =
    if status == 0 then deploy_reverted gas else deployed gas contract

-- `bytecode` is what the constant of the contract's code decodes to.
module _ (Key Signed Network : Type 0) (api : ChainApi Key Signed Network) (bytecode : Bytes) where
  -- The bytecode and the constructor's argument, an address in 32 bytes.
  unfoldable pub deploy_data : DeployFlags → Bytes
  deploy_data flags = bytecode ++ to_bytes 32 (api.hex_to_address flags.coordinator)

  abbrev pub creation_tx : ℕ → ℕ → ℕ → Bytes → Transaction
  creation_tx nonce gas price input = record {
    nonce = nonce;
    to = none;
    value = 0;
    gas_limit = gas;
    gas_price = price;
    input = input;
  }

  unfoldable pub after_deploy : ℕ → (ℕ → Option (ℕ × ℕ)) → Bool × Network → DeployOutcome × Network
  unfolding deploy_settled wait_for
  after_deploy gas receipts (false, net) = (deploy_refused deploy_not_sent, net)
  after_deploy gas receipts (true, net) = (deploy_settled gas (wait_for 60 receipts), net)

  unfoldable pub send_deploy :
      ℕ → (ℕ → Option (ℕ × ℕ)) → Option Signed → Network → DeployOutcome × Network
  unfolding after_deploy
  send_deploy gas receipts none net = (deploy_refused deploy_not_signed, net)
  send_deploy gas receipts (some tx) net = after_deploy gas receipts (api.send_transaction tx net)

  unfoldable pub make_deploy :
      DeployFlags
      → Key
      → (ℕ → Option (ℕ × ℕ))
      → Option ℕ
      → Option ℕ
      → Network
      → DeployOutcome × Network
  unfolding send_deploy gas_limit_of deploy_data
  make_deploy flags key receipts none price net = (deploy_refused deploy_no_nonce, net)
  make_deploy flags key receipts (some nonce) none net = (deploy_refused deploy_no_price, net)
  make_deploy flags key receipts (some nonce) (some price) net =
      let input = deploy_data flags in
      let gas = gas_limit_of (api.estimate_gas net (api.address_of key) input) in
      send_deploy gas receipts (api.sign_tx flags.chain_id key (creation_tx nonce gas price input))
        net

  unfoldable pub check_deployer :
      DeployFlags → Key → (ℕ → Option (ℕ × ℕ)) → Option ℕ → Network → DeployOutcome × Network
  unfolding make_deploy
  check_deployer flags key receipts none net = (deploy_refused deploy_no_balance, net)
  check_deployer flags key receipts (some balance) net =
      if balance == 0
      then (deploy_refused zero_deployer_balance, net)
      else make_deploy flags key receipts (api.pending_nonce_at net (api.address_of key))
          (api.suggest_gas_price net) net

  unfoldable pub deploy_with :
      DeployFlags → Option Key → (ℕ → Option (ℕ × ℕ)) → Network → DeployOutcome × Network
  unfolding check_deployer
  deploy_with flags none receipts net = (deploy_refused deploy_key_bad, net)
  deploy_with flags (some key) receipts net =
      if api.dials flags.rpc net
      then check_deployer flags key receipts (api.balance_at net (api.address_of key)) net
      else (deploy_refused deploy_not_connected, net)

  unfoldable pub run_deploy :
      (Bytes → Bytes) → DeployFlags → (ℕ → Option (ℕ × ℕ)) → Network → DeployOutcome × Network
  unfolding deploy_with
  run_deploy getenv flags receipts net =
      let private_key = or_env getenv (codes "IOSWARM_PRIVATE_KEY") flags.private_key in
      if length private_key == 0
      then (deploy_refused deploy_key_missing, net)
      else if length flags.coordinator == 0
      then (deploy_refused coordinator_missing, net)
      else deploy_with flags (api.hex_to_ecdsa (trim_prefix private_key (codes "0x"))) receipts net
