-- ===== src/Chain/Created.antt =====
-- A deployment sends one transaction at most, and reports what the first receipt says.
use ioswarm.Common.{
  ℕ, ◌<◌, ◌≡◌, refl, Option, none, some, Bytes, codes, Bool, true, false, ◌==◌, ==_iff,
  if◌then◌else◌, if_elim, length, arith,
}
use mathlib.Core.Path.{subst}
use ioswarm.Common.Text.{trim_prefix}
use ioswarm.Agent.{or_env}
use ioswarm.Chain.Api.{ChainApi}
use ioswarm.Chain.Receipt.{wait_for}
use ioswarm.Chain.Wait.{IsFirst, IsWait, wait_for-IsWait}
use ioswarm.Chain.Deploy.{
  DeployFlags, DeployError, deploy_not_sent, DeployOutcome, deploy_refused, deploy_reverted,
  deploy_unconfirmed, deployed, gas_limit_of, deploy_settled, deploy_data, creation_tx,
  after_deploy, send_deploy, make_deploy, check_deployer, deploy_with, run_deploy,
}

module _ (Key Signed Network : Type 0) (api : ChainApi Key Signed Network) (bytecode : Bytes) where
  -- The creation of the contract, handed over by an account with a balance, and whether the network
  -- accepted it.
  pub record IsCreation (flags : DeployFlags) (net : Network) (gas : ℕ) (accepted : Bool)
      (net' : Network) : Type 0 where
    pub key : Key
    pub nonce : ℕ
    pub price : ℕ
    pub balance : ℕ
    pub tx : Signed
    pub has_balance : api.balance_at net (api.address_of key) ≡ some balance
    pub positive : 0 < balance
    pub next_nonce : api.pending_nonce_at net (api.address_of key) ≡ some nonce
    pub gas_estimated :
        gas
        ≡ gas_limit_of (
            api.estimate_gas net
              (api.address_of key)
              (deploy_data Key Signed Network api bytecode flags))
    pub signed :
        api.sign_tx flags.chain_id key (
          creation_tx Key Signed Network api bytecode nonce gas price
            (deploy_data Key Signed Network api bytecode flags))
        ≡ some tx
    pub handed_over : api.send_transaction tx net ≡ (accepted, net')

  abbrev pub IsDeployRefusal : DeployFlags → Network → DeployError → Network → Type 0
  IsDeployRefusal flags net deploy_not_sent net' = (gas : ℕ) × IsCreation flags net gas false net'
  IsDeployRefusal flags net _ net' = net' ≡ net

  abbrev pub IsReported :
      DeployFlags → (ℕ → Option (ℕ × ℕ)) → Network → DeployOutcome × Network → Type 0
  IsReported flags receipts net (deploy_refused e, net') = IsDeployRefusal flags net e net'
  IsReported flags receipts net (deploy_reverted gas, net') =
      IsCreation flags net gas true net' × ((contract : ℕ) × IsFirst 60 receipts (0, contract))
  IsReported flags receipts net (deployed gas contract, net') =
      IsCreation flags net gas true net'
      × ((status : ℕ) × (0 < status) × IsFirst 60 receipts (status, contract))
  IsReported flags receipts net (deploy_unconfirmed gas, net') =
      IsCreation flags net gas true net' × ((i : ℕ) → i < 60 → receipts i ≡ none)

  above_zero : (n : ℕ) → (n == 0) ≡ false → 0 < n
  above_zero n e = ground arith

  settled-IsReported :
      (flags : DeployFlags) (receipts : ℕ → Option (ℕ × ℕ)) (net net' : Network) (gas : ℕ)
      → IsCreation flags net gas true net'
      → (r : Option (ℕ × ℕ)) → IsWait 60 receipts r
      → IsReported flags receipts net (deploy_settled gas r, net')
  unfolding deploy_settled
  settled-IsReported flags receipts net net' gas creation none all = (creation, all)
  settled-IsReported flags receipts net net' gas creation (some (status, contract)) first =
      by_status (status == 0) refl
    where
      by_status :
          (zero_status : Bool)
          → (status == 0) ≡ zero_status
          → IsReported flags receipts net
              ((if zero_status then deploy_reverted gas else deployed gas contract), net')
      by_status true t = (
        creation,
        (contract, subst (λ s. IsFirst 60 receipts (s, contract)) ((==_iff status 0).0 t) first),
      )
      by_status false t = (creation, (status, above_zero status t, first))

  send_deploy-IsReported :
      (flags : DeployFlags) (receipts : ℕ → Option (ℕ × ℕ)) (net : Network) (gas : ℕ)
      (signed : Option Signed)
      → ((tx : Signed) (accepted : Bool) (net' : Network)
          → signed ≡ some tx
          → api.send_transaction tx net ≡ (accepted, net')
          → IsCreation flags net gas accepted net')
      → IsReported flags receipts net
          (send_deploy Key Signed Network api bytecode gas receipts signed net)
  unfolding send_deploy after_deploy
  send_deploy-IsReported flags receipts net gas none creation = refl
  send_deploy-IsReported flags receipts net gas (some tx) creation =
      sent (api.send_transaction tx net) refl
    where
      sent :
          (r : Bool × Network)
          → api.send_transaction tx net ≡ r
          → IsReported flags receipts net
              (after_deploy Key Signed Network api bytecode gas receipts r)
      sent (false, net') e = (gas, creation tx false net' refl e)
      sent (true, net') e =
          settled-IsReported flags receipts net net' gas (creation tx true net' refl e)
            (wait_for 60 receipts) (wait_for-IsWait 60 receipts)

  make_deploy-IsReported :
      (flags : DeployFlags) (key : Key) (receipts : ℕ → Option (ℕ × ℕ)) (net : Network)
      (balance : ℕ)
      → api.balance_at net (api.address_of key) ≡ some balance
      → 0 < balance
      → (nonce price : Option ℕ) → api.pending_nonce_at net (api.address_of key) ≡ nonce
      → IsReported flags receipts net
          (make_deploy Key Signed Network api bytecode flags key receipts nonce price net)
  unfolding make_deploy
  make_deploy-IsReported flags key receipts net balance has positive none price next = refl
  make_deploy-IsReported flags key receipts net balance has positive (some nonce) none next = refl
  make_deploy-IsReported flags key receipts net balance has positive (some nonce) (some price)
        next =
      send_deploy-IsReported flags receipts net _ _ (λ tx accepted net' signed sent. record {
        key = key;
        nonce = nonce;
        price = price;
        balance = balance;
        tx = tx;
        has_balance = has;
        positive = positive;
        next_nonce = next;
        gas_estimated = refl;
        signed = signed;
        handed_over = sent;
      })

  check_deployer-IsReported :
      (flags : DeployFlags) (key : Key) (receipts : ℕ → Option (ℕ × ℕ)) (net : Network)
      (balance : Option ℕ)
      → api.balance_at net (api.address_of key) ≡ balance
      → IsReported flags receipts net
          (check_deployer Key Signed Network api bytecode flags key receipts balance net)
  unfolding check_deployer
  check_deployer-IsReported flags key receipts net none has = refl
  check_deployer-IsReported flags key receipts net (some balance) has =
      if_elim (IsReported flags receipts net) (balance == 0) (λ t. refl)
        (λ more.
          make_deploy-IsReported flags key receipts net balance has (above_zero balance more)
            (api.pending_nonce_at net (api.address_of key)) (api.suggest_gas_price net) refl)

  deploy_with-IsReported :
      (flags : DeployFlags) (key : Option Key) (receipts : ℕ → Option (ℕ × ℕ)) (net : Network)
      → IsReported flags receipts net
          (deploy_with Key Signed Network api bytecode flags key receipts net)
  unfolding deploy_with
  deploy_with-IsReported flags none receipts net = refl
  deploy_with-IsReported flags (some key) receipts net =
      if_elim (IsReported flags receipts net) (api.dials flags.rpc net)
        (λ t. check_deployer-IsReported flags key receipts net _ refl) (λ t. refl)

  -- Whatever go-ethereum answers, a deployment whose outcome is an error before the transaction has
  -- left the network as it was. Behind each other outcome one transaction was handed over: the
  -- creation of the contract by an account with a balance above 0, with its next nonce and the gas
  -- limit of the outcome, and accepted unless the outcome is that it could not be sent. The contract
  -- is reported as deployed, with the first receipt's address, if the first receipt within 60 tries
  -- has a status above 0, as reverted if it has the status 0, and as unconfirmed if there was none.
  pub run_deploy-IsReported :
      (getenv : Bytes → Bytes) (flags : DeployFlags) (receipts : ℕ → Option (ℕ × ℕ)) (net : Network)
      → IsReported flags receipts net
          (run_deploy Key Signed Network api bytecode getenv flags receipts net)
  unfolding run_deploy
  run_deploy-IsReported getenv flags receipts net =
      let private_key = or_env getenv (codes "IOSWARM_PRIVATE_KEY") flags.private_key in
      let P = IsReported flags receipts net in
      if_elim P (length private_key == 0) (λ t. refl)
        (λ t.
          if_elim P (length flags.coordinator == 0) (λ u. refl)
            (λ u.
              deploy_with-IsReported flags (api.hex_to_ecdsa (trim_prefix private_key (codes "0x")))
                receipts net))
