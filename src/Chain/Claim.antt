-- ===== src/Chain/Claim.antt =====
-- runClaim.
use ioswarm.Common.{
  ℕ, Option, none, some, Bytes, codes, Bool, true, false, ◌&&◌, not, ◌==◌, if◌then◌else◌, length,
}
use ioswarm.Common.Text.{trim_prefix}
use ioswarm.Agent.{or_env}
use ioswarm.Chain.Api.{Transaction, ChainApi}
use ioswarm.Chain.Receipt.{wait_for}

pub record ClaimFlags : Type 0 where
  pub contract : Bytes
  pub private_key : Bytes
  pub rpc : Bytes
  pub chain_id : ℕ
  pub dry_run : Bool

unfoldable pub with_claim_env : (Bytes → Bytes) → ClaimFlags → ClaimFlags
with_claim_env getenv flags = record flags {
  private_key = or_env getenv (codes "IOSWARM_PRIVATE_KEY") flags.private_key;
  contract = or_env getenv (codes "IOSWARM_REWARD_CONTRACT") flags.contract;
}

pub data ClaimError : Type 0 where
  missing_contract missing_key cannot_connect bad_key key_needed cannot_call : ClaimError
  cannot_pack no_pending_nonce no_price cannot_sign cannot_send : ClaimError

-- The amount is the one that claimable() gave.
pub data ClaimOutcome : Type 0 where
  claim_refused : ClaimError → ClaimOutcome
  nothing_to_claim : ClaimOutcome
  claim_listed claimed claim_reverted claim_unconfirmed : ℕ → ClaimOutcome

-- Behind the wait, for a receipt's status.
unfoldable pub settled : ℕ → Option ℕ → ClaimOutcome
settled amount none = claim_unconfirmed amount
settled amount (some status) = if status == 1 then claimed amount else claim_reverted amount

module _ (Key Signed Network : Type 0) (api : ChainApi Key Signed Network) where
  abbrev pub claim_tx : ℕ → ℕ → ℕ → Bytes → Transaction
  claim_tx contract nonce gas_price input = record {
    nonce = nonce;
    to = some contract;
    value = 0;
    gas_limit = 200000;
    gas_price = gas_price;
    input = input;
  }

  -- `receipts` are the statuses that the tries bring.
  unfoldable pub after_claim : ℕ → (ℕ → Option ℕ) → Bool × Network → ClaimOutcome × Network
  unfolding settled wait_for
  after_claim amount receipts (false, net) = (claim_refused cannot_send, net)
  after_claim amount receipts (true, net) = (settled amount (wait_for 30 receipts), net)

  unfoldable pub send_claim : ℕ → (ℕ → Option ℕ) → Option Signed → Network → ClaimOutcome × Network
  unfolding after_claim
  send_claim amount receipts none net = (claim_refused cannot_sign, net)
  send_claim amount receipts (some tx) net =
      after_claim amount receipts (api.send_transaction tx net)

  -- The call data, the nonce and the gas price, and then the transaction.
  unfoldable pub make_claim :
      ClaimFlags
      → Key
      → ℕ
      → (ℕ → Option ℕ)
      → Option Bytes
      → Option ℕ
      → Option ℕ
      → Network
      → ClaimOutcome × Network
  unfolding send_claim
  make_claim flags key amount receipts none at price net = (claim_refused cannot_pack, net)
  make_claim flags key amount receipts (some input) none price net =
      (claim_refused no_pending_nonce, net)
  make_claim flags key amount receipts (some input) (some nonce) none net =
      (claim_refused no_price, net)
  make_claim flags key amount receipts (some input) (some nonce) (some price) net =
      send_claim amount receipts
        (api.sign_tx flags.chain_id key
          (claim_tx (api.hex_to_address flags.contract) nonce price input))
        net

  unfoldable pub check_claimable :
      ClaimFlags → Key → (ℕ → Option ℕ) → Option ℕ → Network → ClaimOutcome × Network
  unfolding make_claim
  check_claimable flags key receipts none net = (claim_refused cannot_call, net)
  check_claimable flags key receipts (some amount) net =
      if amount == 0
      then (nothing_to_claim, net)
      else if flags.dry_run
      then (claim_listed amount, net)
      else make_claim flags key amount receipts api.pack_claim
          (api.pending_nonce_at net (api.address_of key)) (api.suggest_gas_price net) net

  -- Behind crypto.HexToECDSA.
  unfoldable pub claim_with :
      ClaimFlags → Option Key → (ℕ → Option ℕ) → Network → ClaimOutcome × Network
  unfolding check_claimable
  claim_with flags none receipts net = (claim_refused bad_key, net)
  claim_with flags (some key) receipts net =
      check_claimable flags key receipts
        (api.call_claimable net (api.hex_to_address flags.contract) (api.address_of key)) net

  -- Behind the fallbacks. A dry run gets past the first check of the key and fails at the second.
  unfoldable pub claim_course : ClaimFlags → (ℕ → Option ℕ) → Network → ClaimOutcome × Network
  unfolding claim_with
  claim_course flags receipts net =
      if length flags.contract == 0
      then (claim_refused missing_contract, net)
      else if length flags.private_key == 0 && not flags.dry_run
      then (claim_refused missing_key, net)
      else if not (api.dials flags.rpc net)
      then (claim_refused cannot_connect, net)
      else if length flags.private_key == 0
      then (claim_refused key_needed, net)
      else claim_with flags (api.hex_to_ecdsa (trim_prefix flags.private_key (codes "0x"))) receipts
          net

  unfoldable pub run_claim :
      (Bytes → Bytes) → ClaimFlags → (ℕ → Option ℕ) → Network → ClaimOutcome × Network
  unfolding claim_course with_claim_env
  run_claim getenv flags receipts net = claim_course (with_claim_env getenv flags) receipts net
