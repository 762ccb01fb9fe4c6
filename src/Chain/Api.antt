-- ===== src/Chain/Api.antt =====
-- What the commands call of go-ethereum, as functions of the model's own records.
use ioswarm.Common.{ℕ, Option, Bytes, Bool}

-- types.NewTransaction, and NewContractCreation, which has no receiver. Addresses are numbers.
pub record Transaction : Type 0 where
  pub nonce : ℕ
  pub to : Option ℕ
  pub value : ℕ
  pub gas_limit : ℕ
  pub gas_price : ℕ
  pub input : Bytes

-- `call_claimable` packs the call, makes it, and unpacks its answer. `none` is an error. The network is a state, which a transaction that is sent may change whether
-- it is accepted or not.
pub record ChainApi (Key Signed Network : Type 0) : Type 0 where
  pub hex_to_ecdsa : Bytes → Option Key
  pub address_of : Key → ℕ
  pub hex_to_address : Bytes → ℕ
  pub dials : Bytes → Network → Bool
  pub balance_at : Network → ℕ → Option ℕ
  pub pending_nonce_at : Network → ℕ → Option ℕ
  pub suggest_gas_price : Network → Option ℕ
  pub call_claimable : Network → ℕ → ℕ → Option ℕ
  pub pack_claim : Option Bytes
  pub estimate_gas : Network → ℕ → Bytes → Option ℕ
  pub sign_tx : ℕ → Key → Transaction → Option Signed
  pub send_transaction : Signed → Network → Bool × Network
