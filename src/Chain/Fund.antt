-- ===== src/Chain/Fund.antt =====
-- runFund.
use ioswarm.Common.{
  ℕ, suc, ◌+◌, ◌*◌, ◌%◌, ◌^◌, Option, none, some, List, [], ◌∷◌, Bytes, codes, Bool, false, ltb,
  ◌==◌, if◌then◌else◌, length,
}
use ioswarm.Common.Text.{trim_prefix}
use ioswarm.Agent.{or_env}
use ioswarm.Chain.Api.{Transaction, ChainApi}

-- The amount in wei, which iotxToWei makes of the flag; it is taken to be no negative one.
pub record FundFlags : Type 0 where
  pub private_key : Bytes
  pub rpc : Bytes
  pub chain_id : ℕ
  pub amount_wei : ℕ
  pub dry_run : Bool
  pub wallets : List Bytes

pub data FundError : Type 0 where
  missing_private_key missing_wallets bad_private_key no_connection no_balance : FundError
  insufficient_balance no_nonce no_gas_price : FundError

-- The two counters of the loop.
pub record FundReport : Type 0 where
  pub sent : ℕ
  pub failed : ℕ

pub data FundOutcome : Type 0 where
  refused : FundError → FundOutcome
  listed : FundOutcome
  funded : ℕ → ℕ → FundReport → FundOutcome

-- `failed++` and `sent++`.
abbrev pub one_failed : FundReport → FundReport
one_failed r = record r { failed = suc r.failed }

abbrev pub one_sent : FundReport → FundReport
one_sent r = record r { sent = suc r.sent }

module _ (Key Signed Network : Type 0) (api : ChainApi Key Signed Network) where
  abbrev pub transfer_to : FundFlags → ℕ → ℕ → Bytes → Transaction
  transfer_to flags gas_price nonce w = record {
    nonce = nonce;
    to = some (api.hex_to_address w);
    value = flags.amount_wei;
    gas_limit = 21000;
    gas_price = gas_price;
    input = [];
  }

  -- types.SignTx and then SendTransaction, and whether both went well.
  unfoldable pub send_signed : Option Signed → Network → Bool × Network
  send_signed none net = (false, net)
  send_signed (some tx) net = api.send_transaction tx net

  -- The loop over the wallets. The nonce, a uint64, goes on only behind an accepted transaction.
  unfoldable pub fund_loop : FundFlags → Key → ℕ → ℕ → List Bytes → Network → FundReport × Network
  unfolding send_signed
  fund_loop flags key gas_price nonce [] net = (record { sent = 0; failed = 0 }, net)
  fund_loop flags key gas_price nonce (w ∷ wallets) net =
      let tx = transfer_to flags gas_price nonce w in
      let one = send_signed (api.sign_tx flags.chain_id key tx) net in
      let went_on = fund_loop flags key gas_price ((nonce + 1) % 2 ^ 64) wallets one.1 in
      let stayed = fund_loop flags key gas_price nonce wallets one.1 in
      if one.0 then (one_sent went_on.0, went_on.1) else (one_failed stayed.0, stayed.1)

  -- Behind the check of the balance and the dry run.
  unfoldable pub send_all :
      FundFlags → Key → ℕ → Option ℕ → Option ℕ → Network → FundOutcome × Network
  unfolding fund_loop
  send_all flags key balance none gas_price net = (refused no_nonce, net)
  send_all flags key balance (some nonce) none net = (refused no_gas_price, net)
  send_all flags key balance (some nonce) (some gas_price) net =
      let done = fund_loop flags key gas_price nonce flags.wallets net in
      (funded balance nonce done.0, done.1)

  unfoldable pub check_balance : FundFlags → Key → Option ℕ → Network → FundOutcome × Network
  unfolding send_all
  check_balance flags key none net = (refused no_balance, net)
  check_balance flags key (some balance) net =
      if ltb balance (flags.amount_wei * length flags.wallets)
      then (refused insufficient_balance, net)
      else if flags.dry_run
      then (listed, net)
      else send_all flags key balance (api.pending_nonce_at net (api.address_of key))
          (api.suggest_gas_price net) net

  -- Behind crypto.HexToECDSA.
  unfoldable pub connect : FundFlags → Option Key → Network → FundOutcome × Network
  unfolding check_balance
  connect flags none net = (refused bad_private_key, net)
  connect flags (some key) net =
      if api.dials flags.rpc net
      then check_balance flags key (api.balance_at net (api.address_of key)) net
      else (refused no_connection, net)

  unfoldable pub run_fund : (Bytes → Bytes) → FundFlags → Network → FundOutcome × Network
  unfolding connect
  run_fund getenv flags net =
      let private_key = or_env getenv (codes "IOSWARM_PRIVATE_KEY") flags.private_key in
      if length private_key == 0
      then (refused missing_private_key, net)
      else if length flags.wallets == 0
      then (refused missing_wallets, net)
      else connect flags (api.hex_to_ecdsa (trim_prefix private_key (codes "0x"))) net
