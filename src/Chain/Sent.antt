-- ===== src/Chain/Sent.antt =====
-- What runFund sends, and what it leaves alone.
use native.Mathlib.Nat.{mul_comm, mul-le-mul_left}
use ioswarm.Common.{
  ℕ, ◌*◌, ◌≤◌, ◌≡◌, refl, Option, none, some, List, Bytes, codes, true, false, ltb, ◌==◌, if_elim,
  length, arith,
}
use ioswarm.Common.Text.{trim_prefix}
use ioswarm.Agent.{or_env}
use ioswarm.Chain.Api.{Transaction, ChainApi}
use ioswarm.Chain.Fund.{
  FundFlags, FundReport, FundOutcome, refused, listed, funded, send_all, check_balance, connect,
  run_fund,
}
use ioswarm.Chain.Paid.{total_value, IsSent, IsPaid, fund_loop-IsPassed}

-- The text of the private key, from the flag or else the environment.
abbrev pub key_text : (Bytes → Bytes) → FundFlags → Bytes
key_text getenv flags =
    trim_prefix (or_env getenv (codes "IOSWARM_PRIVATE_KEY") flags.private_key) (codes "0x")

module _ (Key Signed Network : Type 0) (api : ChainApi Key Signed Network) where
  -- The loop ran over all wallets with the key's account, its next nonce and the suggested price,
  -- and the balance was enough for what was taken.
  pub record IsFunded (flags : FundFlags) (given : Option Key) (net : Network) (balance nonce : ℕ)
      (r : FundReport) (net' : Network) : Type 0 where
    pub key : Key
    pub gas_price : ℕ
    pub txs : List Transaction
    pub not_dry : flags.dry_run ≡ false
    pub is_key : given ≡ some key
    pub next_nonce : api.pending_nonce_at net (api.address_of key) ≡ some nonce
    pub price : api.suggest_gas_price net ≡ some gas_price
    pub has : api.balance_at net (api.address_of key) ≡ some balance
    pub is_sent : IsSent Key Signed Network api flags key gas_price nonce flags.wallets net txs net'
    pub is_paid : IsPaid Key Signed Network api flags gas_price nonce flags.wallets txs r
    pub affordable : total_value txs ≤ balance

  -- A command that refuses, or lists the wallets for a dry run, leaves the network as it was.
  abbrev pub IsCareful : FundFlags → Option Key → Network → FundOutcome × Network → Type 0
  IsCareful flags given net (refused e, net') = net' ≡ net
  IsCareful flags given net (listed, net') = (net' ≡ net) × (flags.dry_run ≡ true)
  IsCareful flags given net (funded balance nonce r, net') =
      IsFunded flags given net balance nonce r net'

  not_less : (m n : ℕ) → ltb m n ≡ false → n ≤ m
  not_less m n e = ground arith

  paid_within :
      (flags : FundFlags) (balance gas_price nonce : ℕ) (txs : List Transaction) (r : FundReport)
      → ltb balance (flags.amount_wei * length flags.wallets) ≡ false
      → IsPaid Key Signed Network api flags gas_price nonce flags.wallets txs r
      → total_value txs ≤ balance
  paid_within flags balance gas_price nonce txs r enough p =
      let some_of_all : r.sent ≤ length flags.wallets = omega (arith, p.counted) in
      omega (
        arith,
        p.paid,
        mul_comm r.sent flags.amount_wei,
        mul-le-mul_left flags.amount_wei some_of_all,
        not_less balance (flags.amount_wei * length flags.wallets) enough,
      )

  send_all-IsCareful :
      (flags : FundFlags) (key : Key) (balance : ℕ) (net : Network)
      → api.balance_at net (api.address_of key) ≡ some balance
      → ltb balance (flags.amount_wei * length flags.wallets) ≡ false
      → flags.dry_run ≡ false
      → (nonce gas_price : Option ℕ) → api.pending_nonce_at net (api.address_of key) ≡ nonce
      → api.suggest_gas_price net ≡ gas_price
      → IsCareful flags
          (some key)
          net
          (send_all Key Signed Network api flags key balance nonce gas_price net)
  unfolding send_all
  send_all-IsCareful flags key balance net has enough wet none gas_price at costs = refl
  send_all-IsCareful flags key balance net has enough wet (some nonce) none at costs = refl
  send_all-IsCareful flags key balance net has enough wet (some nonce) (some gas_price) at costs =
      let (txs, sent, paid) =
        fund_loop-IsPassed Key Signed Network api flags key gas_price nonce flags.wallets net in
      record {
        key = key;
        gas_price = gas_price;
        txs = txs;
        not_dry = wet;
        is_key = refl;
        next_nonce = at;
        price = costs;
        has = has;
        is_sent = sent;
        is_paid = paid;
        affordable = paid_within flags balance gas_price nonce txs _ enough paid;
      }

  check_balance-IsCareful :
      (flags : FundFlags) (key : Key) (balance : Option ℕ) (net : Network)
      → api.balance_at net (api.address_of key) ≡ balance
      → IsCareful flags (some key) net (check_balance Key Signed Network api flags key balance net)
  unfolding check_balance
  check_balance-IsCareful flags key none net has = refl
  check_balance-IsCareful flags key (some balance) net has =
      if_elim (IsCareful flags (some key) net)
        (ltb balance (flags.amount_wei * length flags.wallets)) (λ t. refl)
        (λ enough.
          if_elim (IsCareful flags (some key) net) flags.dry_run (λ dry. (refl, dry))
            (λ wet.
              send_all-IsCareful flags key balance net has enough wet
                (api.pending_nonce_at net (api.address_of key)) (api.suggest_gas_price net) refl
                refl))

  connect-IsCareful :
      (flags : FundFlags) (given : Option Key) (net : Network)
      → IsCareful flags given net (connect Key Signed Network api flags given net)
  unfolding connect
  connect-IsCareful flags none net = refl
  connect-IsCareful flags (some key) net =
      if_elim (IsCareful flags (some key) net) (api.dials flags.rpc net)
        (λ t. check_balance-IsCareful flags key (api.balance_at net (api.address_of key)) net refl)
        (λ t. refl)

  -- Whatever go-ethereum answers, a fund command that refuses for an error, or that lists the
  -- wallets for a dry run, has left the network as it was. One that funds was no dry run, and read
  -- its key from the flag or the environment. The network behind it is the one it was given after
  -- one transfer for each wallet in their order, from the account's next nonce on: a transfer that
  -- cannot be signed is not handed over, and one that is signed is, to be taken or turned down.
  -- Those that were taken are plain transfers of the flag's amount at the suggested gas price,
  -- with nonces that follow one another as a uint64 counts; as many are counted as sent, all other
  -- wallets as failed, and the amounts together are no more than the account's balance.
  pub run_fund-IsCareful :
      (getenv : Bytes → Bytes) (flags : FundFlags) (net : Network)
      → IsCareful flags
          (api.hex_to_ecdsa (key_text getenv flags))
          net
          (run_fund Key Signed Network api getenv flags net)
  unfolding run_fund
  run_fund-IsCareful getenv flags net =
      let private_key = or_env getenv (codes "IOSWARM_PRIVATE_KEY") flags.private_key in
      let given = api.hex_to_ecdsa (key_text getenv flags) in
      if_elim (IsCareful flags given net) (length private_key == 0) (λ t. refl)
        (λ t.
          if_elim (IsCareful flags given net) (length flags.wallets == 0) (λ t. refl)
            (λ t. connect-IsCareful flags given net))
