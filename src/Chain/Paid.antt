-- ===== src/Chain/Paid.antt =====
-- The loop of runFund over the wallets: what reaches the network, and what is counted.
use native.Mathlib.Nat.{zero-mul, suc-mul}
use ioswarm.Common.{
  ℕ, zero, suc, ◌+◌, ◌*◌, ◌%◌, ◌^◌, ◌≡◌, refl, sym, ap, Option, none, some, List, [], ◌∷◌, Bytes,
  Bool, true, false, if◌then◌else◌, if_elim, length, map, All, arith,
}
use ioswarm.Chain.Api.{Transaction, ChainApi}
use ioswarm.Chain.Fund.{
  FundFlags, FundReport, one_failed, one_sent, transfer_to, send_signed, fund_loop,
}

abbrev pub nonce_of : Transaction → ℕ
nonce_of tx = tx.nonce

-- Nonces one after another, as a uint64 counts.
abbrev pub words_from : ℕ → ℕ → List ℕ
words_from nonce zero = []
words_from nonce (suc n) = nonce ∷ words_from ((nonce + 1) % 2 ^ 64) n

abbrev pub total_value : List Transaction → ℕ
total_value [] = 0
total_value (tx ∷ txs) = tx.value + total_value txs

-- Some of the wallets, in their order.
pub data IsPick : List (Option ℕ) → List (Option ℕ) → Type 0 where
  none_left : IsPick [] []
  passed : (x : Option ℕ) (xs ys : List (Option ℕ)) → IsPick xs ys → IsPick xs (x ∷ ys)
  picked : (x : Option ℕ) (xs ys : List (Option ℕ)) → IsPick xs ys → IsPick (x ∷ xs) (x ∷ ys)

abbrev pub to_of : Transaction → Option ℕ
to_of tx = tx.to

-- A plain transfer of the flag's amount.
abbrev pub IsPlain : FundFlags → ℕ → Transaction → Type 0
IsPlain flags gas_price tx =
    (tx.value ≡ flags.amount_wei)
    × (tx.gas_limit ≡ 21000)
    × (tx.gas_price ≡ gas_price)
    × (tx.input ≡ [])

module _ (Key Signed Network : Type 0) (api : ChainApi Key Signed Network) where
  -- How the network goes from one state to another while the wallets are tried in their order,
  -- each once, by a transaction with the next nonce: it cannot be signed, and the network stays;
  -- or it is handed over signed, and turned down or taken. The list holds those that were taken.
  pub data IsSent (flags : FundFlags) (key : Key) (gas_price : ℕ)
      : ℕ → List Bytes → Network → List Transaction → Network → Type 0 where
    all_tried : (nonce : ℕ) (net : Network) → IsSent flags key gas_price nonce [] net [] net
    not_signed :
        (nonce : ℕ) (w : Bytes) (wallets : List Bytes) (net : Network) (txs : List Transaction)
        (net' : Network)
        → api.sign_tx flags.chain_id key
            (transfer_to Key Signed Network api flags gas_price nonce w)
          ≡ none
        → IsSent flags key gas_price nonce wallets net txs net'
        → IsSent flags key gas_price nonce (w ∷ wallets) net txs net'
    turned_down :
        (nonce : ℕ) (w : Bytes) (wallets : List Bytes) (net : Network) (txs : List Transaction)
        (net' : Network) (signed : Signed) (behind : Network)
        → api.sign_tx flags.chain_id key
            (transfer_to Key Signed Network api flags gas_price nonce w)
          ≡ some signed
        → api.send_transaction signed net ≡ (false, behind)
        → IsSent flags key gas_price nonce wallets behind txs net'
        → IsSent flags key gas_price nonce (w ∷ wallets) net txs net'
    taken :
        (nonce : ℕ) (w : Bytes) (wallets : List Bytes) (net : Network) (txs : List Transaction)
        (net' : Network) (signed : Signed) (behind : Network)
        → api.sign_tx flags.chain_id key
            (transfer_to Key Signed Network api flags gas_price nonce w)
          ≡ some signed
        → api.send_transaction signed net ≡ (true, behind)
        → IsSent flags key gas_price ((nonce + 1) % 2 ^ 64) wallets behind txs net'
        → IsSent flags key gas_price nonce
            (w ∷ wallets)
            net
            (transfer_to Key Signed Network api flags gas_price nonce w ∷ txs)
            net'

  -- The transactions that were taken from one nonce on, and the counters of the loop.
  pub record IsPaid (flags : FundFlags) (gas_price nonce : ℕ) (wallets : List Bytes)
      (txs : List Transaction) (r : FundReport) : Type 0 where
    pub counted : r.sent + r.failed ≡ length wallets
    pub sent_all : r.sent ≡ length txs
    pub plain : All (IsPlain flags gas_price) txs
    pub nonces : map nonce_of txs ≡ words_from nonce (length txs)
    pub recipients : IsPick (map to_of txs) (map (λ w. some (api.hex_to_address w)) wallets)
    pub paid : total_value txs ≡ r.sent * flags.amount_wei

  one_sent-IsPaid :
      (flags : FundFlags) (gas_price nonce : ℕ) (w : Bytes) (wallets : List Bytes)
      (txs : List Transaction) (r : FundReport)
      → IsPaid flags gas_price ((nonce + 1) % 2 ^ 64) wallets txs r
      → IsPaid flags gas_price nonce
          (w ∷ wallets)
          (transfer_to Key Signed Network api flags gas_price nonce w ∷ txs)
          (one_sent r)
  one_sent-IsPaid flags gas_price nonce w wallets txs r p = record {
    counted = omega (arith, p.counted);
    sent_all = omega (arith, p.sent_all);
    plain = ((refl, refl, refl, refl), p.plain);
    nonces = ap (λ ns. nonce ∷ ns) p.nonces;
    recipients = picked _ _ _ p.recipients;
    paid = omega (arith, p.paid, suc-mul r.sent flags.amount_wei);
  }

  one_failed-IsPaid :
      (flags : FundFlags) (gas_price nonce : ℕ) (w : Bytes) (wallets : List Bytes)
      (txs : List Transaction) (r : FundReport)
      → IsPaid flags gas_price nonce wallets txs r
      → IsPaid flags gas_price nonce (w ∷ wallets) txs (one_failed r)
  one_failed-IsPaid flags gas_price nonce w wallets txs r p = record {
    counted = omega (arith, p.counted);
    sent_all = p.sent_all;
    plain = p.plain;
    nonces = p.nonces;
    recipients = passed _ _ _ p.recipients;
    paid = p.paid;
  }

  -- The network behind the loop is the one that its transactions lead to.
  abbrev pub IsPassed :
      FundFlags → Key → ℕ → ℕ → List Bytes → Network → FundReport × Network → Type 0
  IsPassed flags key gas_price nonce wallets net (r, net') =
      (txs : List Transaction) × IsSent flags key gas_price nonce wallets net txs net'
      × IsPaid flags gas_price nonce wallets txs r

  one_wallet-IsPassed :
      (flags : FundFlags) (key : Key) (gas_price nonce : ℕ) (w : Bytes) (wallets : List Bytes)
      (net : Network) (went_on stayed : FundReport × Network) (signed : Option Signed)
      → api.sign_tx flags.chain_id key (transfer_to Key Signed Network api flags gas_price nonce w)
        ≡ signed
      → let one = send_signed Key Signed Network api signed net in
        IsPassed flags key gas_price ((nonce + 1) % 2 ^ 64) wallets one.1 went_on
        → IsPassed flags key gas_price nonce wallets one.1 stayed
        → IsPassed flags key gas_price nonce
            (w ∷ wallets)
            net
            (if one.0 then (one_sent went_on.0, went_on.1) else (one_failed stayed.0, stayed.1))
  unfolding send_signed
  one_wallet-IsPassed flags key gas_price nonce w wallets net went_on stayed none at on
        (txs, sent, paid) =
      (
        txs,
        not_signed _ _ _ _ _ _ at sent,
        one_failed-IsPaid flags gas_price nonce w wallets txs _ paid,
      )
  one_wallet-IsPassed flags key gas_price nonce w wallets net went_on stayed (some signed) at
        (on, sent_on, paid_on) (txs, sent, paid) =
      let behind = (api.send_transaction signed net).1 in
      if_elim (IsPassed flags key gas_price nonce (w ∷ wallets) net)
        (api.send_transaction signed net).0
        (λ t. (
          _,
          taken _ _ _ _ _ _ signed behind at (ap (λ (b : Bool). (b, behind)) t) sent_on,
          one_sent-IsPaid flags gas_price nonce w wallets on _ paid_on,
        ))
        (λ t. (
          txs,
          turned_down _ _ _ _ _ _ signed behind at (ap (λ (b : Bool). (b, behind)) t) sent,
          one_failed-IsPaid flags gas_price nonce w wallets txs _ paid,
        ))

  pub fund_loop-IsPassed :
      (flags : FundFlags) (key : Key) (gas_price nonce : ℕ) (wallets : List Bytes) (net : Network)
      → IsPassed flags key gas_price nonce wallets net
          (fund_loop Key Signed Network api flags key gas_price nonce wallets net)
  unfolding fund_loop
  fund_loop-IsPassed flags key gas_price nonce [] net = (
    [],
    all_tried nonce net,
    record {
      counted = refl;
      sent_all = refl;
      plain = tt;
      nonces = refl;
      recipients = none_left;
      paid = sym (zero-mul flags.amount_wei);
    },
  )
  fund_loop-IsPassed flags key gas_price nonce (w ∷ wallets) net =
      let signed =
        api.sign_tx flags.chain_id key
          (transfer_to Key Signed Network api flags gas_price nonce w) in
      let one = send_signed Key Signed Network api signed net in
      one_wallet-IsPassed flags key gas_price nonce w wallets net _ _ signed refl
        (fund_loop-IsPassed flags key gas_price ((nonce + 1) % 2 ^ 64) wallets one.1)
        (fund_loop-IsPassed flags key gas_price nonce wallets one.1)
