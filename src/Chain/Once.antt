-- ===== src/Chain/Once.antt =====
-- A claim sends one transaction at most, and reports what the first receipt says.
use mathlib.Core.Path.{subst}
use ioswarm.Common.{
  ℕ, ◌<◌, ◌≡◌, ◌≢◌, refl, sym, ◌∙◌, Option, none, some, Bytes, codes, Bool, true, false, ◌&&◌, not,
  ◌==◌, ==_iff, if◌then◌else◌, if_elim, length, arith,
}
use ioswarm.Common.Text.{trim_prefix}
use ioswarm.Chain.Api.{ChainApi}
use ioswarm.Chain.Receipt.{wait_for}
use ioswarm.Chain.Wait.{IsFirst, IsWait, wait_for-IsWait}
use ioswarm.Chain.Claim.{
  ClaimFlags, with_claim_env, ClaimError, cannot_send, ClaimOutcome, claim_refused,
  nothing_to_claim, claim_listed, claimed, claim_reverted, claim_unconfirmed, settled, claim_tx,
  after_claim, send_claim, make_claim, check_claimable, claim_with, claim_course, run_claim,
}

module _ (Key Signed Network : Type 0) (api : ChainApi Key Signed Network) where
  -- A claim of an amount above 0, signed with the account's next nonce and handed over, and
  -- whether the network accepted it.
  pub record IsAttempt (flags : ClaimFlags) (net : Network) (amount : ℕ) (accepted : Bool)
      (net' : Network) : Type 0 where
    pub key : Key
    pub nonce : ℕ
    pub price : ℕ
    pub input : Bytes
    pub tx : Signed
    pub not_dry : flags.dry_run ≡ false
    pub positive : 0 < amount
    pub claimable :
        api.call_claimable net (api.hex_to_address flags.contract) (api.address_of key)
        ≡ some amount
    pub next_nonce : api.pending_nonce_at net (api.address_of key) ≡ some nonce
    pub signed :
        api.sign_tx flags.chain_id key
          (claim_tx Key Signed Network api (api.hex_to_address flags.contract) nonce price input)
        ≡ some tx
    pub handed_over : api.send_transaction tx net ≡ (accepted, net')

  -- A claim that ends before its transaction leaves the network as it was.
  abbrev pub IsRefusal : ClaimFlags → Network → ClaimError → Network → Type 0
  IsRefusal flags net cannot_send net' = (amount : ℕ) × IsAttempt flags net amount false net'
  IsRefusal flags net _ net' = net' ≡ net

  abbrev pub IsHonest : ClaimFlags → (ℕ → Option ℕ) → Network → ClaimOutcome × Network → Type 0
  IsHonest flags receipts net (claim_refused e, net') = IsRefusal flags net e net'
  IsHonest flags receipts net (nothing_to_claim, net') = net' ≡ net
  IsHonest flags receipts net (claim_listed amount, net') =
      (net' ≡ net) × (flags.dry_run ≡ true) × (0 < amount)
  IsHonest flags receipts net (claimed amount, net') =
      IsAttempt flags net amount true net' × IsFirst 30 receipts 1
  IsHonest flags receipts net (claim_reverted amount, net') =
      IsAttempt flags net amount true net'
      × ((status : ℕ) × (status ≢ 1) × IsFirst 30 receipts status)
  IsHonest flags receipts net (claim_unconfirmed amount, net') =
      IsAttempt flags net amount true net' × ((i : ℕ) → i < 30 → receipts i ≡ none)

  settled-IsHonest :
      (flags : ClaimFlags) (receipts : ℕ → Option ℕ) (net net' : Network) (amount : ℕ)
      → IsAttempt flags net amount true net'
      → (r : Option ℕ) → IsWait 30 receipts r
      → IsHonest flags receipts net (settled amount r, net')
  unfolding settled
  settled-IsHonest flags receipts net net' amount attempt none all = (attempt, all)
  settled-IsHonest flags receipts net net' amount attempt (some status) first =
      by_status (status == 1) refl
    where
      by_status :
          (one : Bool)
          → (status == 1) ≡ one
          → IsHonest flags receipts net
              ((if one then claimed amount else claim_reverted amount), net')
      by_status true t = (attempt, subst (IsFirst 30 receipts) ((==_iff status 1).0 t) first)
      by_status false t = (attempt, (status, (λ q. other (sym t ∙ (==_iff status 1).1 q)), first))
        where
          other : false ≢ true
          other q = cc

  send_claim-IsHonest :
      (flags : ClaimFlags) (receipts : ℕ → Option ℕ) (net : Network) (amount : ℕ)
      (signed : Option Signed)
      → ((tx : Signed) (accepted : Bool) (net' : Network)
          → signed ≡ some tx
          → api.send_transaction tx net ≡ (accepted, net')
          → IsAttempt flags net amount accepted net')
      → IsHonest flags receipts net (send_claim Key Signed Network api amount receipts signed net)
  unfolding send_claim after_claim
  send_claim-IsHonest flags receipts net amount none attempt = refl
  send_claim-IsHonest flags receipts net amount (some tx) attempt =
      sent (api.send_transaction tx net) refl
    where
      sent :
          (r : Bool × Network)
          → api.send_transaction tx net ≡ r
          → IsHonest flags receipts net (after_claim Key Signed Network api amount receipts r)
      sent (false, net') e = (amount, attempt tx false net' refl e)
      sent (true, net') e =
          settled-IsHonest flags receipts net net' amount (attempt tx true net' refl e)
            (wait_for 30 receipts) (wait_for-IsWait 30 receipts)

  make_claim-IsHonest :
      (flags : ClaimFlags) (key : Key) (receipts : ℕ → Option ℕ) (net : Network) (amount : ℕ)
      → flags.dry_run ≡ false
      → 0 < amount
      → api.call_claimable net (api.hex_to_address flags.contract) (api.address_of key)
        ≡ some amount
      → (input : Option Bytes) (nonce price : Option ℕ)
      → api.pending_nonce_at net (api.address_of key) ≡ nonce
      → IsHonest flags receipts net
          (make_claim Key Signed Network api flags key amount receipts input nonce price net)
  unfolding make_claim
  make_claim-IsHonest flags key receipts net amount wet positive has none at price next = refl
  make_claim-IsHonest flags key receipts net amount wet positive has (some input) none price next =
      refl
  make_claim-IsHonest flags key receipts net amount wet positive has (some input) (some nonce) none
        next =
      refl
  make_claim-IsHonest flags key receipts net amount wet positive has (some input) (some nonce)
        (some price) next =
      send_claim-IsHonest flags receipts net amount _ (λ tx accepted net' signed sent. record {
        key = key;
        nonce = nonce;
        price = price;
        input = input;
        tx = tx;
        not_dry = wet;
        positive = positive;
        claimable = has;
        next_nonce = next;
        signed = signed;
        handed_over = sent;
      })

  above_zero : (amount : ℕ) → (amount == 0) ≡ false → 0 < amount
  above_zero amount e = ground arith

  check_claimable-IsHonest :
      (flags : ClaimFlags) (key : Key) (receipts : ℕ → Option ℕ) (net : Network) (amount : Option ℕ)
      → api.call_claimable net (api.hex_to_address flags.contract) (api.address_of key) ≡ amount
      → IsHonest flags receipts net
          (check_claimable Key Signed Network api flags key receipts amount net)
  unfolding check_claimable
  check_claimable-IsHonest flags key receipts net none has = refl
  check_claimable-IsHonest flags key receipts net (some amount) has =
      if_elim (IsHonest flags receipts net) (amount == 0) (λ t. refl)
        (λ more.
          if_elim (IsHonest flags receipts net) flags.dry_run
            (λ dry. (refl, dry, above_zero amount more))
            (λ wet.
              make_claim-IsHonest flags key receipts net amount wet (above_zero amount more) has
                api.pack_claim (api.pending_nonce_at net (api.address_of key))
                (api.suggest_gas_price net) refl))

  claim_with-IsHonest :
      (flags : ClaimFlags) (key : Option Key) (receipts : ℕ → Option ℕ) (net : Network)
      → IsHonest flags receipts net (claim_with Key Signed Network api flags key receipts net)
  unfolding claim_with
  claim_with-IsHonest flags none receipts net = refl
  claim_with-IsHonest flags (some key) receipts net =
      check_claimable-IsHonest flags key receipts net _ refl

  -- Whatever go-ethereum answers, a claim command whose outcome is an error before the transaction,
  -- or that there is nothing to claim, or a dry run's amount above 0, has left the network as it
  -- was. Behind each other outcome one transaction was handed over: of no dry run, for an amount
  -- above 0 that the contract gave for the account, signed with the account's next nonce, and
  -- accepted unless the outcome is that it could not be sent. The claim is reported as claimed if
  -- the first receipt within 30 tries has the status 1, as reverted if it has another, and as
  -- unconfirmed if there was none.
  pub run_claim-IsHonest :
      (getenv : Bytes → Bytes) (flags : ClaimFlags) (receipts : ℕ → Option ℕ) (net : Network)
      → IsHonest
          (with_claim_env getenv flags)
          receipts
          net
          (run_claim Key Signed Network api getenv flags receipts net)
  unfolding run_claim claim_course
  run_claim-IsHonest getenv flags receipts net =
      let f = with_claim_env getenv flags in
      let P = IsHonest f receipts net in
      if_elim P (length f.contract == 0) (λ t. refl)
        (λ t.
          if_elim P (length f.private_key == 0 && not f.dry_run) (λ u. refl)
            (λ u.
              if_elim P (not (api.dials f.rpc net)) (λ v. refl)
                (λ v.
                  if_elim P (length f.private_key == 0) (λ x. refl)
                    (λ x.
                      claim_with-IsHonest f
                        (api.hex_to_ecdsa (trim_prefix f.private_key (codes "0x"))) receipts net))))
