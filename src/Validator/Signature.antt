-- ===== src/Validator/Signature.antt =====
-- What each level of validation accepts.
use mathlib.Core.Option
use mathlib.Core.Logic.Iff
use mathlib.Core.Path.{subst}
use ioswarm.Common.{
  ℕ, zero, suc, ◌<◌, ◌≤◌, ◌≡◌, refl, sym, ◌∙◌, ◌↔◌, Option, none, some, Bytes, true, false, length,
  arith,
}
use ioswarm.Common.Int.{ℤ, pos, negsuc, is_nonpositive, set_string}
use ioswarm.Wire.{Protowire}
use ioswarm.Account.{IoTxAccount}
use ioswarm.Store.{Bolt, StateStore}
use ioswarm.Types.{TaskPackage, AccountSnapshot, TaskResult}
use ioswarm.StateDb.{Geth}
use ioswarm.Evm.{EvmResult, Interpreter}
use ioswarm.Validator.Defs.{
  ValidationResult, secp256k1_n, check_signature, signature_r, signature_s, validate_l1,
  extract_tx_nonce, check_sender, check_state, if_valid, validate_l2, validate_l3, local_account,
  check_local, execute_local, validate_l4, validate_at, task_result_of, with_execution, execute_l3,
  plain_result, validate_task,
}

abbrev pub IsInRange : ℕ → Type 0
IsInRange n = (0 < n) × (n < secp256k1_n)

-- The last 65 bytes hold two numbers in the range of the curve's order.
abbrev pub IsSigned : Bytes → Type 0
IsSigned raw = (65 ≤ length raw) × IsInRange (signature_r raw) × IsInRange (signature_s raw)

check_signature_iff : (r s : ℕ) → ((check_signature r s).valid ≡ true) ↔ (IsInRange r × IsInRange s)
unfolding check_signature
check_signature_iff r s = ground arith

-- L1 accepts a task exactly if its transaction has 65 bytes at least and the two numbers of its
-- signature lie strictly between 0 and the order of secp256k1.
pub validate_l1_iff :
    (task : TaskPackage) → ((validate_l1 task).valid ≡ true) ↔ IsSigned task.tx_raw
unfolding validate_l1
validate_l1_iff task =
    ground (arith, check_signature_iff (signature_r task.tx_raw) (signature_s task.tx_raw))

-- The sender has a positive balance, and the nonce is not behind the account's.
abbrev pub IsPayable : Bytes → AccountSnapshot → Type 0
IsPayable raw sender =
    ((n : ℕ) × (set_string sender.balance ≡ some (pos (suc n))))
    × (sender.nonce ≤ extract_tx_nonce raw)

check_sender_iff :
    (task : TaskPackage) (sender : AccountSnapshot) (balance : Option ℤ)
    → ((check_sender task sender balance).valid ≡ true)
      ↔ (((n : ℕ) × (balance ≡ some (pos (suc n)))) × (sender.nonce ≤ extract_tx_nonce task.tx_raw))
unfolding check_sender
check_sender_iff task sender none = grind arith
check_sender_iff task sender (some (pos zero)) = grind arith
check_sender_iff task sender (some (pos (suc n))) =
    ((λ h. ((n, refl), ground arith)), (λ (_, le). ground arith))
check_sender_iff task sender (some (negsuc n)) = grind arith

abbrev pub IsFunded : Bytes → Option AccountSnapshot → Type 0
IsFunded raw found = (sender : AccountSnapshot) × (found ≡ some sender) × IsPayable raw sender

-- A valid result behind `if_valid` comes from two.
if_valid_iff :
    (v : ValidationResult) (rest : ValidationResult → ValidationResult)
    → ((if_valid v rest).valid ≡ true) ↔ ((v.valid ≡ true) × ((rest v).valid ≡ true))
if_valid_iff v rest = ground arith

check_state_iff :
    (task : TaskPackage) (found : Option AccountSnapshot)
    → ((check_state task found).valid ≡ true) ↔ IsFunded task.tx_raw found
unfolding check_state
check_state_iff task none = grind arith
check_state_iff task (some sender) =
    let iff = check_sender_iff task sender (set_string sender.balance) in
    (
      (λ h. (sender, refl, iff.0 h)),
      (λ (sender', e, p). iff.1 (subst (IsPayable task.tx_raw) (sym (Option.some_inj.0 e)) p)),
    )

-- L2 accepts a task exactly if its signature is in range and it has a sender whose balance
-- parses to a positive number and whose nonce is not above the transaction's.
pub validate_l2_iff :
    (task : TaskPackage)
    → ((validate_l2 task).valid ≡ true) ↔ (IsSigned task.tx_raw × IsFunded task.tx_raw task.sender)
unfolding validate_l2
validate_l2_iff task =
    let both = if_valid_iff (validate_l1 task) (λ l1. check_state task task.sender) in
    Iff.trans both (Iff.and (validate_l1_iff task) (check_state_iff task task.sender))

-- What L4 asks of the sender: of the local account, or else of the coordinator's data.
abbrev pub IsTrusted : TaskPackage → Option IoTxAccount → Type 0
IsTrusted task none = IsSigned task.tx_raw × IsFunded task.tx_raw task.sender
IsTrusted task (some acct) =
    ((n : ℕ) × (acct.balance ≡ pos (suc n))) × (acct.nonce ≤ extract_tx_nonce task.tx_raw)

nonpositive_iff : (z : ℤ) → (is_nonpositive z ≡ false) ↔ ((n : ℕ) × (z ≡ pos (suc n)))
nonpositive_iff (pos zero) = grind arith
nonpositive_iff (pos (suc n)) = ((λ h. (n, refl)), (λ p. ground arith))
nonpositive_iff (negsuc n) = grind arith

with_execution-valid :
    (r : TaskResult) (e : Option EvmResult) → (with_execution r e).valid ≡ r.valid
unfolding with_execution
with_execution-valid r none = refl
with_execution-valid r (some e) = refl

task_result_of-valid :
    (task_id latency : ℕ) (res : ValidationResult)
    → (task_result_of task_id latency res).valid ≡ res.valid
unfolding task_result_of
task_result_of-valid task_id latency res =
    with_execution-valid (plain_result task_id latency res) res.evm_result

module _ (w : Protowire) (b : Bolt) (fuel : ℕ) where
  check_local_iff :
      (height : ℕ) (task : TaskPackage) (found : Option IoTxAccount)
      → ((check_local w b fuel height task found).valid ≡ true) ↔ IsTrusted task found
  unfolding check_local
  check_local_iff height task none = validate_l2_iff task
  check_local_iff height task (some acct) = ground (arith, nonpositive_iff acct.balance)

  module _ (g : Geth) (vm : Interpreter) where
    -- A task that L4 accepts has a signature in range, and a sender whom the local account, if
    -- one is found, or else the coordinator's data shows to have a positive balance and a nonce
    -- not above the transaction's.
    pub validate_l4_sound :
        (s : StateStore b) (task : TaskPackage)
        → (validate_l4 w b fuel g vm (some s) task).valid ≡ true
        → IsSigned task.tx_raw × IsTrusted task (local_account w b fuel s task.sender)
    unfolding validate_l4
    validate_l4_sound s task h =
        let outer =
          (if_valid_iff (validate_l1 task) (λ l1.
              if_valid (check_local w b fuel s.height task (local_account w b fuel s task.sender))
                (λ l2.
                  execute_local w b fuel g vm s task (local_account w b fuel s task.sender)))).0
            h in
        let inner =
          (if_valid_iff (check_local w b fuel s.height task (local_account w b fuel s task.sender))
              (λ l2. execute_local w b fuel g vm s task (local_account w b fuel s task.sender))).0
            outer.1 in
        (
          (validate_l1_iff task).0 outer.0,
          (check_local_iff s.height task (local_account w b fuel s task.sender)).0 inner.0,
        )

    execute_local_valid :
        (s : StateStore b) (task : TaskPackage) (acct : Option IoTxAccount)
        → task.evm_tx ≡ none
        → (execute_local w b fuel g vm s task acct).valid ≡ true
    unfolding execute_local
    execute_local_valid s task acct e = rw (execute_local, e)

    -- L4 accepts a task without a transaction for the EVM exactly if its signature is in range
    -- and the local account of its sender, if one is found, or else the coordinator's data shows
    -- a positive balance and a nonce not above the transaction's.
    pub validate_l4_iff :
        (s : StateStore b) (task : TaskPackage)
        → task.evm_tx ≡ none
        → ((validate_l4 w b fuel g vm (some s) task).valid ≡ true)
          ↔ (IsSigned task.tx_raw × IsTrusted task (local_account w b fuel s task.sender))
    unfolding validate_l4
    validate_l4_iff s task e =
        let acct = local_account w b fuel s task.sender in
        let execute = λ (l2 : ValidationResult). execute_local w b fuel g vm s task acct in
        (
          validate_l4_sound s task,
          (λ (signed, trusted).
              (if_valid_iff (validate_l1 task)
                  (λ l1. if_valid (check_local w b fuel s.height task acct) execute)).1
                (
                  (validate_l1_iff task).1 signed,
                  (if_valid_iff (check_local w b fuel s.height task acct) execute).1 (
                    (check_local_iff s.height task acct).1 trusted,
                    execute_local_valid s task acct e,
                  ),
                )),
        )

    validate_l2-IsSigned :
        (task : TaskPackage) → (validate_l2 task).valid ≡ true → IsSigned task.tx_raw
    validate_l2-IsSigned task h = ((validate_l2_iff task).0 h).0

    validate_l3-IsSigned :
        (task : TaskPackage) → (validate_l3 g vm task).valid ≡ true → IsSigned task.tx_raw
    unfolding validate_l3
    validate_l3-IsSigned task h =
        validate_l2-IsSigned task ((if_valid_iff (validate_l2 task) (execute_l3 g vm task)).0 h).0

    validate_l4-IsSigned :
        (store : Option (StateStore b)) (task : TaskPackage)
        → (validate_l4 w b fuel g vm store task).valid ≡ true
        → IsSigned task.tx_raw
    unfolding validate_l4
    validate_l4-IsSigned none task h = grind arith
    validate_l4-IsSigned (some s) task h = (validate_l4_sound s task h).0

    validate_at-IsSigned :
        (store : Option (StateStore b)) (task : TaskPackage) (level : Bytes)
        → (validate_at w b fuel g vm store task level).valid ≡ true
        → IsSigned task.tx_raw
    unfolding validate_at
    validate_at-IsSigned store task level h = ground (
      arith,
      validate_l1_iff task,
      validate_l2-IsSigned task,
      validate_l3-IsSigned task,
      validate_l4-IsSigned store task,
    )

    -- Whatever the level, the store and the interpreter, a task that is reported valid has a
    -- signature in range.
    pub validate_task-IsSigned :
        (latency : ℕ) (store : Option (StateStore b)) (task : TaskPackage) (level : Bytes)
        → (validate_task w b fuel g vm latency store task level).valid ≡ true
        → IsSigned task.tx_raw
    unfolding validate_task
    validate_task-IsSigned latency store task level h = validate_at-IsSigned store task level (
        sym (task_result_of-valid task.task_id latency (validate_at w b fuel g vm store task level))
        ∙ h)
