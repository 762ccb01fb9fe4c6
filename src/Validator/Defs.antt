-- ===== src/Validator/Defs.antt =====
-- The levels L1 to L4 and the choice among them.
use ioswarm.Common.{
  ℕ, ◌+◌, ◌-◌, Option, none, some, [], Bytes, codes, bytes_eq, Bool, true, false, ◌==◌, ltb, leb,
  if◌then◌else◌, length, take, drop, ok, err,
}
use ioswarm.Common.BigEndian.{to_bytes, of_bytes}
use ioswarm.Common.Int.{ℤ, is_nonpositive, set_string}
use ioswarm.Wire.{Protowire}
use ioswarm.Account.{IoTxAccount, address_to_hash160}
use ioswarm.Store.{Bolt, StateStore, get_account, get_code, get_storage_slot}
use ioswarm.Types.{
  TaskPackage, TaskResult, AccountSnapshot, Reason, no_reason, tx_too_short, r_is_zero, s_is_zero,
  r_too_large, s_too_large, missing_sender, zero_balance, zero_balance_local, store_not_initialized,
  invalid_balance, nonce_too_low, nonce_too_low_local, exec_failed, no_exec_error, Note, no_note,
  l2_only, l4_local, l4_no_evm, l4_evm, Origin, local, coord,
}
use ioswarm.StateDb.{Geth, LocalStore}
use ioswarm.Evm.{EvmResult, Interpreter, execute_evm}

abbrev pub secp256k1_n : ℕ
secp256k1_n = 115792089237316195423570985008687907852837564279074904382605163141518161494337

-- The latency is measured where the task ends.
pub record ValidationResult : Type 0 where
  pub valid : Bool
  pub reject_reason : Reason
  pub gas_estimate : ℕ
  pub note : Note
  pub evm_result : Option EvmResult

abbrev pub rejected : Reason → ValidationResult
rejected reason = record {
  valid = false;
  reject_reason = reason;
  gas_estimate = 0;
  note = no_note;
  evm_result = none;
}

abbrev pub accepted : ℕ → Note → ValidationResult
accepted gas note = record {
  valid = true;
  reject_reason = no_reason;
  gas_estimate = gas;
  note = note;
  evm_result = none;
}

-- The checks on the two numbers of a signature.
unfoldable pub check_signature : ℕ → ℕ → ValidationResult
check_signature r s =
    if r == 0
    then rejected r_is_zero
    else if s == 0
    then rejected s_is_zero
    else if leb secp256k1_n r
    then rejected r_too_large
    else if leb secp256k1_n s
    then rejected s_too_large
    else accepted 21000 no_note

-- The two numbers: the bytes 0 to 31 and 32 to 63 of the last 65.
unfoldable pub signature_r : Bytes → ℕ
signature_r raw = of_bytes (take 32 (drop (length raw - 65) raw))

unfoldable pub signature_s : Bytes → ℕ
signature_s raw = of_bytes (take 32 (drop (length raw - 65 + 32) raw))

unfoldable pub validate_l1 : TaskPackage → ValidationResult
unfolding check_signature signature_r signature_s
validate_l1 task =
    if ltb (length task.tx_raw) 65
    then rejected tx_too_short
    else check_signature (signature_r task.tx_raw) (signature_s task.tx_raw)

unfoldable pub extract_tx_nonce : Bytes → ℕ
extract_tx_nonce raw = if ltb (length raw) 8 then 0 else of_bytes (take 8 raw)

-- 21000, or 100000 for a receiver with code.
unfoldable pub gas_estimate_of : Option AccountSnapshot → ℕ
gas_estimate_of none = 21000
gas_estimate_of (some receiver) = if ltb 0 (length receiver.code_hash) then 100000 else 21000

-- The checks of L2 on the sender, whose balance parses as the last argument.
unfoldable pub check_sender : TaskPackage → AccountSnapshot → Option ℤ → ValidationResult
unfolding extract_tx_nonce gas_estimate_of
check_sender task sender none = rejected (invalid_balance sender.balance)
check_sender task sender (some balance) =
    if is_nonpositive balance
    then rejected zero_balance
    else if ltb (extract_tx_nonce task.tx_raw) sender.nonce
    then rejected (nonce_too_low (extract_tx_nonce task.tx_raw) sender.nonce)
    else accepted (gas_estimate_of task.receiver) no_note

unfoldable pub check_state : TaskPackage → Option AccountSnapshot → ValidationResult
unfolding check_sender
check_state task none = rejected missing_sender
check_state task (some sender) = check_sender task sender (set_string sender.balance)

-- `if !v.Valid { return v }`, then the rest.
abbrev pub if_valid : ValidationResult → (ValidationResult → ValidationResult) → ValidationResult
if_valid v rest = if v.valid then rest v else v

unfoldable pub validate_l2 : TaskPackage → ValidationResult
unfolding validate_l1 check_state
validate_l2 task = if_valid (validate_l1 task) (λ l1. check_state task task.sender)

-- The result of an execution.
unfoldable pub of_evm_result : EvmResult → Note → ValidationResult
of_evm_result result note = record {
  valid = result.success;
  reject_reason = if result.success then no_reason else exec_failed result.error;
  gas_estimate = result.gas_used;
  note = note;
  evm_result = some result;
}

-- L3 behind the checks of L2.
unfoldable pub execute_l3 : Geth → Interpreter → TaskPackage → ValidationResult → ValidationResult
unfolding of_evm_result
execute_l3 g vm task l2 = elim task.evm_tx [
  | none ↦ record l2 { note = l2_only }
  | some etx ↦ of_evm_result (execute_evm g vm task none) no_note
]

unfoldable pub validate_l3 : Geth → Interpreter → TaskPackage → ValidationResult
unfolding validate_l2 execute_l3
validate_l3 g vm task = if_valid (validate_l2 task) (execute_l3 g vm task)

-- The execution's part of a task's result, where there was one.
unfoldable pub with_execution : TaskResult → Option EvmResult → TaskResult
with_execution r none = r
with_execution r (some e) = record r {
  gas_used = e.gas_used;
  return_data = e.return_data;
  state_changes = e.state_changes;
  logs = e.logs;
  exec_error = e.error;
}

-- The result before the execution's part.
abbrev pub plain_result : ℕ → ℕ → ValidationResult → TaskResult
plain_result task_id latency res = record {
  task_id = task_id;
  valid = res.valid;
  reject_reason = res.reject_reason;
  note = res.note;
  gas_estimate = res.gas_estimate;
  latency_us = latency;
  gas_used = 0;
  return_data = [];
  state_changes = [];
  logs = [];
  exec_error = no_exec_error;
}

-- The result for the coordinator.
unfoldable pub task_result_of : ℕ → ℕ → ValidationResult → TaskResult
unfolding with_execution
task_result_of task_id latency res =
    with_execution (plain_result task_id latency res) res.evm_result

module _ (w : Protowire) (b : Bolt) (fuel : ℕ) where
  -- The state store as MemStateDB reads it: by the bytes of an address or a slot.
  unfoldable pub local_store_of : StateStore b → LocalStore
  local_store_of s = record {
    account_of = λ addr. get_account w b s (to_bytes 20 addr);
    code_of = get_code w b s;
    slot_of = λ addr slot. get_storage_slot w b fuel s (to_bytes 20 addr) (to_bytes 32 slot);
  }

  -- The account that the local store has for the sender. Every failure counts as none.
  unfoldable pub local_account : StateStore b → Option AccountSnapshot → Option IoTxAccount
  local_account s none = none
  local_account s (some sender) =
      if length sender.address == 0 then none else elim (address_to_hash160 sender.address) [
        | err e ↦ none
        | ok addr_hash ↦ elim (get_account w b s addr_hash) [
          | ok (some acct) ↦ some acct
          | ok none ↦ none
          | err e ↦ none
        ]
      ]

  -- The checks on the local account, or on the coordinator's data where there is none.
  unfoldable pub check_local : ℕ → TaskPackage → Option IoTxAccount → ValidationResult
  unfolding validate_l2 extract_tx_nonce
  check_local height task none = validate_l2 task
  check_local height task (some acct) =
      let nonce = extract_tx_nonce task.tx_raw in
      if is_nonpositive acct.balance
      then record (rejected zero_balance_local) { note = l4_local height }
      else if ltb nonce acct.nonce
      then record (rejected (nonce_too_low_local nonce acct.nonce)) { note = l4_local height }
      else accepted 0 no_note

  abbrev pub origin_of : Option IoTxAccount → Origin
  origin_of none = coord
  origin_of (some acct) = local

  module _ (g : Geth) (vm : Interpreter) where
    unfoldable pub execute_local :
        StateStore b → TaskPackage → Option IoTxAccount → ValidationResult
    unfolding gas_estimate_of of_evm_result local_store_of
    execute_local s task acct = elim task.evm_tx [
      | none ↦ accepted (gas_estimate_of task.receiver) (l4_no_evm s.height (origin_of acct))
      | some etx ↦
          of_evm_result (execute_evm g vm task (some (local_store_of s)))
            (l4_evm s.height (origin_of acct))
    ]

    -- `activeStateStore` holds a store once L4 has been set up.
    unfoldable pub validate_l4 : Option (StateStore b) → TaskPackage → ValidationResult
    unfolding validate_l1 local_account check_local execute_local
    validate_l4 none task = rejected store_not_initialized
    validate_l4 (some s) task =
        let acct = local_account s task.sender in
        if_valid (validate_l1 task)
          (λ l1. if_valid (check_local s.height task acct) (λ l2. execute_local s task acct))

    -- `switch level`
    unfoldable pub validate_at : Option (StateStore b) → TaskPackage → Bytes → ValidationResult
    unfolding validate_l2 validate_l3 validate_l4
    validate_at store task level =
        if bytes_eq level (codes "L1")
        then validate_l1 task
        else if bytes_eq level (codes "L3")
        then validate_l3 g vm task
        else if bytes_eq level (codes "L4")
        then validate_l4 store task
        else validate_l2 task

    -- `latency` is what the clock measures.
    unfoldable pub validate_task : ℕ → Option (StateStore b) → TaskPackage → Bytes → TaskResult
    unfolding validate_at task_result_of
    validate_task latency store task level =
        task_result_of task.task_id latency (validate_at store task level)
