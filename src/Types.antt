-- ===== src/Types.antt =====
-- types.go: the messages between coordinator and agent, as far as the agent's own code reads or
-- writes them. Text is a list of bytes, and a pointer that may be nil an `Option`.
use ioswarm.Common.{ℕ, Option, List, Bytes, Bool}

pub record AccountSnapshot : Type 0 where
  pub address : Bytes
  pub balance : Bytes
  pub nonce : ℕ
  pub code_hash : Bytes

pub record BlockCtx : Type 0 where
  pub timestamp : ℕ
  pub gas_limit : ℕ
  pub base_fee : Bytes
  pub coinbase : Bytes
  pub number : ℕ

pub record EvmTx : Type 0 where
  pub to : Bytes
  pub value : Bytes
  pub input : Bytes
  pub gas_limit : ℕ
  pub gas_price : Bytes

-- Maps that the agent ranges over are the lists of their pairs, in the order of the visit.
pub record TaskPackage : Type 0 where
  pub task_id : ℕ
  pub tx_raw : Bytes
  pub level : ℕ
  pub sender : Option AccountSnapshot
  pub receiver : Option AccountSnapshot
  pub block_height : ℕ
  pub block_context : Option BlockCtx
  pub contract_code : List (Bytes × Bytes)
  pub storage_slots : List (Bytes × List (Bytes × Bytes))
  pub evm_tx : Option EvmTx

pub record StateChange : Type 0 where
  pub address : Bytes
  pub slot : Bytes
  pub old_value : Bytes
  pub new_value : Bytes

pub record LogEntry : Type 0 where
  pub address : Bytes
  pub topics : List Bytes
  pub log_data : Bytes

-- The texts of an execution error: evm.go's own, one of the interpreter, or a recovered panic.
pub data ExecError : Type 0 where
  no_exec_error no_evm_tx no_sender value_overflow : ExecError
  vm_error evm_panic : Bytes → ExecError

-- The texts of `RejectReason`, one constructor for each message of validator.go.
pub data Reason : Type 0 where
  no_reason tx_too_short r_is_zero s_is_zero r_too_large s_too_large : Reason
  missing_sender zero_balance zero_balance_local store_not_initialized : Reason
  invalid_balance : Bytes → Reason
  nonce_too_low nonce_too_low_local : ℕ → ℕ → Reason
  exec_failed : ExecError → Reason

-- Where an L4 check took the sender's state from.
pub data Origin : Type 0 where
  local coord : Origin

-- The texts of `Note`.
pub data Note : Type 0 where
  no_note l2_only : Note
  l4_local : ℕ → Note
  l4_no_evm l4_evm : ℕ → Origin → Note

pub record TaskResult : Type 0 where
  pub task_id : ℕ
  pub valid : Bool
  pub reject_reason : Reason
  pub note : Note
  pub gas_estimate : ℕ
  pub latency_us : ℕ
  pub gas_used : ℕ
  pub return_data : Bytes
  pub state_changes : List StateChange
  pub logs : List LogEntry
  pub exec_error : ExecError
