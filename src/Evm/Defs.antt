-- ===== src/Evm/Defs.antt =====
-- executeEVM and the functions that it gives to the interpreter.
use ioswarm.Common.{
  ℕ, ◌+◌, ◌-◌, ◌%◌, ◌^◌, Option, none, some, List, [], ◌∷◌, Bytes, Bool, true, false, ◌==◌, leb,
  if◌then◌else◌, length, map,
}
use ioswarm.Common.BigEndian.{to_bytes}
use ioswarm.Common.Int.{ℤ, pos, set_string}
use ioswarm.Types.{
  TaskPackage, AccountSnapshot, EvmTx, StateChange, LogEntry, ExecError, no_exec_error, no_evm_tx,
  no_sender, value_overflow, vm_error, evm_panic,
}
use ioswarm.StateDb.{
  Geth, LocalStore, MemStateDb, Log, get_balance, sub_balance, add_balance, add_log,
  new_mem_state_db, set_local_store, get_state_changes,
}

pub record EvmResult : Type 0 where
  pub success : Bool
  pub gas_used : ℕ
  pub return_data : Bytes
  pub state_changes : List StateChange
  pub logs : List LogEntry
  pub error : ExecError

-- vm.BlockContext, without its three functions and its constant fields.
pub record BlockContext : Type 0 where
  pub coinbase : Option ℕ
  pub block_number : ℕ
  pub time : ℕ
  pub difficulty : ℕ
  pub gas_limit : ℕ
  pub base_fee : ℤ

-- What evm.Create and evm.Call leave: a panic's text, or the returned bytes, the gas left and the
-- error, with the state behind the run.
pub data Outcome : Type 0 where
  panicked : Bytes → Outcome
  returned : Bytes → ℕ → Option Bytes → MemStateDb → Outcome

-- `big.Int.Bytes` and `uint256.Int.Bytes`: no leading zeros.
pub strip_zeros : Bytes → Bytes
strip_zeros [] = []
strip_zeros (b ∷ bs) = if b == 0 then strip_zeros bs else b ∷ bs

abbrev pub in_contract_transfer : Bytes
in_contract_transfer = to_bytes 32 0

-- A number's text, or zero where it does not parse.
unfoldable pub number_or_zero : Bytes → ℤ
number_or_zero text = elim (set_string text) [ some n ↦ n | none ↦ pos 0 ]

-- mockGetHash: the hash whose bytes are the number's.
abbrev pub mock_get_hash : ℕ → ℕ
mock_get_hash n = n

module _ (g : Geth) where
  unfoldable pub can_transfer : MemStateDb → ℕ → ℕ → Bool × MemStateDb
  can_transfer s addr amount = let (bal, s') = get_balance g s addr in (leb amount bal, s')

  -- The fields that AddLog sets are zero in the literal.
  abbrev pub transfer_log : ℕ → ℕ → ℕ → Log
  transfer_log sender recipient amount = record {
    address = 0;
    topics =
        g.bytes_to_hash in_contract_transfer
        ∷ g.bytes_to_hash (to_bytes 20 sender)
        ∷ g.bytes_to_hash (to_bytes 20 recipient)
        ∷ [];
    log_data = strip_zeros (to_bytes 32 amount);
    tx_hash = 0;
    tx_index = 0;
    index = 0;
  }

  unfoldable pub iotex_transfer : MemStateDb → ℕ → ℕ → ℕ → MemStateDb
  iotex_transfer s sender recipient amount =
      let s1 = (sub_balance g s sender amount).1 in
      let s2 = (add_balance g s1 recipient amount).1 in
      add_log s2 (transfer_log sender recipient amount)

  unfoldable pub block_context : TaskPackage → BlockContext
  unfolding number_or_zero
  block_context task = elim task.block_context [
    | some ctx ↦ record {
      coinbase = some (g.hex_to_address ctx.coinbase);
      block_number = ctx.number;
      time = ctx.timestamp;
      difficulty = 50;
      gas_limit = ctx.gas_limit;
      base_fee = number_or_zero ctx.base_fee;
    }
    | none ↦ record {
      coinbase = none;
      block_number = task.block_height;
      time = 0;
      difficulty = 50;
      gas_limit = 30000000;
      base_fee = pos 0;
    }
  ]

  abbrev pub log_entry : Log → LogEntry
  log_entry log = record {
    address = g.address_hex log.address;
    topics = map g.hash_hex log.topics;
    log_data = log.log_data;
  }

  abbrev pub failed : ExecError → EvmResult
  failed e = record {
    success = false;
    gas_used = 0;
    return_data = [];
    state_changes = [];
    logs = [];
    error = e;
  }

  abbrev pub exec_error_of : Option Bytes → ExecError
  exec_error_of none = no_exec_error
  exec_error_of (some e) = vm_error e

  abbrev pub succeeded : Option Bytes → Bool
  succeeded none = true
  succeeded (some e) = false

  -- The gas is a uint64, whose difference wraps.
  unfoldable pub collect : ℕ → Outcome → EvmResult
  collect gas (panicked e) = failed (evm_panic e)
  collect gas (returned ret gas_left e s) = record {
    success = succeeded e;
    gas_used = (gas + 2 ^ 64 - gas_left) % 2 ^ 64;
    return_data = ret;
    state_changes = get_state_changes g s;
    logs = map log_entry s.logs;
    error = exec_error_of e;
  }

  abbrev pub with_store : Option LocalStore → MemStateDb → MemStateDb
  with_store none s = s
  with_store (some store) s = set_local_store s store

-- evm.Create and evm.Call of an EVM made by NewEVM: the block, the origin, the gas price, the state,
-- then the call's own arguments.
pub record Interpreter : Type 0 where
  pub create : BlockContext → ℕ → ℤ → MemStateDb → ℕ → Bytes → ℕ → ℕ → Outcome
  pub call : BlockContext → ℕ → ℤ → MemStateDb → ℕ → ℕ → Bytes → ℕ → ℕ → Outcome

module _ (g : Geth) (vm : Interpreter) where
  -- The run of a transaction whose value fits.
  unfoldable pub run_tx : TaskPackage → Option LocalStore → EvmTx → AccountSnapshot → ℕ → Outcome
  unfolding block_context number_or_zero
  run_tx task store etx snd value =
      let s = with_store g store (new_mem_state_db g task) in
      let origin = g.hex_to_address snd.address in
      let price = number_or_zero etx.gas_price in
      if length etx.to == 0
      then vm.create (block_context g task) origin price s origin etx.input etx.gas_limit value
      else vm.call (block_context g task) origin price s origin (g.hex_to_address etx.to) etx.input
          etx.gas_limit value

  unfoldable pub execute_tx :
      TaskPackage → Option LocalStore → EvmTx → AccountSnapshot → ℕ × Bool → EvmResult
  unfolding run_tx collect
  execute_tx task store etx snd (value, true) = failed g value_overflow
  execute_tx task store etx snd (value, false) =
      collect g etx.gas_limit (run_tx task store etx snd value)

  unfoldable pub execute_evm : TaskPackage → Option LocalStore → EvmResult
  unfolding execute_tx number_or_zero
  execute_evm task store = elim task.evm_tx [
    | none ↦ failed g no_evm_tx
    | some etx ↦ elim task.sender [
      | none ↦ failed g no_sender
      | some snd ↦ execute_tx task store etx snd (g.from_big (number_or_zero etx.value))
    ]
  ]
