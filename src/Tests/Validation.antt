-- ===== src/Tests/Validation.antt =====
-- A signed task, with its sender in the task, for validator.go.
use ioswarm.Common.{◌≡◌, ◌↔◌, refl, none, some, [], ◌∷◌, ◌++◌, Bytes, bytes_eq, codes, true}
use ioswarm.Common.BigEndian.{of_bytes, to_bytes}
use ioswarm.Common.Int.{set_string}
use ioswarm.Wire.Wide.{wide}
use ioswarm.Account.{address_to_hash160}
use ioswarm.Types.{AccountSnapshot, TaskPackage}
use ioswarm.Store.{StateStore}
use ioswarm.Store.Memory.{no_memory, memory}
use ioswarm.Evm.{Interpreter, returned}
use ioswarm.Validator.{validate_l2, local_account, validate_l4, validate_task}
use ioswarm.Validator.Signature.{
  IsSigned, IsFunded, IsTrusted, validate_l2_iff, validate_l4_sound, validate_l4_iff,
  validate_task-IsSigned,
}
use ioswarm.Tests.States.{sample_geth}

-- A nonce of 8 bytes, r = 1, s = 2, and v.
abbrev signed_bytes : Bytes
signed_bytes = to_bytes 8 3 ++ (to_bytes 32 1 ++ (to_bytes 32 2 ++ 27 ∷ []))

abbrev sample_sender : AccountSnapshot
sample_sender = record { address = codes "0x12"; balance = codes "250"; nonce = 3; code_hash = [] }

abbrev pub sample_task : TaskPackage
sample_task = record {
  task_id = 1;
  tx_raw = signed_bytes;
  level = 0;
  sender = some sample_sender;
  receiver = none;
  block_height = 10;
  block_context = none;
  contract_code = [];
  storage_slots = [];
  evm_tx = none;
}

-- An interpreter that returns at once.
abbrev pub idle : Interpreter
idle = record {
  create = λ ctx origin price s caller input gas value. returned [] gas none s;
  call = λ ctx origin price s caller to input gas value. returned [] gas none s;
}

abbrev pub empty_store : StateStore memory
empty_store = record { db = no_memory; height = 0 }

validate_l2_iff_example :
    ((validate_l2 sample_task).valid ≡ true)
    ↔ (IsSigned signed_bytes × IsFunded signed_bytes (some sample_sender))
validate_l2_iff_example = validate_l2_iff sample_task

sample_task_valid :
    (validate_task wide memory 40 sample_geth idle 5
      (some empty_store)
      sample_task
      (codes "L4")).valid
    ≡ true
unfolding validate_task bytes_eq to_bytes of_bytes address_to_hash160 set_string
sample_task_valid = refl

validate_l4_valid :
    (validate_l4 wide memory 40 sample_geth idle (some empty_store) sample_task).valid ≡ true
unfolding validate_l4 bytes_eq to_bytes of_bytes address_to_hash160 set_string
validate_l4_valid = refl

validate_l4_sound_example :
    IsSigned signed_bytes
    × IsTrusted sample_task (local_account wide memory 40 empty_store (some sample_sender))
validate_l4_sound_example =
    validate_l4_sound wide memory 40 sample_geth idle empty_store sample_task validate_l4_valid

validate_l4_iff_example :
    ((validate_l4 wide memory 40 sample_geth idle (some empty_store) sample_task).valid ≡ true) ↔ (
      IsSigned signed_bytes
      × IsTrusted sample_task (local_account wide memory 40 empty_store (some sample_sender)))
validate_l4_iff_example =
    validate_l4_iff wide memory 40 sample_geth idle empty_store sample_task refl

validate_task-IsSigned_example : IsSigned signed_bytes
validate_task-IsSigned_example =
    validate_task-IsSigned wide memory 40 sample_geth idle 5 (some empty_store) sample_task
      (codes "L4") sample_task_valid
