-- ===== src/Tests/States.antt =====
-- States of MemStateDB, with small functions in place of go-ethereum's.
use ioswarm.Common.{ℕ, ◌≡◌, refl, none, some, [], ◌∷◌, ok, arith, length, false}
use ioswarm.Common.BigEndian.{of_bytes, to_bytes}
use ioswarm.Common.Int.{pos, magnitude}
use ioswarm.StateDb.{
  Geth, LocalStore, EvmAccount, MemStateDb, blank_state, set_account, set_state, get_state,
  get_committed_state, set_local_store, entry_of, snapshot, revert_to_snapshot, add_log,
}
use ioswarm.StateDb.Revert.{IsReverted, revert_to_snapshot-snapshot}
use ioswarm.StateDb.Slots.{
  get_state-set_state, get_committed_state-set_state, get_committed_state_overwrites,
}
use ioswarm.Evm.{iotex_transfer, transfer_log}
use ioswarm.Evm.Transfer.{IsMoved, iotex_transfer_conserves}

abbrev pub sample_geth : Geth
sample_geth = record {
  keccak256_hash = length;
  bytes_to_hash = of_bytes;
  hex_to_hash = of_bytes;
  hex_to_address = of_bytes;
  address_hex = to_bytes 20;
  hash_hex = to_bytes 32;
  from_big = λ z. (magnitude z, false);
}

abbrev account_with : ℕ → EvmAccount
account_with balance = record {
  balance = balance;
  nonce = 0;
  code = [];
  code_hash = 0;
  suicided = false;
  is_new = false;
}

abbrev two_accounts : MemStateDb
two_accounts = set_account (set_account blank_state 1 (account_with 100)) 2 (account_with 5)

-- A write and a log behind a snapshot, then a second snapshot.
abbrev written : MemStateDb
written = add_log (set_state (snapshot two_accounts).1 1 7 9).1 (transfer_log sample_geth 1 2 3)

abbrev later_state : MemStateDb
later_state = (snapshot written).1

revert_to_snapshot-snapshot_example :
    IsReverted two_accounts later_state (revert_to_snapshot later_state (pos 0))
unfolding snapshot add_log set_state
revert_to_snapshot-snapshot_example =
    revert_to_snapshot-snapshot two_accounts later_state (entry_of written ∷ []) refl

get_state-set_state_example :
    get_state sample_geth (set_state two_accounts 1 7 9).1 1 7
    ≡ (9, (set_state two_accounts 1 7 9).1)
get_state-set_state_example = get_state-set_state sample_geth two_accounts 1 7 9

get_committed_state-set_state_example :
    (get_committed_state sample_geth (set_state two_accounts 1 7 9).1 1 7).0
    ≡ (get_committed_state sample_geth two_accounts 1 7).0
get_committed_state-set_state_example =
    get_committed_state-set_state sample_geth two_accounts 1 7 9 1 7

-- A local store whose every slot holds 4.
abbrev fours : LocalStore
fours = record {
  account_of = λ addr. ok none;
  code_of = λ hash. ok none;
  slot_of = λ addr slot. ok (some (4 ∷ []));
}

get_committed_state_overwrites_example :
    (get_state sample_geth
      (get_committed_state sample_geth
        (set_state (set_local_store two_accounts fours) 1 7 9).1
        1
        7).1
      1
      7).0
    ≡ 4
unfolding set_local_store of_bytes
get_committed_state_overwrites_example =
    get_committed_state_overwrites sample_geth (set_local_store two_accounts fours) fours 1 7 9
      (4 ∷ []) refl refl refl

iotex_transfer_conserves_example :
    IsMoved sample_geth two_accounts
      (iotex_transfer sample_geth two_accounts 1 2 30)
      1
      2
      30
      (account_with 100)
      (account_with 5)
iotex_transfer_conserves_example =
    iotex_transfer_conserves sample_geth two_accounts 1 2 30 (account_with 100) (account_with 5)
      (λ e. omega arith) refl refl (omega arith) (omega arith)
