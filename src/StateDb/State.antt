-- ===== src/StateDb/State.antt =====
-- The data of statedb.go. An address is a number below 2^160 and a hash one below 2^256, whose
-- big-endian bytes are the Go array; a uint256 is a number below 2^256.
use ioswarm.Common.{ℕ, Option, List, Bytes, Bool, Map, Result}
use ioswarm.Common.Int.{ℤ}
use ioswarm.Errors.{Error}
use ioswarm.Account.{IoTxAccount}

-- What the code calls of go-ethereum (common, crypto) and holiman/uint256.
pub record Geth : Type 0 where
  -- crypto.Keccak256Hash
  pub keccak256_hash : Bytes → ℕ
  -- common.BytesToHash, common.HexToHash and common.HexToAddress
  pub bytes_to_hash : Bytes → ℕ
  pub hex_to_hash : Bytes → ℕ
  pub hex_to_address : Bytes → ℕ
  -- the Hex methods of common.Address and common.Hash
  pub address_hex : ℕ → Bytes
  pub hash_hex : ℕ → Bytes
  -- uint256.FromBig: the value, and whether it overflowed
  pub from_big : ℤ → ℕ × Bool

-- What MemStateDB asks of the local StateStore: GetAccount, GetCode and GetStorageSlot.
pub record LocalStore : Type 0 where
  pub account_of : ℕ → Result Error (Option IoTxAccount)
  pub code_of : Bytes → Result Error (Option Bytes)
  pub slot_of : ℕ → ℕ → Result Error (Option Bytes)

pub record EvmAccount : Type 0 where
  pub balance : ℕ
  pub nonce : ℕ
  pub code : Bytes
  pub code_hash : ℕ
  pub suicided : Bool
  pub is_new : Bool

pub record StorageChange : Type 0 where
  pub address : ℕ
  pub slot : ℕ
  pub old_value : ℕ
  pub new_value : ℕ

-- types.Log
pub record Log : Type 0 where
  pub address : ℕ
  pub topics : List ℕ
  pub log_data : Bytes
  pub tx_hash : ℕ
  pub tx_index : ℕ
  pub index : ℕ

pub record SnapshotEntry : Type 0 where
  pub accounts : Map EvmAccount
  pub storage : Map (Map ℕ)
  pub changes : List StorageChange
  pub logs : List Log
  pub refund : ℕ
  pub accessed_addresses : Map Bool
  pub accessed_slots : Map (Map Bool)
  pub transient_storage : Map (Map ℕ)

-- MemStateDB, without the point cache, which holds no state of the program's.
pub record MemStateDb : Type 0 where
  pub accounts : Map EvmAccount
  pub storage : Map (Map ℕ)
  pub committed_storage : Map (Map ℕ)
  pub logs : List Log
  pub changes : List StorageChange
  pub snapshots : List SnapshotEntry
  pub tx_hash : ℕ
  pub tx_index : ℕ
  pub log_index : ℕ
  pub refund : ℕ
  pub accessed_addresses : Map Bool
  pub accessed_slots : Map (Map Bool)
  pub transient_storage : Map (Map ℕ)
  pub local_store : Option LocalStore
