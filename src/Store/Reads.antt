-- ===== src/Store/Reads.antt =====
-- Reading accounts, code and storage slots.
use ioswarm.Common.{ℕ, Option, none, some, Bytes, ◌==◌, if◌then◌else◌, length, Result, ok, err}
use ioswarm.Errors.{Error, get_account_failed, trie_get_failed, is_key_not_found}
use ioswarm.Wire.{Protowire}
use ioswarm.Mpt.{trie_get}
use ioswarm.Account.{IoTxAccount, decode_account}
use ioswarm.Store.Driver.{Bolt}
use ioswarm.Store.Defs.{StateStore, get, ns_account, ns_code}

module _ (w : Protowire) (b : Bolt) where
  unfoldable pub get_account : StateStore b → Bytes → Result Error (Option IoTxAccount)
  get_account s addr_hash = elim (get b s ns_account addr_hash) [
    | err e ↦ err e
    | ok none ↦ ok none
    | ok (some stored) ↦ elim (decode_account w stored) [ err e ↦ err e | ok acct ↦ ok (some acct) ]
  ]

  unfoldable pub get_code : StateStore b → Bytes → Result Error (Option Bytes)
  get_code s code_hash = get b s ns_code code_hash

  -- `fuel` bounds the nodes that `trieGet` visits.
  unfoldable pub get_storage_slot : ℕ → StateStore b → Bytes → Bytes → Result Error (Option Bytes)
  unfolding get_account
  get_storage_slot fuel s addr_hash slot = elim (get_account s addr_hash) [
    | err e ↦ err (get_account_failed e)
    | ok none ↦ ok none
    | ok (some acct) ↦
        if length acct.root == 0 then ok none else elim (trie_get w (get b s) fuel acct.root slot) [
          | ok value ↦ ok value
          | err e ↦ if is_key_not_found e then ok none else err (trie_get_failed e)
        ]
  ]
