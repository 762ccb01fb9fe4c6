-- ===== src/Mpt/Walk.antt =====
-- `trieGet` of mpt.go, over `StateStore.Get` as a parameter.
use ioswarm.Common.{
  ℕ, zero, suc, ◌+◌, Option, [], ◌∷◌, Bytes, ◌||◌, ◌==◌, ltb, bytes_eq, codes, if◌then◌else◌,
  get_elem?, take, drop, length, Result, ok, err, ◌>>=◌, or_err, wrap_err,
}
use ioswarm.Errors.{
  Error, node_not_found, key_not_found, load_trie_node, missing_trie_node, decode_trie_node,
  out_of_fuel,
}
use ioswarm.Wire.{Protowire}
use ioswarm.Mpt.Node.{Node, branch, extension, leaf}
use ioswarm.Mpt.Decode.{decode_node_pb}

abbrev pub ns_contract : Bytes
ns_contract = codes "Contract"

abbrev pub empty_trie_root : Bytes
empty_trie_root =
    0x61 ∷ 0x8e ∷ 0x1c ∷ 0xe1 ∷ 0xff ∷ 0xfb ∷ 0x18 ∷ 0x25 ∷ 0x15 ∷ 0x9f ∷ 0x9a ∷ 0xa2 ∷ 0xc2 ∷ 0xe9
    ∷ 0x37 ∷ 0x24 ∷ 0x02 ∷ 0xfb ∷ 0xd0 ∷ 0xab ∷ []

-- `store.Get`: a namespace and a key to a value, `none` where Go returns nil.
abbrev pub StoreGet : Type 0
StoreGet = Bytes → Bytes → Result Error (Option Bytes)

-- The `switch` on the node's type; `continue_at` is the next round, with the child's hash and the
-- new offset.
unfoldable pub visit :
    (Bytes → ℕ → Result Error (Option Bytes)) → ℕ → Bytes → Node → Result Error (Option Bytes)
visit continue_at offset key (branch children) = do
  c ← or_err (get_elem? key offset) key_not_found
  child_hash ← or_err (children c) key_not_found
  continue_at child_hash (offset + 1)
visit continue_at offset key (extension ext) =
    if ltb (length key) (offset + length ext.path)
    then err key_not_found
    else if bytes_eq ext.path (take (length ext.path) (drop offset key))
    then continue_at ext.child_hash (offset + length ext.path)
    else err key_not_found
visit continue_at offset key (leaf l) =
    if ltb (length l.key) offset || ltb (length key) offset
    then err key_not_found
    else if bytes_eq (drop offset l.key) (drop offset key)
    then ok l.value
    else err key_not_found

module _ (w : Protowire) (get : StoreGet) where
  -- The node that a hash names in the Contract namespace.
  unfoldable pub load_node : Bytes → Result Error Node
  load_node node_hash = do
    found ← wrap_err (load_trie_node node_hash) (get ns_contract node_hash)
    stored ← or_err found (missing_trie_node node_hash node_not_found)
    wrap_err (decode_trie_node node_hash) (decode_node_pb w stored)

  -- The `for` loop. Each round visits one node, and the fuel counts the nodes.
  unfoldable pub trie_loop : ℕ → Bytes → ℕ → Bytes → Result Error (Option Bytes)
  unfolding load_node visit
  trie_loop zero node_hash offset key = err out_of_fuel
  trie_loop (suc fuel) node_hash offset key = do
    node ← load_node node_hash
    visit (λ child_hash offset'. trie_loop fuel child_hash offset' key) offset key node

  unfoldable pub trie_get : ℕ → Bytes → Bytes → Result Error (Option Bytes)
  unfolding trie_loop
  trie_get fuel root_hash key =
      if length root_hash == 0 || bytes_eq root_hash empty_trie_root
      then err key_not_found
      else trie_loop fuel root_hash 0 key
