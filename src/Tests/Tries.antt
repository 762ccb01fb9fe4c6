-- ===== src/Tests/Tries.antt =====
-- A trie of three nodes for mpt.go: a branch at the root, an extension, and a leaf.
use ioswarm.Common.{
  ℕ, ◌≡◌, ◌≢◌, ◌↔◌, refl, none, some, List, [], ◌∷◌, Bytes, bytes_eq, if◌then◌else◌, empty,
  Bool-cases, ok, err, arith, inl, inr, length,
}
use ioswarm.Errors.{out_of_fuel}
use ioswarm.Wire.{message}
use ioswarm.Wire.Wide.{wide, wide-HasProgress, wide-HasRoundTrip}
use ioswarm.Mpt.{
  MptExtNode, branch, extension, leaf, StoreGet, empty_trie_root, load_node, trie_get,
  decode_node_pb, encode_leaf_node, encode_branch_node, encode_extension_node,
}
use ioswarm.Mpt.Leads.{Leads}
use ioswarm.Mpt.Halts.{HasNoEmptyPath, trie_get_finds, trie_get_diverges}
use ioswarm.Mpt.RoundTrip.{insert_children, decode_node_pb_back}
use ioswarm.Mpt.Ends.{decode_node_pb_ends}

abbrev root_hash : Bytes
root_hash = 1 ∷ []

root_hash-IsRoot : (length root_hash ≢ 0) × (root_hash ≢ empty_trie_root)
root_hash-IsRoot = ((λ q. omega arith), (λ q. cc))

abbrev two_children : List (ℕ × Bytes)
two_children = (5, 2 ∷ []) ∷ (9, 3 ∷ []) ∷ []

abbrev sample_key : Bytes
sample_key = 5 ∷ 6 ∷ 7 ∷ []

abbrev sample_get : StoreGet
sample_get ns h =
    if bytes_eq h root_hash
    then ok (some (encode_branch_node wide two_children))
    else if bytes_eq h (2 ∷ [])
    then ok (some (encode_extension_node wide (6 ∷ []) (3 ∷ [])))
    else if bytes_eq h (3 ∷ [])
    then ok (some (encode_leaf_node wide sample_key (42 ∷ [])))
    else ok none

sample-HasNoEmptyPath : HasNoEmptyPath wide sample_get
unfolding load_node decode_node_pb message encode_leaf_node encode_branch_node encode_extension_node
sample-HasNoEmptyPath h x = elim (Bool-cases (bytes_eq h root_hash)) [
  | inl e ↦ rw e (λ q. cc)
  | inr e ↦ rw e (elim (Bool-cases (bytes_eq h (2 ∷ []))) [
    | inl e2 ↦ rw e2 (λ q z. cc)
    | inr e2 ↦ rw e2 (elim (Bool-cases (bytes_eq h (3 ∷ []))) [
      | inl e3 ↦ rw e3 (λ q. cc)
      | inr e3 ↦ rw e3 (λ q. cc)
    ])
  ])
]

trie_get_finds_example :
    (trie_get wide sample_get 4 root_hash sample_key ≢ err out_of_fuel)
    × ((trie_get wide sample_get 4 root_hash sample_key ≡ ok (some (42 ∷ [])))
        ↔ Leads wide sample_get root_hash 0 sample_key (some (42 ∷ [])))
trie_get_finds_example =
    trie_get_finds wide sample_get root_hash sample_key (some (42 ∷ [])) 4 sample-HasNoEmptyPath
      root_hash-IsRoot (omega arith)

sample_value : trie_get wide sample_get 4 root_hash sample_key ≡ ok (some (42 ∷ []))
unfolding trie_get encode_leaf_node encode_branch_node encode_extension_node bytes_eq decode_node_pb
    message
sample_value = refl

abbrev self_node : MptExtNode
self_node = record { path = []; child_hash = root_hash }

abbrev self_get : StoreGet
self_get ns h = ok (some (encode_extension_node wide [] root_hash))

self_loads : load_node wide self_get root_hash ≡ ok (extension self_node)
unfolding load_node encode_extension_node decode_node_pb message
self_loads = refl

trie_get_diverges_example : trie_get wide self_get 1000 root_hash sample_key ≡ err out_of_fuel
trie_get_diverges_example =
    trie_get_diverges wide self_get root_hash sample_key self_node root_hash-IsRoot self_loads refl
      refl 1000

decode_node_pb_back_example :
    (decode_node_pb wide (encode_leaf_node wide sample_key (42 ∷ []))
      ≡ ok (leaf (record { key = sample_key; value = some (42 ∷ []) })))
    × (decode_node_pb wide (encode_extension_node wide (6 ∷ []) (3 ∷ []))
        ≡ ok (extension (record { path = 6 ∷ []; child_hash = 3 ∷ [] })))
    × (decode_node_pb wide (encode_branch_node wide two_children)
        ≡ ok (branch (insert_children empty two_children)))
decode_node_pb_back_example =
    decode_node_pb_back wide wide-HasRoundTrip sample_key (42 ∷ []) (6 ∷ []) (3 ∷ []) two_children
      (omega arith, (omega arith, tt))

decode_node_pb_ends_example : decode_node_pb wide (18 ∷ 1 ∷ 7 ∷ []) ≢ err out_of_fuel
decode_node_pb_ends_example = decode_node_pb_ends wide wide-HasProgress (18 ∷ 1 ∷ 7 ∷ [])
