-- ===== src/Mpt/Encode.antt =====
-- The encoders of mpt.go.
use ioswarm.Common.{ℕ, [], ◌∷◌, List, Bytes}
use ioswarm.Wire.{varint_type, bytes_type, Protowire}

module _ (w : Protowire) where
  unfoldable pub encode_leaf_node : Bytes → Bytes → Bytes
  encode_leaf_node key value =
      let leaf1 : Bytes = w.append_tag [] 2 bytes_type in
      let leaf2 : Bytes = w.append_bytes leaf1 key in
      let leaf3 : Bytes = w.append_tag leaf2 3 bytes_type in
      let leaf4 : Bytes = w.append_bytes leaf3 value in
      w.append_bytes (w.append_tag [] 3 bytes_type) leaf4

  unfoldable pub encode_branch_child : ℕ → Bytes → Bytes
  encode_branch_child idx hash =
      let bnp1 : Bytes = w.append_tag [] 1 varint_type in
      let bnp2 : Bytes = w.append_varint bnp1 idx in
      let bnp3 : Bytes = w.append_tag bnp2 2 bytes_type in w.append_bytes bnp3 hash

  -- The loop over the map, on its pairs in the order that `range` visits them.
  unfoldable pub encode_children : Bytes → List (ℕ × Bytes) → Bytes
  unfolding encode_branch_child
  encode_children branch [] = branch
  encode_children branch ((idx, hash) ∷ children) =
      encode_children
        (w.append_bytes (w.append_tag branch 1 bytes_type) (encode_branch_child idx hash)) children

  unfoldable pub encode_branch_node : List (ℕ × Bytes) → Bytes
  unfolding encode_children
  encode_branch_node children =
      w.append_bytes (w.append_tag [] 2 bytes_type) (encode_children [] children)

  unfoldable pub encode_extension_node : Bytes → Bytes → Bytes
  encode_extension_node path child_hash =
      let ext1 : Bytes = w.append_tag [] 1 bytes_type in
      let ext2 : Bytes = w.append_bytes ext1 path in
      let ext3 : Bytes = w.append_tag ext2 2 bytes_type in
      let ext4 : Bytes = w.append_bytes ext3 child_hash in
      w.append_bytes (w.append_tag [] 4 bytes_type) ext4
