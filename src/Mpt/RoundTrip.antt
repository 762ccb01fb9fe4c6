-- ===== src/Mpt/RoundTrip.antt =====
-- `decodeNodePb` reads back what the three encoders of mpt.go write.
use ioswarm.Common.{
  ℕ, ◌%◌, ◌^◌, ◌≤◌, ◌<◌, ◌≡◌, refl, sym, ◌∙◌, none, some, List, [], ◌∷◌, ◌++◌, arith, Bytes, All,
  Map, empty, insert, ok,
}
use mathlib.Core.List.{append-nil, append_assoc}
use ioswarm.Errors.{invalid_node, out_of_fuel}
use ioswarm.Wire.{
  Protowire, HasRoundTrip, WireField, varint_type, varint_field, bytes_field, IsField, fold_fields,
  put_field, bytes_type, put_fields, append_bytes_field, append_varint_field, message_first,
}
use ioswarm.Mpt.Node.{MptExtNode, MptLeafNode, Node, branch, extension, leaf}
use ioswarm.Mpt.Decode.{
  decode_branch_pb, decode_leaf_pb, decode_extend_pb, node_field, decode_node_pb,
}
use ioswarm.Mpt.Encode.{
  encode_leaf_node, encode_branch_child, encode_children, encode_branch_node, encode_extension_node,
}
use ioswarm.Mpt.Fields.{
  branch_step, decode_leaf_pb-fields, decode_extend_pb-fields, decode_branch_node_pb-fields,
  decode_branch_pb-fields,
}

-- The map that a loop of `children[byte(idx)] = path` builds.
abbrev pub insert_children : Map Bytes → List (ℕ × Bytes) → Map Bytes
insert_children m [] = m
insert_children m ((idx, hash) ∷ children) = insert_children (insert idx hash m) children

-- Keys of `map[byte][]byte`.
abbrev pub IsByteKey : ℕ × Bytes → Type 0
IsByteKey (idx, hash) = idx < 256

-- `byte(uint32(v))` of a byte is that byte.
byte_key : (idx : ℕ) → idx < 256 → idx % 2 ^ 32 % 256 ≡ idx
byte_key idx h = omega arith

module _ (w : Protowire) (r : HasRoundTrip w) where
  -- A node is one field; the decoder stops behind it.
  node_of_field :
      (num : ℕ) (v : Bytes) (node : Node)
      → 1 ≤ num
      → num < 2 ^ 29
      → node_field w none num bytes_type (w.append_bytes [] v ++ []) ≡ ok (some node, [])
      → decode_node_pb w (w.append_bytes (w.append_tag [] num bytes_type) v) ≡ ok node
  unfolding decode_node_pb
  node_of_field num v node lo hi e = rw (
    append_bytes_field w r [] num v,
    ← append-nil (put_field w (bytes_field num v)),
    message_first w out_of_fuel (λ _. invalid_node) (node_field w) r none (some node)
        (bytes_field num v) [] (lo, hi) e,
  )

  two_fields :
      (i j : ℕ) (u v : Bytes)
      → w.append_bytes
          (w.append_tag (w.append_bytes (w.append_tag [] i bytes_type) u) j bytes_type)
          v
        ≡ put_fields w (bytes_field i u ∷ bytes_field j v ∷ [])
  two_fields i j u v = rw (
    append_bytes_field w r (w.append_bytes (w.append_tag [] i bytes_type) u) j v,
    append_bytes_field w r [] i u,
    append-nil (put_field w (bytes_field j v)),
  )

  leaf_payload :
      (v : Bytes) (l : MptLeafNode)
      → decode_leaf_pb w v ≡ ok l
      → node_field w none 3 bytes_type (w.append_bytes [] v ++ []) ≡ ok (some (leaf l), [])
  unfolding node_field
  leaf_payload v l e = rw (r.bytes_back v [], e)

  extension_payload :
      (v : Bytes) (x : MptExtNode)
      → decode_extend_pb w v ≡ ok x
      → node_field w none 4 bytes_type (w.append_bytes [] v ++ []) ≡ ok (some (extension x), [])
  unfolding node_field
  extension_payload v x e = rw (r.bytes_back v [], e)

  branch_payload :
      (v : Bytes) (children : Map Bytes)
      → decode_branch_pb w v ≡ ok children
      → node_field w none 2 bytes_type (w.append_bytes [] v ++ []) ≡ ok (some (branch children), [])
  unfolding node_field
  branch_payload v children e = rw (r.bytes_back v [], e)

  -- If protowire reads back what it appends, then the leaf that `encodeLeafNode` wrote decodes
  -- to its key and its value.
  decode_node_pb-encode_leaf_node :
      (key value : Bytes)
      → decode_node_pb w (encode_leaf_node w key value)
        ≡ ok (leaf (record { key = key; value = some value }))
  unfolding encode_leaf_node
  decode_node_pb-encode_leaf_node key value =
      rw (encode_leaf_node, two_fields 2 3 key value)
        (node_of_field 3 _ (leaf (record { key = key; value = some value })) (omega arith)
          (omega arith)
          (leaf_payload _ (record { key = key; value = some value })
            (decode_leaf_pb-fields w r (bytes_field 2 key ∷ bytes_field 3 value ∷ [])
              (omega arith))))

  -- If protowire reads back what it appends, then the extension that `encodeExtensionNode` wrote
  -- decodes to its path and its child.
  decode_node_pb-encode_extension_node :
      (path child_hash : Bytes)
      → decode_node_pb w (encode_extension_node w path child_hash)
        ≡ ok (extension (record { path = path; child_hash = child_hash }))
  unfolding encode_extension_node
  decode_node_pb-encode_extension_node path child_hash =
      let ext : MptExtNode = record { path = path; child_hash = child_hash } in
      rw (encode_extension_node, two_fields 1 2 path child_hash)
        (node_of_field 4 _ (extension ext) (omega arith) (omega arith) (
          extension_payload _ ext (
            decode_extend_pb-fields w r (bytes_field 1 path ∷ bytes_field 2 child_hash ∷ [])
              (omega arith))))

  -- The wire form of one child, and of all.
  abbrev child_fields : ℕ → Bytes → List WireField
  child_fields idx hash = varint_field 1 idx ∷ bytes_field 2 hash ∷ []

  abbrev branch_fields : List (ℕ × Bytes) → List WireField
  branch_fields [] = []
  branch_fields ((idx, hash) ∷ children) =
      bytes_field 1 (put_fields w (child_fields idx hash)) ∷ branch_fields children

  branch_fields-IsField : (children : List (ℕ × Bytes)) → All IsField (branch_fields children)
  branch_fields-IsField [] = tt
  branch_fields-IsField ((idx, hash) ∷ children) =
      ((omega arith, omega arith), branch_fields-IsField children)

  encode_branch_child-fields :
      (idx : ℕ) (hash : Bytes)
      → encode_branch_child w idx hash ≡ put_fields w (child_fields idx hash)
  unfolding encode_branch_child
  encode_branch_child-fields idx hash = rw (
    append_bytes_field w r (w.append_varint (w.append_tag [] 1 varint_type) idx) 2 hash,
    append_varint_field w r [] 1 idx,
    append-nil (put_field w (bytes_field 2 hash)),
  )

  encode_children-fields :
      (children : List (ℕ × Bytes)) (written : Bytes)
      → encode_children w written children ≡ written ++ put_fields w (branch_fields children)
  unfolding encode_children
  encode_children-fields [] written = sym (append-nil written)
  encode_children-fields ((idx, hash) ∷ children) written =
      rw
        (
          encode_branch_child-fields idx hash,
          append_bytes_field w r written 1 (put_fields w (child_fields idx hash)),
        )
        (encode_children-fields children
            (written ++ put_field w (bytes_field 1 (put_fields w (child_fields idx hash))))
          ∙ append_assoc written
              (put_field w (bytes_field 1 (put_fields w (child_fields idx hash))))
              (put_fields w (branch_fields children)))

  branch_fold :
      (children : List (ℕ × Bytes)) (m : Map Bytes)
      → All IsByteKey children
      → fold_fields (branch_step w r) m (branch_fields children) ≡ ok (insert_children m children)
  branch_fold [] m h = refl
  branch_fold ((idx, hash) ∷ children) m (hk, hs) =
      rw (decode_branch_node_pb-fields w r (child_fields idx hash) (omega arith), byte_key idx hk)
        (branch_fold children (insert idx hash m) hs)

  -- If protowire reads back what it appends and every index is a byte, then the branch that
  -- `encodeBranchNode` wrote decodes to the map of its children, whatever the order in which
  -- they were visited.
  decode_node_pb-encode_branch_node :
      (children : List (ℕ × Bytes))
      → All IsByteKey children
      → decode_node_pb w (encode_branch_node w children)
        ≡ ok (branch (insert_children empty children))
  unfolding encode_branch_node
  decode_node_pb-encode_branch_node children h =
      node_of_field 2 _ (branch (insert_children empty children)) (omega arith) (omega arith) (
        branch_payload _ (insert_children empty children) (
          rw (encode_children-fields children []) (
            decode_branch_pb-fields w r (branch_fields children) (branch_fields-IsField children)
            ∙ branch_fold children empty h)))

  -- If protowire reads back what it appends, then each of the three kinds of node that the encoders
  -- write decodes to itself: a leaf to its key and value, an extension to its path and child, and a
  -- branch, whose indices are bytes, to the map of its children, whatever the order of their visit.
  pub decode_node_pb_back :
      (key value path child_hash : Bytes) (children : List (ℕ × Bytes))
      → All IsByteKey children
      → (decode_node_pb w (encode_leaf_node w key value)
          ≡ ok (leaf (record { key = key; value = some value })))
        × (decode_node_pb w (encode_extension_node w path child_hash)
            ≡ ok (extension (record { path = path; child_hash = child_hash })))
        × (decode_node_pb w (encode_branch_node w children)
            ≡ ok (branch (insert_children empty children)))
  decode_node_pb_back key value path child_hash children h = (
    decode_node_pb-encode_leaf_node key value,
    decode_node_pb-encode_extension_node path child_hash,
    decode_node_pb-encode_branch_node children h,
  )
