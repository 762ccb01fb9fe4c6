-- ===== src/Mpt/Decode.antt =====
-- The decoders of mpt.go. Each is the shared loop over a function that handles one field.
use ioswarm.Common.{
  ℕ, ◌%◌, ◌^◌, Option, none, some, [], Bytes, Bool, true, false, ◌&&◌, ◌==◌, if◌then◌else◌, drop,
  Map, empty, insert, Result, ok, err, ◌>>=◌, or_err,
}
use ioswarm.Errors.{Error, invalid_node, unsupported_wire_type, out_of_fuel}
use ioswarm.Wire.{
  WireType, varint_type, fixed64_type, bytes_type, start_group_type, end_group_type, fixed32_type,
  reserved6_type, reserved7_type, Protowire, message,
}
use ioswarm.Mpt.Node.{MptExtNode, MptLeafNode, Node, branch, extension, leaf}

abbrev pub is_varint : WireType → Bool
is_varint varint_type = true
is_varint _ = false

abbrev pub is_bytes : WireType → Bool
is_bytes bytes_type = true
is_bytes _ = false

abbrev pub no_leaf : MptLeafNode
no_leaf = record { key = []; value = none }

abbrev pub no_extension : MptExtNode
no_extension = record { path = []; child_hash = [] }

module _ (w : Protowire) where
  -- The length of the field that is skipped.
  unfoldable pub skip_field : Bytes → WireType → Result Error ℕ
  skip_field buf varint_type = do (v, n) ← or_err (w.consume_varint buf) invalid_node; ok n
  skip_field buf bytes_type = do (v, n) ← or_err (w.consume_bytes buf) invalid_node; ok n
  skip_field buf fixed32_type = do (v, n) ← or_err (w.consume_fixed32 buf) invalid_node; ok n
  skip_field buf fixed64_type = do (v, n) ← or_err (w.consume_fixed64 buf) invalid_node; ok n
  skip_field buf start_group_type = err (unsupported_wire_type start_group_type)
  skip_field buf end_group_type = err (unsupported_wire_type end_group_type)
  skip_field buf reserved6_type = err (unsupported_wire_type reserved6_type)
  skip_field buf reserved7_type = err (unsupported_wire_type reserved7_type)

  -- The `default` of every decoder: skip the field and keep what was read.
  unfoldable pub skip_over : {A : Type 0} → A → WireType → Bytes → Result Error (A × Bytes)
  unfolding skip_field
  skip_over acc wtype buf = do n ← skip_field buf wtype; ok (acc, drop n buf)

  unfoldable pub branch_node_field :
      ℕ × Bytes → ℕ → WireType → Bytes → Result Error ((ℕ × Bytes) × Bytes)
  unfolding skip_over
  branch_node_field (index, path) num wtype buf =
      if num == 1 && is_varint wtype
      then (do
        (v, n) ← or_err (w.consume_varint buf) invalid_node
        ok ((v % 2 ^ 32, path), drop n buf))
      else if num == 2 && is_bytes wtype
      then (do (v, n) ← or_err (w.consume_bytes buf) invalid_node; ok ((index, v), drop n buf))
      else skip_over (index, path) wtype buf

  unfoldable pub decode_branch_node_pb : Bytes → Result Error (ℕ × Bytes)
  unfolding branch_node_field
  decode_branch_node_pb buf =
      message w out_of_fuel (λ _. invalid_node) branch_node_field buf (0, [])

  -- `children[byte(idx)] = path`
  unfoldable pub branch_field : Map Bytes → ℕ → WireType → Bytes → Result Error (Map Bytes × Bytes)
  unfolding decode_branch_node_pb skip_over
  branch_field children num wtype buf =
      if num == 1 && is_bytes wtype
      then (do
        (v, n) ← or_err (w.consume_bytes buf) invalid_node
        (idx, path) ← decode_branch_node_pb v
        ok (insert (idx % 256) path children, drop n buf))
      else skip_over children wtype buf

  unfoldable pub decode_branch_pb : Bytes → Result Error (Map Bytes)
  unfolding branch_field
  decode_branch_pb buf = message w out_of_fuel (λ _. invalid_node) branch_field buf empty

  unfoldable pub leaf_field :
      MptLeafNode → ℕ → WireType → Bytes → Result Error (MptLeafNode × Bytes)
  unfolding skip_over
  leaf_field l num wtype buf =
      if num == 1 && is_varint wtype
      then (do (v, n) ← or_err (w.consume_varint buf) invalid_node; ok (l, drop n buf))
      else if num == 2 && is_bytes wtype
      then (do
        (v, n) ← or_err (w.consume_bytes buf) invalid_node
        ok (record l { key = v }, drop n buf))
      else if num == 3 && is_bytes wtype
      then (do
        (v, n) ← or_err (w.consume_bytes buf) invalid_node
        ok (record l { value = some v }, drop n buf))
      else skip_over l wtype buf

  unfoldable pub decode_leaf_pb : Bytes → Result Error MptLeafNode
  unfolding leaf_field
  decode_leaf_pb buf = message w out_of_fuel (λ _. invalid_node) leaf_field buf no_leaf

  unfoldable pub extend_field :
      MptExtNode → ℕ → WireType → Bytes → Result Error (MptExtNode × Bytes)
  unfolding skip_over
  extend_field e num wtype buf =
      if num == 1 && is_bytes wtype
      then (do
        (v, n) ← or_err (w.consume_bytes buf) invalid_node
        ok (record e { path = v }, drop n buf))
      else if num == 2 && is_bytes wtype
      then (do
        (v, n) ← or_err (w.consume_bytes buf) invalid_node
        ok (record e { child_hash = v }, drop n buf))
      else skip_over e wtype buf

  unfoldable pub decode_extend_pb : Bytes → Result Error MptExtNode
  unfolding extend_field
  decode_extend_pb buf = message w out_of_fuel (λ _. invalid_node) extend_field buf no_extension

  -- A field that holds a node ends the loop: what follows it is not read, so no bytes are left.
  unfoldable pub node_field :
      Option Node → ℕ → WireType → Bytes → Result Error (Option Node × Bytes)
  unfolding decode_branch_pb decode_leaf_pb decode_extend_pb skip_over
  node_field found num wtype buf =
      if is_bytes wtype
      then (do
        (v, n) ← or_err (w.consume_bytes buf) invalid_node
        if num == 2
            then (do children ← decode_branch_pb v; ok (some (branch children), []))
            else if num == 3
            then (do l ← decode_leaf_pb v; ok (some (leaf l), []))
            else if num == 4
            then (do e ← decode_extend_pb v; ok (some (extension e), []))
            else ok (found, drop n buf))
      else skip_over found wtype buf

  unfoldable pub decode_node_pb : Bytes → Result Error Node
  unfolding node_field
  decode_node_pb buf = do
    found ← message w out_of_fuel (λ _. invalid_node) node_field buf none
    or_err found invalid_node
