-- ===== src/Mpt/Fields.antt =====
-- What each decoder of mpt.go makes of a sequence of fields: the last field of a number counts,
-- and fields that the decoder does not know are skipped.
use ioswarm.Common.{
  ℕ, ◌%◌, ◌^◌, ◌≡◌, some, List, [], ◌++◌, Bytes, ◌==◌, arith, if◌then◌else◌, drop-append_self, All,
  Map, empty, insert, Result, ok, ◌>>=◌, Bool-cases, Result-cases, inl, inr,
}
use ioswarm.Errors.{Error, invalid_node, out_of_fuel}
use ioswarm.Wire.{
  Protowire, HasRoundTrip, WireField, varint_field, bytes_field, field_number, field_type, IsField,
  fold_fields, payload, put_fields, message_fields,
}
use ioswarm.Mpt.Node.{MptExtNode, MptLeafNode}
use ioswarm.Mpt.Decode.{
  no_leaf, no_extension, branch_node_field, decode_branch_node_pb, branch_field, decode_branch_pb,
  leaf_field, decode_leaf_pb, extend_field, decode_extend_pb,
}

abbrev pub leaf_step : MptLeafNode → WireField → Result Error MptLeafNode
leaf_step l (varint_field num v) = ok l
leaf_step l (bytes_field num v) =
    if num == 2
    then ok (record l { key = v })
    else if num == 3
    then ok (record l { value = some v })
    else ok l

abbrev pub extend_step : MptExtNode → WireField → Result Error MptExtNode
extend_step e (varint_field num v) = ok e
extend_step e (bytes_field num v) =
    if num == 1
    then ok (record e { path = v })
    else if num == 2
    then ok (record e { child_hash = v })
    else ok e

abbrev pub branch_node_step : ℕ × Bytes → WireField → Result Error (ℕ × Bytes)
branch_node_step (index, path) (varint_field num v) =
    if num == 1 then ok (v % 2 ^ 32, path) else ok (index, path)
branch_node_step (index, path) (bytes_field num v) =
    if num == 2 then ok (index, v) else ok (index, path)

module _ (w : Protowire) (r : HasRoundTrip w) where
  abbrev pub branch_step : Map Bytes → WireField → Result Error (Map Bytes)
  branch_step children (varint_field num v) = ok children
  branch_step children (bytes_field num v) =
      if num == 1
      then (decode_branch_node_pb w v >>= λ p. ok (insert (p.0 % 256) p.1 children))
      else ok children

  leaf_one :
      (l : MptLeafNode) (f : WireField) (rest : Bytes)
      → IsField f
      → leaf_field w l (field_number f) (field_type f) (payload w f ++ rest)
        ≡ (leaf_step l f >>= λ l'. ok (l', rest))
  unfolding leaf_field
  leaf_one l (varint_field num v) rest h =
      ground (arith, r.varint_back v rest h.2, drop-append_self (w.append_varint [] v) rest)
  leaf_one l (bytes_field num v) rest h =
      ground (arith, r.bytes_back v rest, drop-append_self (w.append_bytes [] v) rest)

  pub decode_leaf_pb-fields :
      (fs : List WireField)
      → All IsField fs
      → decode_leaf_pb w (put_fields w fs) ≡ fold_fields leaf_step no_leaf fs
  unfolding decode_leaf_pb
  decode_leaf_pb-fields fs h =
      message_fields w out_of_fuel (λ _. invalid_node) (leaf_field w) leaf_step r leaf_one fs
        no_leaf h

  extend_one :
      (e : MptExtNode) (f : WireField) (rest : Bytes)
      → IsField f
      → extend_field w e (field_number f) (field_type f) (payload w f ++ rest)
        ≡ (extend_step e f >>= λ e'. ok (e', rest))
  unfolding extend_field
  extend_one e (varint_field num v) rest h =
      ground (arith, r.varint_back v rest h.2, drop-append_self (w.append_varint [] v) rest)
  extend_one e (bytes_field num v) rest h =
      ground (arith, r.bytes_back v rest, drop-append_self (w.append_bytes [] v) rest)

  pub decode_extend_pb-fields :
      (fs : List WireField)
      → All IsField fs
      → decode_extend_pb w (put_fields w fs) ≡ fold_fields extend_step no_extension fs
  unfolding decode_extend_pb
  decode_extend_pb-fields fs h =
      message_fields w out_of_fuel (λ _. invalid_node) (extend_field w) extend_step r extend_one fs
        no_extension h

  branch_node_one :
      (p : ℕ × Bytes) (f : WireField) (rest : Bytes)
      → IsField f
      → branch_node_field w p (field_number f) (field_type f) (payload w f ++ rest)
        ≡ (branch_node_step p f >>= λ p'. ok (p', rest))
  unfolding branch_node_field
  branch_node_one (i, path) (varint_field num v) rest h =
      ground (arith, r.varint_back v rest h.2, drop-append_self (w.append_varint [] v) rest)
  branch_node_one (i, path) (bytes_field num v) rest h =
      ground (arith, r.bytes_back v rest, drop-append_self (w.append_bytes [] v) rest)

  pub decode_branch_node_pb-fields :
      (fs : List WireField)
      → All IsField fs
      → decode_branch_node_pb w (put_fields w fs) ≡ fold_fields branch_node_step (0, []) fs
  unfolding decode_branch_node_pb
  decode_branch_node_pb-fields fs h =
      message_fields w out_of_fuel (λ _. invalid_node) (branch_node_field w) branch_node_step r
        branch_node_one fs (0, []) h

  branch_one :
      (children : Map Bytes) (f : WireField) (rest : Bytes)
      → IsField f
      → branch_field w children (field_number f) (field_type f) (payload w f ++ rest)
        ≡ (branch_step children f >>= λ c'. ok (c', rest))
  unfolding branch_field
  branch_one children (varint_field num v) rest h =
      ground (arith, r.varint_back v rest h.2, drop-append_self (w.append_varint [] v) rest)
  branch_one children (bytes_field num v) rest h =
      rw (r.bytes_back v rest, drop-append_self (w.append_bytes [] v) rest)
        (elim (Result-cases (decode_branch_node_pb w v)) [
          | inl (p, e) ↦ rw e (elim (Bool-cases (num == 1)) [ inl t ↦ rw t | inr t ↦ rw t ])
          | inr (x, e) ↦ rw e (elim (Bool-cases (num == 1)) [ inl t ↦ rw t | inr t ↦ rw t ])
        ])

  pub decode_branch_pb-fields :
      (fs : List WireField)
      → All IsField fs
      → decode_branch_pb w (put_fields w fs) ≡ fold_fields branch_step empty fs
  unfolding decode_branch_pb
  decode_branch_pb-fields fs h =
      message_fields w out_of_fuel (λ _. invalid_node) (branch_field w) branch_step r branch_one fs
        empty h
