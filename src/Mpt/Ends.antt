-- ===== src/Mpt/Ends.antt =====
-- The decoders of mpt.go end on every input: no loop of theirs runs out of its fuel.
use ioswarm.Common.{
  ℕ, ◌≤◌, ◌≡◌, ◌≢◌, ap, ◌∙◌, ◌%◌, ◌^◌, ◌&&◌, Bool, true, false, insert, Option, none, some, [],
  Bytes, ◌==◌, arith, if◌then◌else◌, drop, length, length-drop, Map, empty, Result, ok, err, ◌>>=◌,
  or_err, Option-cases, Result-cases, inl, inr,
}
use ioswarm.Errors.{Error, invalid_node, out_of_fuel}
use ioswarm.Wire.{
  WireType, varint_type, fixed64_type, bytes_type, start_group_type, end_group_type, fixed32_type,
  reserved6_type, reserved7_type, Protowire, HasProgress, message, message_ends,
}
use ioswarm.Mpt.Node.{MptExtNode, MptLeafNode, Node, branch, extension, leaf}
use ioswarm.Mpt.Decode.{
  is_varint, is_bytes, no_leaf, no_extension, skip_over, branch_node_field, decode_branch_node_pb,
  branch_field, decode_branch_pb, leaf_field, decode_leaf_pb, extend_field, decode_extend_pb,
  node_field, decode_node_pb,
}

-- What a handler of one field owes the loop: it gives no bytes back, and is not out of fuel.
abbrev pub Consumes : {A : Type 0} → Bytes → Result Error (A × Bytes) → Type 0
Consumes buf (ok (a, rest)) = length rest ≤ length buf
Consumes buf (err e) = e ≢ out_of_fuel

pub drop-shrinks : (n : ℕ) (buf : Bytes) → length (drop n buf) ≤ length buf
drop-shrinks n buf = omega (arith, length-drop n buf)

invalid_node-ne : invalid_node ≢ out_of_fuel
invalid_node-ne e = cc

pub Consumes-shrinks :
    {A : Type 0} (buf : Bytes) (r : Result Error (A × Bytes)) (a : A) (rest : Bytes)
    → Consumes buf r
    → r ≡ ok (a, rest)
    → length rest ≤ length buf
Consumes-shrinks buf (ok (b, left)) a rest h e = ground arith
Consumes-shrinks buf (err x) a rest h e = cc

pub Consumes-ends :
    {A : Type 0} (buf : Bytes) (r : Result Error (A × Bytes)) → Consumes buf r → r ≢ err out_of_fuel
Consumes-ends buf (ok p) h e = cc
Consumes-ends buf (err x) h e = ground arith

if-Consumes :
    {A : Type 0} (b : Bool) (buf : Bytes) (r s : Result Error (A × Bytes))
    → Consumes buf r
    → Consumes buf s
    → Consumes buf (if b then r else s)
if-Consumes true buf r s h k = h
if-Consumes false buf r s h k = k

skip-Consumes :
    {A X : Type 0} (acc : A) (buf : Bytes) (o : Option (X × ℕ))
    → Consumes buf ((or_err o invalid_node >>= λ x. ok x.1) >>= λ n. ok (acc, drop n buf))
skip-Consumes acc buf none = invalid_node-ne
skip-Consumes acc buf (some (v, n)) = drop-shrinks n buf

read-Consumes :
    {A X : Type 0} (f : X → A) (buf : Bytes) (o : Option (X × ℕ))
    → Consumes buf (or_err o invalid_node >>= λ x. ok (f x.0, drop x.1 buf))
read-Consumes f buf none = invalid_node-ne
read-Consumes f buf (some (v, n)) = drop-shrinks n buf

-- A handler that decodes what it has read.
nested-Consumes :
    {A X Y : Type 0} (decode : X → Result Error Y) (f : Y → A) (left : ℕ → Bytes) (buf : Bytes)
    (o : Option (X × ℕ))
    → ((x : X) → decode x ≢ err out_of_fuel)
    → ((n : ℕ) → length (left n) ≤ length buf)
    → Consumes buf (or_err o invalid_node >>= λ x. (decode x.0 >>= λ y. ok (f y, left x.1)))
nested-Consumes decode f left buf none ends le = invalid_node-ne
nested-Consumes decode f left buf (some (v, n)) ends le = elim (Result-cases (decode v)) [
  | inl (y, e) ↦ rw e (le n)
  | inr (x, e) ↦ rw e (λ q. ends v (e ∙ ap err q))
]

module _ (w : Protowire) where
  skip_over-Consumes :
      {A : Type 0} (acc : A) (t : WireType) (buf : Bytes) → Consumes buf (skip_over w acc t buf)
  unfolding skip_over
  skip_over-Consumes acc varint_type buf = skip-Consumes acc buf (w.consume_varint buf)
  skip_over-Consumes acc bytes_type buf = skip-Consumes acc buf (w.consume_bytes buf)
  skip_over-Consumes acc fixed32_type buf = skip-Consumes acc buf (w.consume_fixed32 buf)
  skip_over-Consumes acc fixed64_type buf = skip-Consumes acc buf (w.consume_fixed64 buf)
  skip_over-Consumes acc start_group_type buf = λ e. cc
  skip_over-Consumes acc end_group_type buf = λ e. cc
  skip_over-Consumes acc reserved6_type buf = λ e. cc
  skip_over-Consumes acc reserved7_type buf = λ e. cc

  -- From one field to the loop.
  loop_ends :
      {A : Type 0} (field : A → ℕ → WireType → Bytes → Result Error (A × Bytes))
      → HasProgress w
      → ((acc : A) (num : ℕ) (t : WireType) (buf : Bytes) → Consumes buf (field acc num t buf))
      → (buf : Bytes) (acc : A)
      → message w out_of_fuel (λ _. invalid_node) field buf acc ≢ err out_of_fuel
  loop_ends field p h =
      message_ends w out_of_fuel (λ _. invalid_node) field p
        (record {
          shrinks = λ acc num t buf acc' rest e.
              Consumes-shrinks buf (field acc num t buf) acc' rest (h acc num t buf) e;
          field_ends = λ acc num t buf. Consumes-ends buf (field acc num t buf) (h acc num t buf);
          tag_ends = λ buf. invalid_node-ne;
        })

  module _ (p : HasProgress w) where
    leaf_field-Consumes :
        (l : MptLeafNode) (num : ℕ) (t : WireType) (buf : Bytes)
        → Consumes buf (leaf_field w l num t buf)
    unfolding leaf_field
    leaf_field-Consumes l num t buf =
        if-Consumes (num == 1 && is_varint t) buf _ _
          (read-Consumes (λ _. l) buf (w.consume_varint buf))
          (if-Consumes (num == 2 && is_bytes t) buf _ _
            (read-Consumes (λ v. record l { key = v }) buf (w.consume_bytes buf))
            (if-Consumes (num == 3 && is_bytes t) buf _ _
              (read-Consumes (λ v. record l { value = some v }) buf (w.consume_bytes buf))
              (skip_over-Consumes l t buf)))

    pub decode_leaf_pb_ends : (buf : Bytes) → decode_leaf_pb w buf ≢ err out_of_fuel
    unfolding decode_leaf_pb
    decode_leaf_pb_ends buf = loop_ends (leaf_field w) p leaf_field-Consumes buf no_leaf

    extend_field-Consumes :
        (x : MptExtNode) (num : ℕ) (t : WireType) (buf : Bytes)
        → Consumes buf (extend_field w x num t buf)
    unfolding extend_field
    extend_field-Consumes x num t buf =
        if-Consumes (num == 1 && is_bytes t) buf _ _
          (read-Consumes (λ v. record x { path = v }) buf (w.consume_bytes buf))
          (if-Consumes (num == 2 && is_bytes t) buf _ _
            (read-Consumes (λ v. record x { child_hash = v }) buf (w.consume_bytes buf))
            (skip_over-Consumes x t buf))

    pub decode_extend_pb_ends : (buf : Bytes) → decode_extend_pb w buf ≢ err out_of_fuel
    unfolding decode_extend_pb
    decode_extend_pb_ends buf = loop_ends (extend_field w) p extend_field-Consumes buf no_extension

    branch_node_field-Consumes :
        (x : ℕ × Bytes) (num : ℕ) (t : WireType) (buf : Bytes)
        → Consumes buf (branch_node_field w x num t buf)
    unfolding branch_node_field
    branch_node_field-Consumes (i, path) num t buf =
        if-Consumes (num == 1 && is_varint t) buf _ _
          (read-Consumes (λ v. (v % 2 ^ 32, path)) buf (w.consume_varint buf))
          (if-Consumes (num == 2 && is_bytes t) buf _ _
            (read-Consumes (λ v. (i, v)) buf (w.consume_bytes buf))
            (skip_over-Consumes (i, path) t buf))

    decode_branch_node_pb_ends : (buf : Bytes) → decode_branch_node_pb w buf ≢ err out_of_fuel
    unfolding decode_branch_node_pb
    decode_branch_node_pb_ends buf =
        loop_ends (branch_node_field w) p branch_node_field-Consumes buf (0, [])

    branch_field-Consumes :
        (m : Map Bytes) (num : ℕ) (t : WireType) (buf : Bytes)
        → Consumes buf (branch_field w m num t buf)
    unfolding branch_field
    branch_field-Consumes m num t buf =
        if-Consumes (num == 1 && is_bytes t) buf _ _
          (nested-Consumes (decode_branch_node_pb w) (λ y. insert (y.0 % 256) y.1 m)
            (λ n. drop n buf) buf (w.consume_bytes buf) decode_branch_node_pb_ends
            (λ n. drop-shrinks n buf))
          (skip_over-Consumes m t buf)

    pub decode_branch_pb_ends : (buf : Bytes) → decode_branch_pb w buf ≢ err out_of_fuel
    unfolding decode_branch_pb
    decode_branch_pb_ends buf = loop_ends (branch_field w) p branch_field-Consumes buf empty

    stop_ends :
        {Y : Type 0} (r : Result Error Y) (f : Y → Node) (buf : Bytes)
        → r ≢ err out_of_fuel
        → Consumes {A = Option Node} buf (r >>= λ y. ok (some (f y), []))
    stop_ends (ok y) f buf h = omega arith
    stop_ends (err x) f buf h = λ q. h (ap err q)

    node_field-Consumes :
        (found : Option Node) (num : ℕ) (t : WireType) (buf : Bytes)
        → Consumes buf (node_field w found num t buf)
    unfolding node_field
    node_field-Consumes found num t buf =
        if-Consumes (is_bytes t) buf _ _
          (elim (Option-cases (w.consume_bytes buf)) [
            | inl e ↦ rw e invalid_node-ne
            | inr ((v, n), e) ↦ rw e (
                if-Consumes (num == 2) buf _ _
                  (stop_ends (decode_branch_pb w v) branch buf (decode_branch_pb_ends v))
                  (if-Consumes (num == 3) buf _ _
                    (stop_ends (decode_leaf_pb w v) leaf buf (decode_leaf_pb_ends v))
                    (if-Consumes (num == 4) buf _ _
                      (stop_ends (decode_extend_pb w v) extension buf (decode_extend_pb_ends v))
                      (drop-shrinks n buf))))
          ])
          (skip_over-Consumes found t buf)

    -- If a tag that protowire reads takes a byte at least, then decoding a node never runs out
    -- of fuel, on any input.
    pub decode_node_pb_ends : (buf : Bytes) → decode_node_pb w buf ≢ err out_of_fuel
    unfolding decode_node_pb
    decode_node_pb_ends buf =
        found_ends (message w out_of_fuel (λ _. invalid_node) (node_field w) buf none)
          (loop_ends (node_field w) p node_field-Consumes buf none)
      where
        found_ends :
            (r : Result Error (Option Node))
            → r ≢ err out_of_fuel
            → (r >>= λ found. or_err found invalid_node) ≢ err out_of_fuel
        found_ends (ok none) h = λ q. cc
        found_ends (ok (some node)) h = λ q. cc
        found_ends (err x) h = λ q. h (cc)
