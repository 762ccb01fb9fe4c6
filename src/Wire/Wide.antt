-- ===== src/Wire/Wide.antt =====
-- A concrete wire format that meets what protowire documents: protobuf's own, but for its varints,
-- which take one place of any size here. It agrees with protobuf wherever those take one byte.
use ioswarm.Common.{
  ℕ, ◌+◌, ◌*◌, ◌/◌, ◌%◌, ◌≤◌, ◌<◌, ◌≡◌, refl, ◌∙◌, ap, true, false, Option, none, some, [], ◌∷◌,
  ◌++◌, arith, Bytes, ◌==◌, ltb, leb, if◌then◌else◌, take, length, take-append_self, length-append,
}
use mathlib.Core.List.{reverse}
use ioswarm.Common.BigEndian.{of_bytes}
use ioswarm.Wire.Defs.{
  WireType, varint_type, fixed64_type, bytes_type, start_group_type, end_group_type, fixed32_type,
  reserved6_type, reserved7_type, Protowire, HasProgress, HasRoundTrip,
}

abbrev type_number : WireType → ℕ
type_number varint_type = 0
type_number fixed64_type = 1
type_number bytes_type = 2
type_number start_group_type = 3
type_number end_group_type = 4
type_number fixed32_type = 5
type_number reserved6_type = 6
type_number reserved7_type = 7

abbrev type_of_number : ℕ → WireType
type_of_number n =
    if n == 0
    then varint_type
    else if n == 1
    then fixed64_type
    else if n == 2
    then bytes_type
    else if n == 3
    then start_group_type
    else if n == 4
    then end_group_type
    else if n == 5
    then fixed32_type
    else if n == 6
    then reserved6_type
    else reserved7_type

abbrev consume_wide_tag : Bytes → Option (ℕ × WireType × ℕ)
consume_wide_tag [] = none
consume_wide_tag (b ∷ rest) = if b / 8 == 0 then none else some (b / 8, type_of_number (b % 8), 1)

abbrev consume_wide_varint : Bytes → Option (ℕ × ℕ)
consume_wide_varint [] = none
consume_wide_varint (b ∷ rest) = some (b, 1)

abbrev consume_wide_bytes : Bytes → Option (Bytes × ℕ)
consume_wide_bytes [] = none
consume_wide_bytes (n ∷ rest) = if leb n (length rest) then some (take n rest, n + 1) else none

abbrev consume_fixed : ℕ → Bytes → Option (ℕ × ℕ)
consume_fixed size buf =
    if ltb (length buf) size then none else some (of_bytes (reverse (take size buf)), size)

abbrev pub wide : Protowire
wide = record {
  consume_tag = consume_wide_tag;
  consume_varint = consume_wide_varint;
  consume_bytes = consume_wide_bytes;
  consume_fixed32 = consume_fixed 4;
  consume_fixed64 = consume_fixed 8;
  append_tag = λ b num t. b ++ (num * 8 + type_number t) ∷ [];
  append_varint = λ b v. b ++ v ∷ [];
  append_bytes = λ b v. b ++ length v ∷ v;
}

wide_tag_takes :
    (buf : Bytes) (num : ℕ) (t : WireType) (n : ℕ) → wide.consume_tag buf ≡ some (num, t, n) → 1 ≤ n
wide_tag_takes [] num t n e = cc
wide_tag_takes (b ∷ rest) num t n e = ground arith

pub wide-HasProgress : HasProgress wide
wide-HasProgress = record { tag_takes = wide_tag_takes }

tag_digits : (num k : ℕ) → k < 8 → ((num * 8 + k) / 8 ≡ num) × ((num * 8 + k) % 8 ≡ k)
tag_digits num k h = omega arith

type_back : (t : WireType) → (type_of_number (type_number t) ≡ t) × (type_number t < 8)
type_back varint_type = (refl, omega arith)
type_back fixed64_type = (refl, omega arith)
type_back bytes_type = (refl, omega arith)
type_back start_group_type = (refl, omega arith)
type_back end_group_type = (refl, omega arith)
type_back fixed32_type = (refl, omega arith)
type_back reserved6_type = (refl, omega arith)
type_back reserved7_type = (refl, omega arith)

not_zero : (num : ℕ) → 1 ≤ num → (num == 0) ≡ false
not_zero num h = ground arith

wide_tag_back :
    (num : ℕ) (t : WireType) (rest : Bytes)
    → 1 ≤ num
    → wide.consume_tag (wide.append_tag [] num t ++ rest) ≡ some (num, t, 1)
wide_tag_back num t rest lo =
    let (same, small) = type_back t in
    let (quotient, remainder) = tag_digits num (type_number t) small in
    rw (quotient, remainder, not_zero num lo, same)

bytes_fit : (n k : ℕ) → leb n (n + k) ≡ true
bytes_fit n k = ground arith

wide_bytes_back :
    (v rest : Bytes) → wide.consume_bytes (length v ∷ (v ++ rest)) ≡ some (v, length v + 1)
wide_bytes_back v rest =
    rw (length-append v rest, bytes_fit (length v) (length rest), take-append_self v rest)

pub wide-HasRoundTrip : HasRoundTrip wide
wide-HasRoundTrip = record {
  tag_appends = λ b num t. refl;
  varint_appends = λ b v. refl;
  bytes_appends = λ b v. refl;
  tag_back = λ num t rest lo hi. wide_tag_back num t rest lo;
  varint_back = λ v rest h. refl;
  bytes_back = λ v rest. wide_bytes_back v rest ∙ ap (λ (n : ℕ). some (v, n)) (omega arith);
  tag_nonempty = λ num t. omega arith;
}
