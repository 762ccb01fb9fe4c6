-- ===== src/Wire/Defs.antt =====
-- The protowire package as a record of functions, and what its documentation says of them.
use ioswarm.Common.{ℕ, ◌^◌, ◌≤◌, ◌<◌, ◌≡◌, Option, some, [], ◌++◌, Bytes, length}

-- protowire.Type: the low three bits of a tag. 6 and 7 are not in use.
pub data WireType : Type 0 where
  varint_type fixed64_type bytes_type start_group_type end_group_type fixed32_type : WireType
  reserved6_type reserved7_type : WireType

-- Each `consume` returns what it read and how many bytes that took; `none` stands for the negative
-- length by which protowire reports an error.
pub record Protowire : Type 0 where
  pub consume_tag : Bytes → Option (ℕ × WireType × ℕ)
  pub consume_varint : Bytes → Option (ℕ × ℕ)
  pub consume_bytes : Bytes → Option (Bytes × ℕ)
  pub consume_fixed32 : Bytes → Option (ℕ × ℕ)
  pub consume_fixed64 : Bytes → Option (ℕ × ℕ)
  pub append_tag : Bytes → ℕ → WireType → Bytes
  pub append_varint : Bytes → ℕ → Bytes
  pub append_bytes : Bytes → Bytes → Bytes

-- A tag that is read takes at least one byte.
pub record HasProgress (w : Protowire) : Type 0 where
  pub tag_takes :
      (buf : Bytes) (num : ℕ) (t : WireType) (n : ℕ) → w.consume_tag buf ≡ some (num, t, n) → 1 ≤ n

-- Each `append` adds bytes behind the given ones, and `consume` reads these back, whatever
-- follows them.
pub record HasRoundTrip (w : Protowire) : Type 0 where
  pub tag_appends :
      (b : Bytes) (num : ℕ) (t : WireType) → w.append_tag b num t ≡ b ++ w.append_tag [] num t
  pub varint_appends : (b : Bytes) (v : ℕ) → w.append_varint b v ≡ b ++ w.append_varint [] v
  pub bytes_appends : (b v : Bytes) → w.append_bytes b v ≡ b ++ w.append_bytes [] v
  pub tag_back :
      (num : ℕ) (t : WireType) (rest : Bytes)
      → 1 ≤ num
      → num < 2 ^ 29
      → w.consume_tag (w.append_tag [] num t ++ rest)
        ≡ some (num, t, length (w.append_tag [] num t))
  pub varint_back :
      (v : ℕ) (rest : Bytes)
      → v < 2 ^ 64
      → w.consume_varint (w.append_varint [] v ++ rest) ≡ some (v, length (w.append_varint [] v))
  pub bytes_back :
      (v rest : Bytes)
      → w.consume_bytes (w.append_bytes [] v ++ rest) ≡ some (v, length (w.append_bytes [] v))
  pub tag_nonempty : (num : ℕ) (t : WireType) → 1 ≤ length (w.append_tag [] num t)
