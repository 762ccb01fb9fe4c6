-- ===== src/Account/Address.antt =====
-- addressToHash160 and hexVal of account.go.
use Prim.Native.Nat.{bit_or}
use ioswarm.Common.{
  ℕ, ◌+◌, ◌-◌, ◌*◌, ◌%◌, [], ◌∷◌, Bytes, bytes_eq, codes, ◌&&◌, ◌||◌, not, ◌==◌, ltb, leb,
  if◌then◌else◌, take, drop, length, Result, ok, err, ◌>>=◌,
}
use ioswarm.Errors.{
  Error, address_too_short, invalid_hex_length, invalid_hex_char, unsupported_address_format,
}

unfoldable pub hex_val : ℕ → Result Error ℕ
hex_val c =
    if leb b'0' c && leb c b'9'
    then ok (c - b'0')
    else if leb b'a' c && leb c b'f'
    then ok (c - b'a' + 10)
    else if leb b'A' c && leb c b'F'
    then ok (c - b'A' + 10)
    else err (invalid_hex_char c)

-- The loop over the 20 pairs of digits. An odd digit at the end does not arise: there are 40.
unfoldable pub hex_bytes : Bytes → Result Error Bytes
unfolding hex_val
hex_bytes [] = ok []
hex_bytes (c ∷ []) = ok []
hex_bytes (c ∷ d ∷ rest) = do
  hi ← hex_val c
  lo ← hex_val d
  bs ← hex_bytes rest
  ok (bit_or (hi * 16 % 256) lo ∷ bs)

unfoldable pub address_to_hash160 : Bytes → Result Error Bytes
unfolding hex_bytes
address_to_hash160 addr =
    if ltb (length addr) 2
    then err address_too_short
    else if bytes_eq (take 2 addr) (codes "0x") || bytes_eq (take 2 addr) (codes "0X")
    then (if not (length (drop 2 addr) == 40)
        then err (invalid_hex_length (length (drop 2 addr)))
        else hex_bytes (drop 2 addr))
    else err (unsupported_address_format addr)
