-- ===== src/Account/Decode.antt =====
-- IoTxAccount and DecodeAccount of account.go.
use ioswarm.Common.{
  ℕ, ◌-◌, [], ◌∷◌, Bytes, ◌==◌, if◌then◌else◌, drop, length, Result, ok, err, ◌>>=◌, or_err,
}
use ioswarm.Common.Int.{ℤ, pos, set_string}
use ioswarm.Errors.{
  Error, empty_account_data, invalid_tag_at, invalid_varint, invalid_bytes, invalid_fixed32,
  invalid_fixed64, invalid_balance_string, unsupported_field_type, out_of_fuel,
}
use ioswarm.Wire.{
  WireType, varint_type, fixed64_type, bytes_type, start_group_type, end_group_type, fixed32_type,
  reserved6_type, reserved7_type, Protowire, message,
}

-- Only the lengths and the bytes of `root` and `code_hash` are read, so nil is the empty list.
pub record IoTxAccount : Type 0 where
  pub nonce : ℕ
  pub balance : ℤ
  pub root : Bytes
  pub code_hash : Bytes

abbrev pub new_account : IoTxAccount
new_account = record { nonce = 0; balance = pos 0; root = []; code_hash = [] }

-- The inner `switch num` of a field of bytes.
unfoldable pub account_bytes : IoTxAccount → ℕ → Bytes → Result Error IoTxAccount
account_bytes acct num v =
    if num == 2
    then (if length v == 0 then ok acct else (do
      bal ← or_err (set_string v) (invalid_balance_string v)
      ok (record acct { balance = bal })))
    else if num == 3
    then ok (record acct { root = v })
    else if num == 4
    then ok (record acct { code_hash = v })
    else ok acct

module _ (w : Protowire) where
  unfoldable pub account_field :
      IoTxAccount → ℕ → WireType → Bytes → Result Error (IoTxAccount × Bytes)
  unfolding account_bytes
  account_field acct num varint_type buf = do
    (v, n) ← or_err (w.consume_varint buf) (invalid_varint num)
    ok (if num == 1 then record acct { nonce = v } else acct, drop n buf)
  account_field acct num bytes_type buf = do
    (v, n) ← or_err (w.consume_bytes buf) (invalid_bytes num)
    acct' ← account_bytes acct num v
    ok (acct', drop n buf)
  account_field acct num fixed32_type buf = do
    (v, n) ← or_err (w.consume_fixed32 buf) (invalid_fixed32 num)
    ok (acct, drop n buf)
  account_field acct num fixed64_type buf = do
    (v, n) ← or_err (w.consume_fixed64 buf) (invalid_fixed64 num)
    ok (acct, drop n buf)
  account_field acct num start_group_type buf = err (unsupported_field_type start_group_type num)
  account_field acct num end_group_type buf = err (unsupported_field_type end_group_type num)
  account_field acct num reserved6_type buf = err (unsupported_field_type reserved6_type num)
  account_field acct num reserved7_type buf = err (unsupported_field_type reserved7_type num)

  unfoldable pub decode_account : Bytes → Result Error IoTxAccount
  unfolding account_field
  decode_account [] = err empty_account_data
  decode_account (b ∷ bs) =
      message w out_of_fuel (λ buf. invalid_tag_at (length (b ∷ bs) - length buf)) account_field
        (b ∷ bs) new_account
