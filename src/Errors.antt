-- ===== src/Errors.antt =====
-- The errors that the functions of mpt.go, account.go, statestore.go and snapshot.go return, one
-- constructor for each message. A constructor that holds an error is a wrap by `%w`.
use ioswarm.Common.{ℕ, Bytes, Bool, true, false}
use ioswarm.Wire.{WireType}

pub data Error : Type 0 where
  -- errNodeNotFound, errKeyNotFound and errInvalidNode of mpt.go
  node_not_found key_not_found invalid_node : Error
  unsupported_wire_type : WireType → Error
  load_trie_node missing_trie_node decode_trie_node : Bytes → Error → Error
  -- account.go
  empty_account_data : Error
  invalid_tag_at invalid_varint invalid_bytes invalid_fixed32 invalid_fixed64 : ℕ → Error
  invalid_balance_string : Bytes → Error
  unsupported_field_type : WireType → ℕ → Error
  address_too_short : Error
  invalid_hex_length invalid_hex_char : ℕ → Error
  unsupported_address_format : Bytes → Error
  -- statestore.go; `bolt` is an error of BoltDB's own
  bolt : ℕ → Error
  create_bucket : Bytes → Error → Error
  open_bolt init_buckets get_account_failed trie_get_failed : Error → Error
  nil_bucket : Bytes → Error
  -- no error of the program: a loop of the model ran out of its fuel
  out_of_fuel : Error

-- `errors.Is(err, errKeyNotFound)`, which looks through the wraps.
pub is_key_not_found : Error → Bool
is_key_not_found key_not_found = true
is_key_not_found (load_trie_node h e) = is_key_not_found e
is_key_not_found (missing_trie_node h e) = is_key_not_found e
is_key_not_found (decode_trie_node h e) = is_key_not_found e
is_key_not_found (create_bucket b e) = is_key_not_found e
is_key_not_found (open_bolt e) = is_key_not_found e
is_key_not_found (init_buckets e) = is_key_not_found e
is_key_not_found (get_account_failed e) = is_key_not_found e
is_key_not_found (trie_get_failed e) = is_key_not_found e
is_key_not_found _ = false
