-- ===== src/Tests/Accounts.antt =====
-- A stored account and an address for account.go.
use ioswarm.Common.{
  length, ◌≡◌, ◌≢◌, refl, List, [], ◌∷◌, ◌++◌, Bytes, false, codes, All, ok, err, arith,
}
use ioswarm.Common.Int.{pos, set_string}
use ioswarm.Errors.{out_of_fuel}
use ioswarm.Wire.{WireField, varint_field, bytes_field, put_fields}
use ioswarm.Wire.Wide.{wide, wide-HasProgress, wide-HasRoundTrip}
use ioswarm.Account.{decode_account, address_to_hash160}
use ioswarm.Account.Fields.{decode_account_last, decode_account_ends}
use ioswarm.Account.RoundTrip.{
  IsByte, hex_text, address_to_hash160-hex_text, address_to_hash160-IsPairs,
}

abbrev first_field : WireField
first_field = varint_field 1 7

abbrev other_fields : List WireField
other_fields =
    bytes_field 2 (codes "250")
    ∷ varint_field 5 1
    ∷ bytes_field 4 (8 ∷ 9 ∷ [])
    ∷ varint_field 1 8
    ∷ []

decode_account_last_example :
    decode_account wide (put_fields wide (first_field ∷ other_fields))
    ≡ ok (record { nonce = 8; balance = pos 250; root = []; code_hash = 8 ∷ 9 ∷ [] })
unfolding set_string
decode_account_last_example =
    decode_account_last wide wide-HasRoundTrip first_field other_fields (pos 250) (ground arith)
      (pos 0, refl, (pos 250, refl, (pos 250, refl, (pos 250, refl, (pos 250, refl, refl)))))

decode_account_ends_example : decode_account wide (9 ∷ 200 ∷ []) ≢ err out_of_fuel
decode_account_ends_example = decode_account_ends wide wide-HasProgress (9 ∷ 200 ∷ [])

abbrev sample_address : Bytes
sample_address =
    0 ∷ 1 ∷ 15 ∷ 16 ∷ 171 ∷ 205 ∷ 239 ∷ 255 ∷ 9 ∷ 10 ∷ 0 ∷ 1 ∷ 15 ∷ 16 ∷ 171 ∷ 205 ∷ 239 ∷ 255 ∷ 9
    ∷ 10 ∷ []

sample_address-IsByte : All IsByte sample_address
sample_address-IsByte = ground arith

address_to_hash160-hex_text_example :
    address_to_hash160 (codes "0x" ++ hex_text (λ i. false) 0 sample_address) ≡ ok sample_address
address_to_hash160-hex_text_example =
    address_to_hash160-hex_text false (λ i. false) sample_address refl sample_address-IsByte

address_to_hash160-IsPairs_example : (length sample_address ≡ 20) × All IsByte sample_address
address_to_hash160-IsPairs_example =
    address_to_hash160-IsPairs (codes "0x" ++ hex_text (λ i. false) 0 sample_address) sample_address
      address_to_hash160-hex_text_example
