-- ===== src/Account/Fields.antt =====
-- What DecodeAccount makes of a stored account: it ends on every input, and of the fields of a
-- message the last of each number counts.
use ioswarm.Common.{
  ℕ, ◌-◌, ◌≤◌, ◌≡◌, ◌≢◌, ap, ◌∙◌, Option, none, some, List, [], ◌∷◌, ◌++◌, Bytes, ◌==◌, arith,
  if◌then◌else◌, drop, length, length-append, drop-append_self, All, Result, ok, err, ◌>>=◌, or_err,
  Option-cases, Result-cases, inl, inr,
}
use ioswarm.Common.Int.{ℤ, pos, set_string}
use ioswarm.Errors.{
  Error, invalid_tag_at, invalid_varint, invalid_bytes, invalid_fixed32, invalid_fixed64,
  out_of_fuel,
}
use ioswarm.Wire.{
  WireType, varint_type, fixed64_type, bytes_type, start_group_type, end_group_type, fixed32_type,
  reserved6_type, reserved7_type, Protowire, HasProgress, HasRoundTrip, WireField, varint_field,
  bytes_field, field_number, field_type, IsField, fold_fields, payload, put_field, put_fields,
  message, message_fields, message_ends,
}
use ioswarm.Mpt.Ends.{Consumes, Consumes-shrinks, Consumes-ends, drop-shrinks}
use ioswarm.Account.Decode.{IoTxAccount, new_account, account_bytes, account_field, decode_account}

-- The message as a fold.
abbrev pub account_step : IoTxAccount → WireField → Result Error IoTxAccount
account_step acct (varint_field num v) = ok (if num == 1 then record acct { nonce = v } else acct)
account_step acct (bytes_field num v) = account_bytes acct num v

module _ (w : Protowire) (r : HasRoundTrip w) where
  account_one :
      (acct : IoTxAccount) (f : WireField) (rest : Bytes)
      → IsField f
      → account_field w acct (field_number f) (field_type f) (payload w f ++ rest)
        ≡ (account_step acct f >>= λ acct'. ok (acct', rest))
  unfolding account_field
  account_one acct (varint_field num v) rest h =
      rw (r.varint_back v rest h.2, drop-append_self (w.append_varint [] v) rest)
  account_one acct (bytes_field num v) rest h =
      rw (r.bytes_back v rest, drop-append_self (w.append_bytes [] v) rest)

  message_account :
      (data_bytes : Bytes) (bad_tag : Bytes → Error) (fs : List WireField)
      → All IsField fs
      → message w out_of_fuel bad_tag (account_field w) (put_fields w fs) new_account
        ≡ fold_fields account_step new_account fs
  message_account data_bytes bad_tag fs h =
      message_fields w out_of_fuel bad_tag (account_field w) account_step r account_one fs
        new_account h

  nonempty :
      (buf : Bytes) (result : Result Error IoTxAccount)
      → 1 ≤ length buf
      → ((bad_tag : Bytes → Error)
          → message w out_of_fuel bad_tag (account_field w) buf new_account ≡ result)
      → decode_account w buf ≡ result
  unfolding decode_account
  nonempty [] result h e = absurd (omega arith)
  nonempty (b ∷ bs) result h e = e (λ buf. invalid_tag_at (length (b ∷ bs) - length buf))

  pub decode_account-fields :
      (f : WireField) (fs : List WireField)
      → All IsField (f ∷ fs)
      → decode_account w (put_fields w (f ∷ fs)) ≡ fold_fields account_step new_account (f ∷ fs)
  decode_account-fields f fs h =
      nonempty (put_fields w (f ∷ fs)) _
        (omega (
          arith,
          length-append (put_field w f) (put_fields w fs),
          length-append (w.append_tag [] (field_number f) (field_type f)) (payload w f),
          r.tag_nonempty (field_number f) (field_type f),
        ))
        (λ bad_tag. message_account [] bad_tag (f ∷ fs) h)

-- The last field of a number, read off the list with no decoder: `d` where there is none.
abbrev pub last_varint : ℕ → ℕ → List WireField → ℕ
last_varint num d [] = d
last_varint num d (varint_field i v ∷ fs) = last_varint num (if i == num then v else d) fs
last_varint num d (bytes_field i v ∷ fs) = last_varint num d fs

abbrev pub last_bytes : ℕ → Bytes → List WireField → Bytes
last_bytes num d [] = d
last_bytes num d (varint_field i v ∷ fs) = last_bytes num d fs
last_bytes num d (bytes_field i v ∷ fs) = last_bytes num (if i == num then v else d) fs

-- A balance is a decimal number, or is left out by an empty string.
abbrev pub HasBalance : WireField → ℤ → ℤ → Type 0
HasBalance (varint_field num v) before after = after ≡ before
HasBalance (bytes_field num v) before after =
    if num == 2
    then (if length v == 0 then after ≡ before else (set_string v ≡ some after))
    else (after ≡ before)

-- The balances that the fields leave behind, one after the other.
abbrev pub Balances : ℤ → List WireField → ℤ → Type 0
Balances z [] z' = z' ≡ z
Balances z (f ∷ fs) z' = (y : ℤ) × HasBalance f z y × Balances y fs z'

-- One field, with the balance that it leaves.
abbrev after_field : IoTxAccount → ℤ → WireField → IoTxAccount
after_field acct z (varint_field num v) = record acct {
  nonce = if num == 1 then v else acct.nonce;
  balance = z;
}
after_field acct z (bytes_field num v) = record acct {
  balance = z;
  root = if num == 3 then v else acct.root;
  code_hash = if num == 4 then v else acct.code_hash;
}

account_step-after_field :
    (acct : IoTxAccount) (f : WireField) (z : ℤ)
    → HasBalance f acct.balance z
    → account_step acct f ≡ ok (after_field acct z f)
unfolding account_bytes
account_step-after_field acct (varint_field num v) z h = ground arith
account_step-after_field acct (bytes_field num v) z h = elim (Option-cases (set_string v)) [
  | inl e ↦ rw e (ground arith)
  | inr (n, e) ↦ rw e (ground arith)
]

fold-account :
    (fs : List WireField) (acct : IoTxAccount) (z : ℤ)
    → Balances acct.balance fs z
    → fold_fields account_step acct fs
      ≡ ok (record {
        nonce = last_varint 1 acct.nonce fs;
        balance = z;
        root = last_bytes 3 acct.root fs;
        code_hash = last_bytes 4 acct.code_hash fs;
      })
fold-account [] acct z h = ground arith
fold-account (varint_field num v ∷ fs) acct z (y, hy, hs) =
    ap (λ (m : Result Error IoTxAccount). m >>= λ acct'. fold_fields account_step acct' fs)
      (account_step-after_field acct (varint_field num v) y hy)
    ∙ fold-account fs (after_field acct y (varint_field num v)) z hs
fold-account (bytes_field num v ∷ fs) acct z (y, hy, hs) =
    rw (account_step-after_field acct (bytes_field num v) y hy)
      (fold-account fs (after_field acct y (bytes_field num v)) z hs)

-- If protowire reads back what it appends, then a message of one field or more, whose numbers
-- and varints are in protowire's range and whose balances parse, decodes to its last nonce, the
-- balance that its balance fields leave, its last root and its last code hash.
pub decode_account_last :
    (w : Protowire)
    → HasRoundTrip w
    → (f : WireField) (fs : List WireField) (z : ℤ) → All IsField (f ∷ fs)
    → Balances (pos 0) (f ∷ fs) z
    → decode_account w (put_fields w (f ∷ fs))
      ≡ ok (record {
        nonce = last_varint 1 0 (f ∷ fs);
        balance = z;
        root = last_bytes 3 [] (f ∷ fs);
        code_hash = last_bytes 4 [] (f ∷ fs);
      })
decode_account_last w r f fs z h balances =
    decode_account-fields w r f fs h ∙ fold-account (f ∷ fs) new_account z balances

module _ (w : Protowire) (p : HasProgress w) where
  tag_error-ne : (n : ℕ) → invalid_tag_at n ≢ out_of_fuel
  tag_error-ne n e = cc

  ignored-Consumes :
      {X : Type 0} (f : X → IoTxAccount) (buf : Bytes) (o : Option (X × ℕ)) (e : Error)
      → e ≢ out_of_fuel
      → Consumes buf (or_err o e >>= λ x. ok (f x.0, drop x.1 buf))
  ignored-Consumes f buf none e h = h
  ignored-Consumes f buf (some (v, n)) e h = drop-shrinks n buf

  account_bytes_ends :
      (acct : IoTxAccount) (num : ℕ) (v : Bytes) → account_bytes acct num v ≢ err out_of_fuel
  unfolding account_bytes
  account_bytes_ends acct num v = elim (Option-cases (set_string v)) [
    | inl e ↦ rw e (ground arith)
    | inr (n, e) ↦ rw e (ground arith)
  ]

  bytes-Consumes :
      (acct : IoTxAccount) (num : ℕ) (buf : Bytes) (o : Option (Bytes × ℕ))
      → Consumes buf (
          or_err o (invalid_bytes num) >>= λ x.
          (account_bytes acct num x.0 >>= λ acct'. ok (acct', drop x.1 buf)))
  bytes-Consumes acct num buf none = λ e. cc
  bytes-Consumes acct num buf (some (v, n)) = elim (Result-cases (account_bytes acct num v)) [
    | inl (a, e) ↦ rw e (drop-shrinks n buf)
    | inr (x, e) ↦ rw e (λ q. account_bytes_ends acct num v (e ∙ ap err q))
  ]

  account_field-Consumes :
      (acct : IoTxAccount) (num : ℕ) (t : WireType) (buf : Bytes)
      → Consumes buf (account_field w acct num t buf)
  unfolding account_field
  account_field-Consumes acct num varint_type buf =
      ignored-Consumes (λ v. if num == 1 then record acct { nonce = v } else acct) buf
        (w.consume_varint buf) (invalid_varint num) (λ e. cc)
  account_field-Consumes acct num bytes_type buf = bytes-Consumes acct num buf (w.consume_bytes buf)
  account_field-Consumes acct num fixed32_type buf =
      ignored-Consumes (λ v. acct) buf (w.consume_fixed32 buf) (invalid_fixed32 num) (λ e. cc)
  account_field-Consumes acct num fixed64_type buf =
      ignored-Consumes (λ v. acct) buf (w.consume_fixed64 buf) (invalid_fixed64 num) (λ e. cc)
  account_field-Consumes acct num start_group_type buf = λ e. cc
  account_field-Consumes acct num end_group_type buf = λ e. cc
  account_field-Consumes acct num reserved6_type buf = λ e. cc
  account_field-Consumes acct num reserved7_type buf = λ e. cc

  -- If a tag that protowire reads takes a byte at least, then decoding an account never runs out
  -- of fuel, on any input.
  pub decode_account_ends : (data_bytes : Bytes) → decode_account w data_bytes ≢ err out_of_fuel
  unfolding decode_account
  decode_account_ends [] = λ e. cc
  decode_account_ends (b ∷ bs) =
      message_ends w out_of_fuel (λ buf. invalid_tag_at (length (b ∷ bs) - length buf))
        (account_field w) p
        (record {
          shrinks = λ acct num t buf acct' rest e.
              Consumes-shrinks buf (account_field w acct num t buf) acct' rest
                (account_field-Consumes acct num t buf) e;
          field_ends = λ acct num t buf.
              Consumes-ends buf (account_field w acct num t buf)
                (account_field-Consumes acct num t buf);
          tag_ends = λ buf. tag_error-ne (length (b ∷ bs) - length buf);
        })
        (b ∷ bs) new_account
