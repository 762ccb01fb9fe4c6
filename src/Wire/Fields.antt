-- ===== src/Wire/Fields.antt =====
-- The wire form of a sequence of fields, and what a decoder makes of it: a fold over the fields.
use ioswarm.Common.{
  ℕ, zero, suc, ◌^◌, ◌≤◌, ◌<◌, ◌≡◌, refl, ◌∙◌, List, [], ◌∷◌, ◌++◌, arith, Bytes, length,
  length-append, drop-append_self, All, Result, ok, ◌>>=◌, Result-cases, inl, inr,
}
use mathlib.Core.List.{append_assoc}
use ioswarm.Wire.Defs.{WireType, varint_type, bytes_type, Protowire, HasRoundTrip}
use ioswarm.Wire.Loop.{message_loop, message}
use ioswarm.Wire.Lemmas.{message_loop_step}

pub data WireField : Type 0 where
  varint_field : ℕ → ℕ → WireField
  bytes_field : ℕ → Bytes → WireField

abbrev pub field_number : WireField → ℕ
field_number (varint_field num v) = num
field_number (bytes_field num v) = num

abbrev pub field_type : WireField → WireType
field_type (varint_field num v) = varint_type
field_type (bytes_field num v) = bytes_type

-- Field numbers are 1 to 2^29 - 1, and a varint is a uint64.
abbrev pub IsField : WireField → Type 0
IsField (varint_field num v) = (1 ≤ num) × (num < 2 ^ 29) × (v < 2 ^ 64)
IsField (bytes_field num v) = (1 ≤ num) × (num < 2 ^ 29)

number_bounds : (f : WireField) → IsField f → (1 ≤ field_number f) × (field_number f < 2 ^ 29)
number_bounds (varint_field num v) h = (h.0, h.1)
number_bounds (bytes_field num v) h = h

-- A sequence of fields, as a decoder reads it: `step` says what one field does to the message.
abbrev pub fold_fields :
    {E A : Type 0} → (A → WireField → Result E A) → A → List WireField → Result E A
fold_fields step acc [] = ok acc
fold_fields step acc (f ∷ fs) = step acc f >>= λ acc'. fold_fields step acc' fs

module _ (w : Protowire) where
  abbrev pub payload : WireField → Bytes
  payload (varint_field num v) = w.append_varint [] v
  payload (bytes_field num v) = w.append_bytes [] v

  abbrev pub put_field : WireField → Bytes
  put_field f = w.append_tag [] (field_number f) (field_type f) ++ payload f

  abbrev pub put_fields : List WireField → Bytes
  put_fields [] = []
  put_fields (f ∷ fs) = put_field f ++ put_fields fs

  -- Appending a tag and a payload to a buffer appends the field.
  pub append_bytes_field :
      HasRoundTrip w
      → (b : Bytes) (num : ℕ) (v : Bytes)
      → w.append_bytes (w.append_tag b num bytes_type) v ≡ b ++ put_field (bytes_field num v)
  append_bytes_field r b num v =
      rw (r.bytes_appends (w.append_tag b num bytes_type) v, r.tag_appends b num bytes_type)
        (append_assoc b (w.append_tag [] num bytes_type) (w.append_bytes [] v))

  pub append_varint_field :
      HasRoundTrip w
      → (b : Bytes) (num v : ℕ)
      → w.append_varint (w.append_tag b num varint_type) v ≡ b ++ put_field (varint_field num v)
  append_varint_field r b num v =
      rw (r.varint_appends (w.append_tag b num varint_type) v, r.tag_appends b num varint_type)
        (append_assoc b (w.append_tag [] num varint_type) (w.append_varint [] v))

module _ {E A : Type 0} (w : Protowire) (exhausted : E) (bad_tag : Bytes → E)
    (field : A → ℕ → WireType → Bytes → Result E (A × Bytes)) (step : A → WireField → Result E A)
    (r : HasRoundTrip w)
    (one : (acc : A) (f : WireField) (rest : Bytes)
      → IsField f
      → field acc (field_number f) (field_type f) (payload w f ++ rest)
        ≡ (step acc f >>= λ acc'. ok (acc', rest))) where
  fields_round :
      (fuel : ℕ) (acc : A) (f : WireField) (rest : Bytes)
      → IsField f
      → message_loop w exhausted bad_tag field (suc fuel) (put_field w f ++ rest) acc
        ≡ (step acc f >>= λ acc'. message_loop w exhausted bad_tag field fuel rest acc')
  fields_round fuel acc f rest h =
      let tag : Bytes = w.append_tag [] (field_number f) (field_type f) in
      let (lo, hi) = number_bounds f h in
      rw (append_assoc tag (payload w f) rest) (
        message_loop_step w exhausted bad_tag field fuel (tag ++ (payload w f ++ rest))
          (field_number f) (field_type f) (length tag) acc
          (omega (
            arith,
            length-append tag (payload w f ++ rest),
            r.tag_nonempty (field_number f) (field_type f),
          ))
          (r.tag_back (field_number f) (field_type f) (payload w f ++ rest) lo hi)
        ∙ rw (drop-append_self tag (payload w f ++ rest), one acc f rest h)
            (elim (Result-cases (step acc f)) [ inl (a, e) ↦ rw e | inr (x, e) ↦ rw e ]))

  fields_loop :
      (fs : List WireField) (fuel : ℕ) (acc : A)
      → All IsField fs
      → length (put_fields w fs) ≤ fuel
      → message_loop w exhausted bad_tag field fuel (put_fields w fs) acc ≡ fold_fields step acc fs
  fields_loop [] fuel acc h le = unfold message_loop in refl
  fields_loop (f ∷ fs) zero acc (hf, hs) le = absurd (
      omega (
        arith,
        length-append (put_field w f) (put_fields w fs),
        length-append (w.append_tag [] (field_number f) (field_type f)) (payload w f),
        r.tag_nonempty (field_number f) (field_type f),
      ))
  fields_loop (f ∷ fs) (suc fuel) acc (hf, hs) le =
      fields_round fuel acc f (put_fields w fs) hf ∙ elim (Result-cases (step acc f)) [
        | inl (a, e) ↦ rw e (
            fields_loop fs fuel a hs (
              omega (
                arith,
                length-append (put_field w f) (put_fields w fs),
                length-append (w.append_tag [] (field_number f) (field_type f)) (payload w f),
                r.tag_nonempty (field_number f) (field_type f),
              )))
        | inr (x, e) ↦ rw e
      ]

  -- Decoding the wire form of some fields is the fold of `step` over them, errors included.
  pub message_fields :
      (fs : List WireField) (acc : A)
      → All IsField fs
      → message w exhausted bad_tag field (put_fields w fs) acc ≡ fold_fields step acc fs
  unfolding message
  message_fields fs acc h = fields_loop fs (length (put_fields w fs)) acc h (omega arith)

module _ {E A : Type 0} (w : Protowire) (exhausted : E) (bad_tag : Bytes → E)
    (field : A → ℕ → WireType → Bytes → Result E (A × Bytes)) (r : HasRoundTrip w) where
  first_loop :
      (fuel : ℕ) (acc acc' : A) (f : WireField) (rest : Bytes)
      → IsField f
      → 1 ≤ fuel
      → field acc (field_number f) (field_type f) (payload w f ++ rest) ≡ ok (acc', [])
      → message_loop w exhausted bad_tag field fuel (put_field w f ++ rest) acc ≡ ok acc'
  first_loop zero acc acc' f rest h lo e = absurd (omega arith)
  first_loop (suc fuel) acc acc' f rest h lo e =
      let tag : Bytes = w.append_tag [] (field_number f) (field_type f) in
      let (low, high) = number_bounds f h in
      rw (append_assoc tag (payload w f) rest) (
        message_loop_step w exhausted bad_tag field fuel (tag ++ (payload w f ++ rest))
          (field_number f) (field_type f) (length tag) acc
          (omega (
            arith,
            length-append tag (payload w f ++ rest),
            r.tag_nonempty (field_number f) (field_type f),
          ))
          (r.tag_back (field_number f) (field_type f) (payload w f ++ rest) low high)
        ∙ rw (drop-append_self tag (payload w f ++ rest), e) (unfold message_loop in refl))

  -- A first field at which the decoder stops decides the message, whatever follows it.
  pub message_first :
      (acc acc' : A) (f : WireField) (rest : Bytes)
      → IsField f
      → field acc (field_number f) (field_type f) (payload w f ++ rest) ≡ ok (acc', [])
      → message w exhausted bad_tag field (put_field w f ++ rest) acc ≡ ok acc'
  unfolding message
  message_first acc acc' f rest h e =
      first_loop (length (put_field w f ++ rest)) acc acc' f rest h
        (omega (
          arith,
          length-append (put_field w f) rest,
          length-append (w.append_tag [] (field_number f) (field_type f)) (payload w f),
          r.tag_nonempty (field_number f) (field_type f),
        ))
        e
