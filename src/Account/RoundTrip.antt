-- ===== src/Account/RoundTrip.antt =====
-- Addresses written in hexadecimal are read back, and what is read is an address.
use Prim.Native.Nat.{bit_or}
use mathlib.Core.Path.{subst, subst⁻¹}
use ioswarm.Common.{
  ℕ, zero, suc, ◌+◌, ◌-◌, ◌*◌, ◌/◌, ◌%◌, ◌≤◌, ◌<◌, ◌≡◌, refl, inl, inr, [], ◌∷◌, ◌++◌, Bytes,
  bytes_eq, codes, ◌||◌, Bool, true, false, ◌==◌, ==_iff, ltb, arith, if◌then◌else◌, take, drop,
  length, All, Result, ok, err, ◌>>=◌, Result-cases, Bool-cases,
}
use ioswarm.Errors.{Error}
use ioswarm.Account.Address.{hex_val, hex_bytes, address_to_hash160}

-- A byte, made of its two halves again.
abbrev joined : ℕ → ℕ
joined v = bit_or (v / 16 * 16 % 256) (v % 16)

-- How many of the numbers below `bound` are not their halves, joined.
abbrev broken : ℕ → ℕ
broken zero = 0
broken (suc bound) = (if joined bound == bound then 0 else 1) + broken bound

last_not_broken : (v : ℕ) → broken (suc v) ≡ 0 → (joined v == v) ≡ true
last_not_broken v none_is = ground arith

not_broken : (bound v : ℕ) → broken bound ≡ 0 → v < bound → (joined v == v) ≡ true
not_broken zero v none_is h = absurd (omega arith)
not_broken (suc bound) v none_is h = elim (Bool-cases (v == bound)) [
  | inl same ↦
      subst⁻¹ (λ x. (joined x == x) ≡ true) ((==_iff v bound).0 same)
        (last_not_broken bound none_is)
  | inr other ↦ not_broken bound v (ground arith) (ground arith)
]

no_byte_broken : broken 256 ≡ 0
no_byte_broken = refl

nibbles : (v : ℕ) → v < 256 → joined v ≡ v
nibbles v h = (==_iff (joined v) v).0 (not_broken 256 v no_byte_broken h)

-- A hexadecimal digit below 16, in lower or in upper case.
abbrev pub hex_digit : Bool → ℕ → ℕ
hex_digit upper n = if ltb n 10 then n + b'0' else if upper then n - 10 + b'A' else n - 10 + b'a'

hex_val-hex_digit : (upper : Bool) (n : ℕ) → n < 16 → hex_val (hex_digit upper n) ≡ ok n
unfolding hex_val
hex_val-hex_digit true n h = ground arith
hex_val-hex_digit false n h = ground arith

-- `case_of` chooses the case of each digit, from its place in the text.
abbrev pub hex_text : (ℕ → Bool) → ℕ → Bytes → Bytes
hex_text case_of i [] = []
hex_text case_of i (b ∷ bs) =
    hex_digit (case_of i) (b / 16)
    ∷ hex_digit (case_of (i + 1)) (b % 16)
    ∷ hex_text case_of (i + 2) bs

abbrev pub IsByte : ℕ → Type 0
IsByte b = b < 256

hex_bytes-hex_text :
    (case_of : ℕ → Bool) (i : ℕ) (bs : Bytes)
    → All IsByte bs
    → hex_bytes (hex_text case_of i bs) ≡ ok bs
unfolding hex_bytes
hex_bytes-hex_text case_of i [] h = refl
hex_bytes-hex_text case_of i (b ∷ bs) (hb, hs) = rw (
  hex_val-hex_digit (case_of i) (b / 16) (omega arith),
  hex_val-hex_digit (case_of (i + 1)) (b % 16) (omega arith),
  hex_bytes-hex_text case_of (i + 2) bs hs,
  nibbles b hb,
)

length-hex_text :
    (case_of : ℕ → Bool) (i : ℕ) (bs : Bytes) → length (hex_text case_of i bs) ≡ 2 * length bs
length-hex_text case_of i [] = refl
length-hex_text case_of i (b ∷ bs) = omega (arith, length-hex_text case_of (i + 2) bs)

forty : (case_of : ℕ → Bool) (bs : Bytes) → length bs ≡ 20 → length (hex_text case_of 0 bs) ≡ 40
forty case_of bs len = omega (arith, length-hex_text case_of 0 bs)

-- The text of 20 bytes, behind either prefix and with each digit in either case, is read as
-- those bytes.
pub address_to_hash160-hex_text :
    (upper_prefix : Bool) (case_of : ℕ → Bool) (bs : Bytes)
    → length bs ≡ 20
    → All IsByte bs
    → address_to_hash160
        ((if upper_prefix then codes "0X" else codes "0x") ++ hex_text case_of 0 bs)
      ≡ ok bs
unfolding address_to_hash160 bytes_eq
address_to_hash160-hex_text true case_of bs len h =
    rw (forty case_of bs len) (hex_bytes-hex_text case_of 0 bs h)
address_to_hash160-hex_text false case_of bs len h =
    rw (forty case_of bs len) (hex_bytes-hex_text case_of 0 bs h)

hex_val-lt : (c n : ℕ) → hex_val c ≡ ok n → n < 16
unfolding hex_val
hex_val-lt c n e = ground arith

joined_nibbles : (hi lo : ℕ) → hi < 16 → lo < 16 → bit_or (hi * 16 % 256) lo < 256
joined_nibbles hi lo h l =
    rw (digits_high hi lo l, digits_low hi lo l) at
      (rw (← nibbles (hi * 16 + lo) (omega arith)) at (small hi lo h l))
  where
    small : (hi lo : ℕ) → hi < 16 → lo < 16 → hi * 16 + lo < 256
    small hi lo h l = omega arith

    digits_high : (hi lo : ℕ) → lo < 16 → (hi * 16 + lo) / 16 ≡ hi
    digits_high hi lo l = omega arith

    digits_low : (hi lo : ℕ) → lo < 16 → (hi * 16 + lo) % 16 ≡ lo
    digits_low hi lo l = omega arith

-- What a successful reading of `n` pairs of digits is.
abbrev IsPairs : ℕ → Result Error Bytes → Type 0
IsPairs n (ok bs) = (length bs ≡ n) × All IsByte bs
IsPairs n (err e) = Unit {0}

IsPairs-step :
    (n hi lo : ℕ) (r : Result Error Bytes)
    → hi < 16
    → lo < 16
    → 1 ≤ n
    → IsPairs (n - 1) r
    → IsPairs n (r >>= λ bs. ok (bit_or (hi * 16 % 256) lo ∷ bs))
IsPairs-step n hi lo (ok bs) h l pos_n (len, small) =
    (omega arith, (joined_nibbles hi lo h l, small))
IsPairs-step n hi lo (err e) h l pos_n p = tt

hex_bytes-IsPairs : (n : ℕ) (text : Bytes) → length text ≡ 2 * n → IsPairs n (hex_bytes text)
unfolding hex_bytes
hex_bytes-IsPairs n [] e = (omega arith, tt)
hex_bytes-IsPairs n (c ∷ []) e = absurd (omega arith)
hex_bytes-IsPairs n (c ∷ d ∷ rest) e = elim (Result-cases (hex_val c)) [
  | inl (hi, p) ↦ rw p (elim (Result-cases (hex_val d)) [
    | inl (lo, q) ↦ rw q (
        IsPairs-step n hi lo (hex_bytes rest) (hex_val-lt c hi p) (hex_val-lt d lo q) (omega arith)
          (hex_bytes-IsPairs (n - 1) rest (omega arith)))
    | inr (x, q) ↦ rw q tt
  ])
  | inr (x, p) ↦ rw p tt
]

read-IsPairs : (addr : Bytes) → IsPairs 20 (address_to_hash160 addr)
unfolding address_to_hash160
read-IsPairs addr = elim (Bool-cases (ltb (length addr) 2)) [
  | inl short ↦ rw short tt
  | inr long ↦
      rw long
        (elim (Bool-cases
          (bytes_eq (take 2 addr) (codes "0x") || bytes_eq (take 2 addr) (codes "0X"))) [
            | inl prefixed ↦ rw prefixed (elim (Bool-cases (length (drop 2 addr) == 40)) [
              | inl forty_digits ↦
                  rw forty_digits
                    (hex_bytes-IsPairs 20 (drop 2 addr) ((==_iff _ 40).0 forty_digits))
              | inr other ↦ rw other tt
            ])
            | inr other ↦ rw other tt
          ])
]

-- Whatever the text, an address that is read from it is a list of 20 numbers below 256.
pub address_to_hash160-IsPairs :
    (addr bs : Bytes) → address_to_hash160 addr ≡ ok bs → (length bs ≡ 20) × All IsByte bs
address_to_hash160-IsPairs addr bs e = subst (IsPairs 20) e (read-IsPairs addr)
