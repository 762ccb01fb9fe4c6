-- ===== src/Common/BigEndian.antt =====
-- encoding/binary's big-endian reading and writing of unsigned integers.
use mathlib.Core.Path.{◌≡◌, refl, sym, ap, subst, ◌∙◌}
use Prim.Native.Nat.{ℕ, zero, suc, ◌+◌, ◌*◌, ◌/◌, ◌%◌, ◌^◌, ◌<◌}
use mathlib.Core.List.{[], ◌∷◌, ◌++◌}
use native.Mathlib.Omega.{arith}
use native.Mathlib.Nat.{pow-suc, pow-succ', mul_assoc}
use ioswarm.Common.Tests.{Bytes}
use ioswarm.Common.Lists.{length, length-append, All}

-- `new(big.Int).SetBytes` and `binary.BigEndian.Uint64`: the most significant byte first.
pub of_bytes_from : ℕ → Bytes → ℕ
of_bytes_from acc [] = acc
of_bytes_from acc (b ∷ bs) = of_bytes_from (acc * 256 + b) bs

unfoldable pub of_bytes : Bytes → ℕ
unfolding of_bytes_from
of_bytes = of_bytes_from 0

-- `binary.BigEndian.PutUint64` and the like: `n` bytes.
unfoldable pub to_bytes : ℕ → ℕ → Bytes
to_bytes zero v = []
to_bytes (suc n) v = to_bytes n (v / 256) ++ (v % 256) ∷ []

pub length-to_bytes : (n v : ℕ) → length (to_bytes n v) ≡ n
unfolding to_bytes
length-to_bytes zero v = refl
length-to_bytes (suc n) v =
    omega
      (arith, length-append (to_bytes n (v / 256)) ((v % 256) ∷ []), length-to_bytes n (v / 256))

of_bytes_from-append :
    (xs ys : Bytes) (acc : ℕ)
    → of_bytes_from acc (xs ++ ys) ≡ of_bytes_from (of_bytes_from acc xs) ys
unfolding of_bytes_from
of_bytes_from-append [] ys acc = refl
of_bytes_from-append (x ∷ xs) ys acc = of_bytes_from-append xs ys (acc * 256 + x)

quotient_fits : (n v : ℕ) → v < 256 ^ suc n → v / 256 < 256 ^ n
quotient_fits n v h = omega (arith, pow-suc 256 n)

-- Reading back what was written, for every value that fits.
pub of_bytes-to_bytes : (n v : ℕ) → v < 256 ^ n → of_bytes (to_bytes n v) ≡ v
unfolding of_bytes to_bytes
of_bytes-to_bytes zero v h = omega arith
of_bytes-to_bytes (suc n) v h =
    of_bytes_from-append (to_bytes n (v / 256)) ((v % 256) ∷ []) 0
    ∙ omega (arith, of_bytes-to_bytes n (v / 256) (quotient_fits n v h))

abbrev pub IsByte : ℕ → Type 0
IsByte c = c < 256

of_bytes_from_bound :
    (bs : Bytes) (acc bound : ℕ)
    → All IsByte bs
    → acc < bound
    → of_bytes_from acc bs < bound * 256 ^ length bs
unfolding of_bytes_from
of_bytes_from_bound [] acc bound are small = omega (arith, small)
of_bytes_from_bound (b ∷ bs) acc bound (is_byte, are) small =
    let n = length bs in
    let wider = mul_assoc bound 256 (256 ^ n) ∙ ap (λ p. bound * p) (sym (pow-succ' 256 n)) in
    subst (λ most. of_bytes_from acc (b ∷ bs) < most) wider
      (of_bytes_from_bound bs (acc * 256 + b) (bound * 256) are (omega (arith, small, is_byte)))

-- A number that is read from bytes fits them.
pub of_bytes_bound : (bs : Bytes) → All IsByte bs → of_bytes bs < 256 ^ length bs
unfolding of_bytes
of_bytes_bound bs are = omega (arith, of_bytes_from_bound bs 0 1 are (omega arith))
