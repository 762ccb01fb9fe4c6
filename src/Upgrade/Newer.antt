-- ===== src/Upgrade/Newer.antt =====
-- A release is announced exactly if its three numbers are greater, the first that differs deciding.
use mathlib.Core.Logic.Iff
use mathlib.Core.Option
use ioswarm.Common.{
  ℕ, suc, ◌+◌, ◌-◌, ◌*◌, ◌^◌, ◌<◌, ◌≡◌, refl, ap, ◌↔◌, ◌⊎◌, Option, none, some, [], ◌∷◌, ◌++◌,
  Bytes, bytes_eq, Bool, true, false, ◌&&◌, ltb, leb, ◌==◌, if◌then◌else◌, if_elim, length, All,
  arith,
}
use ioswarm.Common.Int.{pos, set_string, parse_unsigned, parse_digits}
use ioswarm.Common.Text.{split_n, trim_prefix, has_prefix}
use ioswarm.Upgrade.Defs.{
  dot, atoi_or_zero, semver_of, parse_semver, semver_less, semver_less_than, check_for_update,
}

-- A decimal text of an int that is no negative one.
abbrev pub IsNumeral : Bytes → ℕ → Type 0
IsNumeral s n = (parse_unsigned s ≡ some n) × (n < 2 ^ 63)

abbrev pub dotted : Bytes → Bytes → Bytes → Bytes
dotted a b c = a ++ dot ∷ (b ++ dot ∷ c)

abbrev pub tag : Bytes → Bytes → Bytes → Bytes
tag a b c = b'v' ∷ dotted a b c

abbrev pub IsLess : ℕ × ℕ × ℕ → ℕ × ℕ × ℕ → Type 0
IsLess (x, y, z) (x', y', z') = (x < x') ⊎ ((x ≡ x') × ((y < y') ⊎ ((y ≡ y') × (z < z'))))

IsNoDot : ℕ → Type 0
IsNoDot c = (c == dot) ≡ false

is_digit :
    (s : Bytes) (acc c n : ℕ)
    → parse_digits acc (c ∷ s) ≡ some n
    → ((leb b'0' c && leb c b'9') ≡ true) × (parse_digits (acc * 10 + (c - b'0')) s ≡ some n)
unfolding parse_digits
is_digit s acc c n e = by_digit (leb b'0' c && leb c b'9') e
  where
    by_digit :
        (d : Bool)
        → Path (Option ℕ) (if d then parse_digits (acc * 10 + (c - b'0')) s else none) (some n)
        → (d ≡ true) × (parse_digits (acc * 10 + (c - b'0')) s ≡ some n)
    by_digit true e = (refl, e)
    by_digit false e = cc

digits-IsNoDot : (s : Bytes) (acc n : ℕ) → parse_digits acc s ≡ some n → All IsNoDot s
unfolding IsNoDot
digits-IsNoDot [] acc n e = tt
digits-IsNoDot (c ∷ s) acc n e =
    let (digit, rest) = is_digit s acc c n e in (other_byte digit, digits-IsNoDot s _ n rest)
  where
    other_byte : (leb b'0' c && leb c b'9') ≡ true → (c == dot) ≡ false
    other_byte digit = ground arith

split_n_part :
    (a rest : Bytes) (n : ℕ)
    → All IsNoDot a
    → split_n dot (suc (suc n)) (a ++ dot ∷ rest) ≡ a ∷ split_n dot (suc n) rest
unfolding split_n IsNoDot
split_n_part [] rest n are = refl
split_n_part (c ∷ a) rest n (other, are) = rw (other, split_n_part a rest n are)

numeral-IsNoDot : (s : Bytes) (n : ℕ) → parse_unsigned s ≡ some n → All IsNoDot s
unfolding parse_unsigned
numeral-IsNoDot [] n e = cc
numeral-IsNoDot (c ∷ s) n e = digits-IsNoDot (c ∷ s) 0 n e

not_minus : (c : ℕ) → (leb b'0' c && leb c b'9') ≡ true → (c == b'-') ≡ false
not_minus c digit = ground arith

not_plus : (c : ℕ) → (leb b'0' c && leb c b'9') ≡ true → (c == b'+') ≡ false
not_plus c digit = ground arith

set_string_numeral : (s : Bytes) (n : ℕ) → parse_unsigned s ≡ some n → set_string s ≡ some (pos n)
unfolding set_string parse_unsigned
set_string_numeral [] n e = cc
set_string_numeral (c ∷ s) n e =
    let digit = (is_digit s 0 c n e).0 in
    rw (not_minus c digit, not_plus c digit) (ap (λ o. Option.map pos o) e)

numeral_value : (s : Bytes) (n : ℕ) → IsNumeral s n → atoi_or_zero s ≡ pos n
unfolding atoi_or_zero
numeral_value s n (e, small) =
    rw (atoi_or_zero, set_string_numeral s n e)
      (if_elim (λ z. z ≡ pos n) (ltb n (2 ^ 63)) (λ t. refl) (λ t. absurd (too_big t)))
  where
    too_big : ltb n (2 ^ 63) ≡ false → ⊥
    too_big t = ground arith

dotted_value :
    (a b c : Bytes) (x y z : ℕ)
    → IsNumeral a x
    → IsNumeral b y
    → IsNumeral c z
    → parse_semver (dotted a b c) ≡ record { major = pos x; minor = pos y; patch = pos z }
unfolding parse_semver semver_of split_n
dotted_value a b c x y z na nb nc =
    rw
      (
        parse_semver,
        split_n_part a (b ++ dot ∷ c) 1 (numeral-IsNoDot a x na.0),
        split_n_part b c 0 (numeral-IsNoDot b y nb.0),
        numeral_value a x na,
        numeral_value b y nb,
        numeral_value c z nc,
      )
      refl

semver_less_iff :
    (x y z x' y' z' : ℕ)
    → (semver_less
          (record { major = pos x; minor = pos y; patch = pos z })
          (record { major = pos x'; minor = pos y'; patch = pos z' })
        ≡ true)
      ↔ IsLess (x, y, z) (x', y', z')
unfolding semver_less
semver_less_iff x y z x' y' z' = ground arith

dotted-IsLess :
    (a b c a' b' c' : Bytes) (x y z x' y' z' : ℕ)
    → IsNumeral a x
    → IsNumeral b y
    → IsNumeral c z
    → IsNumeral a' x'
    → IsNumeral b' y'
    → IsNumeral c' z'
    → (semver_less_than (dotted a b c) (dotted a' b' c') ≡ true) ↔ IsLess (x, y, z) (x', y', z')
unfolding semver_less_than
dotted-IsLess a b c a' b' c' x y z x' y' z' na nb nc na' nb' nc' =
    rw
      (
        semver_less_than,
        dotted_value a b c x y z na nb nc,
        dotted_value a' b' c' x' y' z' na' nb' nc',
      )
      (semver_less_iff x y z x' y' z')

announced :
    (none_here less : Bool) (versions : Bytes × Bytes)
    → none_here ≡ false
    → (Path
        (Option (Bytes × Bytes))
        (if none_here then none else if less then some versions else none)
        (some versions))
      ↔ (less ≡ true)
announced true less versions t = absurd (true_false t)
  where
    true_false : Path Bool true false → ⊥
    true_false q = cc
announced false true versions t = ((λ q. refl), (λ q. refl))
announced false false versions t = ((λ q. cc), (λ q. cc))

has_text : (s : Bytes) (c : ℕ) → (length (c ∷ s) == 0) ≡ false
has_text s c = ground arith

-- For versions of three decimal numbers below 2^63, written with a v before them and dots between,
-- the newer release is announced, with the two versions, exactly if the three numbers of the
-- agent's version stand before those of the release, the first number that differs deciding.
pub check_for_update_newer :
    (a b c a' b' c' : Bytes) (x y z x' y' z' : ℕ)
    → IsNumeral a x
    → IsNumeral b y
    → IsNumeral c z
    → IsNumeral a' x'
    → IsNumeral b' y'
    → IsNumeral c' z'
    → (check_for_update (tag a b c) (some (tag a' b' c')) ≡ some (dotted a b c, dotted a' b' c'))
      ↔ IsLess (x, y, z) (x', y', z')
unfolding check_for_update trim_prefix has_prefix bytes_eq
check_for_update_newer a b c a' b' c' x y z x' y' z' na nb nc na' nb' nc' =
    Iff.trans
      (announced (length (tag a b c) == 0) (semver_less_than (dotted a b c) (dotted a' b' c'))
        (dotted a b c, dotted a' b' c') (has_text (dotted a b c) b'v'))
      (dotted-IsLess a b c a' b' c' x y z x' y' z' na nb nc na' nb' nc')
