-- ===== src/Upgrade/Defs.antt =====
-- parseSemver, semverLessThan and checkForUpdate.
use ioswarm.Common.{
  ℕ, ◌^◌, Option, none, some, List, [], ◌∷◌, Bytes, codes, bytes_eq, Bool, true, false, ◌||◌, ltb,
  ◌==◌, if◌then◌else◌, length,
}
use ioswarm.Common.Int.{ℤ, pos, negsuc, set_string}
use ioswarm.Common.Text.{split_n, trim_prefix}

abbrev pub dot : ℕ
dot = 46

-- An int has 64 bits.
abbrev pub clamp : ℤ → ℤ
clamp (pos n) = if ltb n (2 ^ 63) then pos n else pos 9223372036854775807
clamp (negsuc n) = if ltb n (2 ^ 63) then negsuc n else negsuc 9223372036854775807

abbrev pub in_range : ℤ → Option ℤ
in_range (pos n) = if ltb n (2 ^ 63) then some (pos n) else none
in_range (negsuc n) = if ltb n (2 ^ 63) then some (negsuc n) else none

-- strconv.Atoi, with none for its errors.
unfoldable pub atoi : Bytes → Option ℤ
atoi s = elim (set_string s) [ none ↦ none | some z ↦ in_range z ]

-- The value beside an error that is ignored: 0 for what is no number, and the nearest int for what
-- is out of range.
unfoldable pub atoi_or_zero : Bytes → ℤ
atoi_or_zero s = elim (set_string s) [ none ↦ pos 0 | some z ↦ clamp z ]

-- `[3]int`
pub record Semver : Type 0 where
  pub major : ℤ
  pub minor : ℤ
  pub patch : ℤ

-- `strings.SplitN` at 3 gives no more than three parts; a part that is missing is 0.
unfoldable pub semver_of : List Bytes → Semver
unfolding atoi_or_zero
semver_of [] = record { major = pos 0; minor = pos 0; patch = pos 0 }
semver_of (a ∷ []) = record { major = atoi_or_zero a; minor = pos 0; patch = pos 0 }
semver_of (a ∷ b ∷ []) = record { major = atoi_or_zero a; minor = atoi_or_zero b; patch = pos 0 }
semver_of (a ∷ b ∷ c ∷ rest) = record {
  major = atoi_or_zero a;
  minor = atoi_or_zero b;
  patch = atoi_or_zero c;
}

unfoldable pub parse_semver : Bytes → Semver
unfolding semver_of
parse_semver v = semver_of (split_n dot 3 v)

abbrev pub ltb_ℤ : ℤ → ℤ → Bool
ltb_ℤ (pos m) (pos n) = ltb m n
ltb_ℤ (pos m) (negsuc n) = false
ltb_ℤ (negsuc m) (pos n) = true
ltb_ℤ (negsuc m) (negsuc n) = ltb n m

-- One round of the loop, before the rest.
abbrev pub less_or : ℤ → ℤ → Bool → Bool
less_or a b rest = if ltb_ℤ a b then true else if ltb_ℤ b a then false else rest

unfoldable pub semver_less : Semver → Semver → Bool
semver_less a b = less_or a.major b.major (less_or a.minor b.minor (less_or a.patch b.patch false))

unfoldable pub semver_less_than : Bytes → Bytes → Bool
unfolding parse_semver semver_less
semver_less_than a b = semver_less (parse_semver a) (parse_semver b)

-- What is printed: the two versions, where the latest is newer. `released` is the tag that the
-- release interface names, or none for any failure on the way to it.
unfoldable pub check_for_update : Bytes → Option Bytes → Option (Bytes × Bytes)
unfolding semver_less_than
check_for_update current_version none = none
check_for_update current_version (some tag) =
    let latest = trim_prefix tag (codes "v") in
    let current = trim_prefix current_version (codes "v") in
    if bytes_eq current_version (codes "dev") || length current_version == 0
    then none
    else if semver_less_than current latest
    then some (current, latest)
    else none
