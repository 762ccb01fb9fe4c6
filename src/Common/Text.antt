-- ===== src/Common/Text.antt =====
-- What the agent calls of the package strings, on ASCII texts. A byte from 128 on counts as no
-- letter and no space.
use Prim.Native.Nat.{ℕ, zero, suc, ◌+◌, ◌-◌}
use mathlib.Core.Bool.{Bool, true, false, ◌&&◌, ◌||◌}
use mathlib.Core.List.{List, [], ◌∷◌, ◌++◌, map}
use ioswarm.Common.Tests.{leb, ◌==◌, if◌then◌else◌, Bytes, bytes_eq}
use ioswarm.Common.Lists.{length, take, drop}

abbrev pub upper_byte : ℕ → ℕ
upper_byte c = if leb 97 c && leb c 122 then c - 32 else c

abbrev pub lower_byte : ℕ → ℕ
lower_byte c = if leb 65 c && leb c 90 then c + 32 else c

-- `strings.ToUpper` and `strings.ToLower`
unfoldable pub to_upper : Bytes → Bytes
to_upper s = map upper_byte s

unfoldable pub to_lower : Bytes → Bytes
to_lower s = map lower_byte s

-- `strings.HasPrefix`, `HasSuffix`, `TrimPrefix` and `TrimRight` of one byte
unfoldable pub has_prefix : Bytes → Bytes → Bool
has_prefix s prefix = bytes_eq (take (length prefix) s) prefix

unfoldable pub has_suffix : Bytes → Bytes → Bool
has_suffix s suffix =
    leb (length suffix) (length s) && bytes_eq (drop (length s - length suffix) s) suffix

unfoldable pub trim_prefix : Bytes → Bytes → Bytes
unfolding has_prefix
trim_prefix s prefix = if has_prefix s prefix then drop (length prefix) s else s

abbrev pub is_space : ℕ → Bool
is_space c = (leb 9 c && leb c 13) || c == 32

unfoldable pub trim_left : (ℕ → Bool) → Bytes → Bytes
trim_left cut [] = []
trim_left cut (c ∷ s) = let rest = trim_left cut s in if cut c then rest else c ∷ s

-- What is left of a byte before a text whose end is trimmed.
abbrev pub keep_before : Bool → ℕ → Bytes → Bytes
keep_before true c [] = []
keep_before false c [] = c ∷ []
keep_before cut c (d ∷ s) = c ∷ d ∷ s

unfoldable pub trim_right : (ℕ → Bool) → Bytes → Bytes
trim_right cut [] = []
trim_right cut (c ∷ s) = keep_before (cut c) c (trim_right cut s)

-- `strings.TrimSpace`
unfoldable pub trim_space : Bytes → Bytes
unfolding trim_left trim_right
trim_space s = trim_right is_space (trim_left is_space s)

abbrev pub onto_first : ℕ → List Bytes → List Bytes
onto_first c [] = (c ∷ []) ∷ []
onto_first c (part ∷ parts) = (c ∷ part) ∷ parts

-- `strings.Split` at one byte
unfoldable pub split : ℕ → Bytes → List Bytes
split sep [] = [] ∷ []
split sep (c ∷ s) = let rest = split sep s in if c == sep then [] ∷ rest else onto_first c rest

-- `strings.SplitN` at one byte
unfoldable pub split_n : ℕ → ℕ → Bytes → List Bytes
split_n sep zero s = []
split_n sep (suc zero) s = s ∷ []
split_n sep (suc (suc n)) [] = [] ∷ []
split_n sep (suc (suc n)) (c ∷ s) =
    let ends = split_n sep (suc n) s in
    let goes_on = split_n sep (suc (suc n)) s in
    if c == sep then [] ∷ ends else onto_first c goes_on

-- The parts with the byte between them.
abbrev pub join : ℕ → List Bytes → Bytes
join sep [] = []
join sep (part ∷ []) = part
join sep (part ∷ next ∷ parts) = part ++ sep ∷ join sep (next ∷ parts)
