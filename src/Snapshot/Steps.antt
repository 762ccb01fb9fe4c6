-- ===== src/Snapshot/Steps.antt =====
-- The steps that read a stream: what they leave, and that no error of theirs is the model's own.
use mathlib.Core.Option
use mathlib.Core.List.{append_assoc}
use ioswarm.Common.{
  ℕ, ◌+◌, ◌≤◌, ◌≡◌, ◌≢◌, refl, sym, ap, ◌∙◌, Option, none, some, [], ◌++◌, Bytes, Bool, true, false,
  ltb, not, if◌then◌else◌, take, drop, length, length-drop, take-append-drop, Result, ok, err,
  ◌>>=◌, or_err, arith,
}
use ioswarm.Snapshot.Read.{SnapshotError, exhausted, number_of, read_full, read_uint}

-- A result that is right, or an error of the program's.
abbrev pub Runs : {A : Type 0} → (A → Type 0) → Result SnapshotError A → Type 0
Runs P (ok a) = P a
Runs P (err e) = e ≢ exhausted

pub Runs-bind :
    {A B : Type 0} (P : A → Type 0) (Q : B → Type 0) (r : Result SnapshotError A)
    (f : A → Result SnapshotError B)
    → Runs P r
    → ((a : A) → P a → Runs Q (f a))
    → Runs Q (r >>= f)
Runs-bind P Q (ok a) f h k = k a h
Runs-bind P Q (err e) f h k = h

pub or_err-Runs :
    {A : Type 0} (P : A → Type 0) (o : Option A) (e : SnapshotError)
    → e ≢ exhausted
    → ((a : A) → o ≡ some a → P a)
    → Runs P (or_err o e)
or_err-Runs P none e ne h = ne
or_err-Runs P (some a) e ne h = h a refl

tested_rest :
    (n : ℕ) (stream bs rest : Bytes) (short : Bool)
    → ltb (length stream) n ≡ short
    → Path
        (Option (Bytes × Bytes))
        (if short then none else some (take n stream, drop n stream))
        (some (bs, rest))
    → length rest + n ≡ length stream
tested_rest n stream bs rest true t e = cc
tested_rest n stream bs rest false t e =
    let same : drop n stream ≡ rest = ap (λ p. p.1) (Option.some_inj.0 e) in
    let enough : n ≤ length stream = ground arith in
    ap (λ r. length r + n) (sym same) ∙ omega (arith, length-drop n stream)

read_full_rest :
    (n : ℕ) (stream bs rest : Bytes)
    → read_full n stream ≡ some (bs, rest)
    → length rest + n ≡ length stream
unfolding read_full
read_full_rest n stream bs rest e = tested_rest n stream bs rest (ltb (length stream) n) refl e

mapped_rest :
    (found : Option (Bytes × Bytes)) (v : ℕ) (rest : Bytes)
    → Option.map number_of found ≡ some (v, rest)
    → (bs : Bytes) × (found ≡ some (bs, rest))
mapped_rest none v rest e = cc
mapped_rest (some (bs, rest')) v rest e =
    (bs, ap (λ r. some (bs, r)) (ap ((λ p. p.1)) (Option.some_inj.0 e)))

read_uint_rest :
    (n : ℕ) (stream : Bytes) (v : ℕ) (rest : Bytes)
    → read_uint n stream ≡ some (v, rest)
    → length rest + n ≡ length stream
unfolding read_uint
read_uint_rest n stream v rest e =
    let (bs, e') = mapped_rest (read_full n stream) v rest e in read_full_rest n stream bs rest e'

pub full_step :
    {B : Type 0} (Q : B → Type 0) (n : ℕ) (stream : Bytes) (e : SnapshotError)
    (f : Bytes × Bytes → Result SnapshotError B)
    → e ≢ exhausted
    → ((bs rest : Bytes)
        → read_full n stream ≡ some (bs, rest)
        → length rest + n ≡ length stream
        → Runs Q (f (bs, rest)))
    → Runs Q (or_err (read_full n stream) e >>= f)
full_step Q n stream e f ne h =
    Runs-bind (λ p. read_full n stream ≡ some p) Q (or_err (read_full n stream) e) f
      (or_err-Runs (λ p. read_full n stream ≡ some p) (read_full n stream) e ne (λ a same. same))
      (λ (bs, rest) same. h bs rest same (read_full_rest n stream bs rest same))

pub uint_step :
    {B : Type 0} (Q : B → Type 0) (n : ℕ) (stream : Bytes) (e : SnapshotError)
    (f : ℕ × Bytes → Result SnapshotError B)
    → e ≢ exhausted
    → ((v : ℕ) (rest : Bytes)
        → read_uint n stream ≡ some (v, rest)
        → length rest + n ≡ length stream
        → Runs Q (f (v, rest)))
    → Runs Q (or_err (read_uint n stream) e >>= f)
uint_step Q n stream e f ne h =
    Runs-bind (λ p. read_uint n stream ≡ some p) Q (or_err (read_uint n stream) e) f
      (or_err-Runs (λ p. read_uint n stream ≡ some p) (read_uint n stream) e ne (λ a same. same))
      (λ (v, rest) same. h v rest same (read_uint_rest n stream v rest same))

pub Runs-choice :
    {A : Type 0} (P : A → Type 0) (c : Bool) (r s : Result SnapshotError A)
    → Runs P r
    → Runs P s
    → Runs P (elim c [ true ↦ r | false ↦ s ])
Runs-choice P true r s h k = h
Runs-choice P false r s h k = k

-- `if !c { return err }`, then the rest.
pub Runs-guard :
    {A : Type 0} (P : A → Type 0) (c : Bool) (e : SnapshotError) (r : Result SnapshotError A)
    → e ≢ exhausted
    → (c ≡ true → Runs P r)
    → Runs P (if not c then err e else r)
Runs-guard P true e r ne h = h refl
Runs-guard P false e r ne h = ne

pub Runs-map :
    {A : Type 0} (P Q : A → Type 0) (r : Result SnapshotError A)
    → ((a : A) → P a → Q a)
    → Runs P r
    → Runs Q r
Runs-map P Q (ok a) f h = f a h
Runs-map P Q (err e) f h = h

-- A stream that is what some bytes leave of another.
abbrev pub IsSuffix : Bytes → Bytes → Type 0
IsSuffix rest stream = (front : Bytes) × (stream ≡ front ++ rest)

pub IsSuffix-refl : (stream : Bytes) → IsSuffix stream stream
IsSuffix-refl stream = ([], refl)

pub IsSuffix-trans : (a b c : Bytes) → IsSuffix a b → IsSuffix b c → IsSuffix a c
IsSuffix-trans a b c (f, e) (f', e') =
    (f' ++ f, e' ∙ ap (λ xs. f' ++ xs) e ∙ sym (append_assoc f' f a))

tested_suffix :
    (n : ℕ) (stream bs rest : Bytes) (short : Bool)
    → Path
        (Option (Bytes × Bytes))
        (if short then none else some (take n stream, drop n stream))
        (some (bs, rest))
    → IsSuffix rest stream
tested_suffix n stream bs rest true e = cc
tested_suffix n stream bs rest false e = (
  take n stream,
  sym (take-append-drop n stream)
      ∙ ap (λ r. take n stream ++ r) (ap (λ p. p.1) (Option.some_inj.0 e)),
)

pub read_full-IsSuffix :
    (n : ℕ) (stream bs rest : Bytes) → read_full n stream ≡ some (bs, rest) → IsSuffix rest stream
unfolding read_full
read_full-IsSuffix n stream bs rest e = tested_suffix n stream bs rest (ltb (length stream) n) e

pub read_uint-IsSuffix :
    (n : ℕ) (stream : Bytes) (v : ℕ) (rest : Bytes)
    → read_uint n stream ≡ some (v, rest)
    → IsSuffix rest stream
unfolding read_uint
read_uint-IsSuffix n stream v rest e =
    let (bs, e') = mapped_rest (read_full n stream) v rest e in
    read_full-IsSuffix n stream bs rest e'
