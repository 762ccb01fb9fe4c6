-- ===== src/Store/Steps.antt =====
-- Steps that may fail, and what holds behind them.
use mathlib.Core.Path.{subst}
use ioswarm.Common.{◌≡◌, refl, Bool, true, false, if◌then◌else◌, Result, ok, err, ◌>>=◌, wrap_err}
use ioswarm.Errors.{Error}

-- What holds of the result of a step that may fail.
abbrev pub OnOk : {A : Type 0} → (A → Type 0) → Result Error A → Type 0
OnOk P (ok a) = P a
OnOk P (err e) = Unit {0}

pub OnOk-intro :
    {A : Type 0} (P : A → Type 0) (r : Result Error A) → ((a : A) → r ≡ ok a → P a) → OnOk P r
OnOk-intro P (ok a) h = h a refl
OnOk-intro P (err e) h = tt

pub OnOk-wrap :
    {A : Type 0} (P : A → Type 0) (f : Error → Error) (r : Result Error A)
    → OnOk P r
    → OnOk P (wrap_err f r)
OnOk-wrap P f (ok a) h = h
OnOk-wrap P f (err e) h = tt

pub OnOk-bind :
    {A B : Type 0} (P : A → Type 0) (Q : B → Type 0) (r : Result Error A) (f : A → Result Error B)
    → OnOk P r
    → ((a : A) → P a → OnOk Q (f a))
    → OnOk Q (r >>= f)
OnOk-bind P Q (ok a) f h k = k a h
OnOk-bind P Q (err e) f h k = tt

pub OnOk-if :
    {A : Type 0} (P : A → Type 0) (c : Bool) (r s : Result Error A)
    → (c ≡ true → OnOk P r)
    → (c ≡ false → OnOk P s)
    → OnOk P (if c then r else s)
OnOk-if P true r s h k = h refl
OnOk-if P false r s h k = k refl

pub OnOk_elim :
    {A : Type 0} (P : A → Type 0) (r : Result Error A) (a : A) → OnOk P r → r ≡ ok a → P a
OnOk_elim P (ok x) a h e = subst P (cc) h
OnOk_elim P (err x) a h e = cc
