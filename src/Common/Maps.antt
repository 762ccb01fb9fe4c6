-- ===== src/Common/Maps.antt =====
-- Go maps with numbers for keys, as functions into `Option`: `none` is an absent key.
use Prim.Native.Nat.{ℕ}
use mathlib.Core.Option.{Option, none, some}
use ioswarm.Common.Tests.{◌==◌, if◌then◌else◌}

abbrev pub Map {ℓ} : Type ℓ → Type ℓ
Map V = ℕ → Option V

module _ {ℓ} {V : Type ℓ} where
  abbrev pub empty : Map V
  empty k = none

  -- `m[k] = v`
  abbrev pub insert : ℕ → V → Map V → Map V
  insert k v m j = if j == k then some v else m j

  -- `m[k]`, which is the zero value `d` on an absent key.
  abbrev pub index_or : Option V → V → V
  index_or none d = d
  index_or (some v) d = v
