-- ===== src/StateDb/Changes.antt =====
-- GetStateChanges: one entry for each slot that was written, without those that end as they began.
use ioswarm.Common.{
  ℕ, zero, suc, Option, none, some, List, [], ◌∷◌, ◌++◌, Bytes, ◌&&◌, ◌==◌, bytes_eq, not,
  if◌then◌else◌, length,
}
use ioswarm.Types.{StateChange}
use ioswarm.StateDb.State.{Geth, StorageChange, MemStateDb}

-- `seen`: the place of a slot of an account in the result.
abbrev pub Seen : Type 0
Seen = ℕ → ℕ → Option ℕ

abbrev pub see : ℕ → ℕ → ℕ → Seen → Seen
see addr slot idx seen a k = if a == addr && k == slot then some idx else seen a k

-- `result[idx].NewValue = v`
unfoldable pub set_new_value : List StateChange → ℕ → Bytes → List StateChange
set_new_value [] idx v = []
set_new_value (c ∷ result) zero v = record c { new_value = v } ∷ result
set_new_value (c ∷ result) (suc idx) v = c ∷ set_new_value result idx v

-- The filter of the no-ops.
unfoldable pub without_no_ops : List StateChange → List StateChange
without_no_ops [] = []
without_no_ops (sc ∷ result) =
    let rest = without_no_ops result in
    if not (bytes_eq sc.old_value sc.new_value) then sc ∷ rest else rest

module _ (g : Geth) where
  abbrev pub state_change_of : StorageChange → StateChange
  state_change_of c = record {
    address = g.address_hex c.address;
    slot = g.hash_hex c.slot;
    old_value = g.hash_hex c.old_value;
    new_value = g.hash_hex c.new_value;
  }

  -- The loop over the changes.
  unfoldable pub merge_changes : List StorageChange → Seen → List StateChange → List StateChange
  unfolding set_new_value
  merge_changes [] seen result = result
  merge_changes (c ∷ changes) seen result = elim (seen c.address c.slot) [
    | some idx ↦ merge_changes changes seen (set_new_value result idx (g.hash_hex c.new_value))
    | none ↦
        merge_changes changes (see c.address c.slot (length result) seen)
          (result ++ state_change_of c ∷ [])
  ]

  unfoldable pub get_state_changes : MemStateDb → List StateChange
  unfolding merge_changes without_no_ops
  get_state_changes s = without_no_ops (merge_changes s.changes (λ _ _. none) [])
