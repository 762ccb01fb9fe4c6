-- ===== src/StateDb/Revert.antt =====
-- Snapshots of MemStateDB, and what a revert brings back.
use mathlib.Core.Path.{subst⁻¹}
use mathlib.Core.List.{append_assoc}
use ioswarm.Common.{
  ◌≡◌, refl, ap, ◌∙◌, Option, some, List, [], ◌∷◌, ◌++◌, get_elem?, take, length, take-append_self,
}
use ioswarm.Common.Int.{pos}
use ioswarm.StateDb.State.{SnapshotEntry, MemStateDb}
use ioswarm.StateDb.Snapshots.{entry_of, snapshot, restore_found, revert_to_snapshot}

get_elem?-middle {ℓ} :
    {A : Type ℓ} (xs : List A) (x : A) (ys : List A) → get_elem? (xs ++ x ∷ ys) (length xs) ≡ some x
get_elem?-middle [] x ys = refl
get_elem?-middle (y ∷ xs) x ys = get_elem?-middle xs x ys

-- The fields that a snapshot keeps, and the older snapshots, with the log index of the later state.
abbrev pub IsReverted : MemStateDb → MemStateDb → MemStateDb → Type 0
IsReverted s later back =
    (entry_of back ≡ entry_of s)
    × (back.snapshots ≡ s.snapshots)
    × (back.log_index ≡ later.log_index)

restore_found_reverts :
    (s later : MemStateDb) (found : Option SnapshotEntry)
    → found ≡ some (entry_of s)
    → take (length s.snapshots) later.snapshots ≡ s.snapshots
    → IsReverted s later (restore_found later (length s.snapshots) found)
unfolding restore_found
restore_found_reverts s later found e t =
    subst⁻¹ (λ o. IsReverted s later (restore_found later (length s.snapshots) o)) e (refl, t, refl)

-- Let a later state still have the snapshots that a state had when it took one, with that one
-- and any others on top. Reverting it to that one gives the state's accounts, storage, changes,
-- logs, refund, access lists, transient storage and older snapshots, and leaves the later
-- state's log index.
pub revert_to_snapshot-snapshot :
    (s later : MemStateDb) (rest : List SnapshotEntry)
    → later.snapshots ≡ (snapshot s).1.snapshots ++ rest
    → IsReverted s later (revert_to_snapshot later (pos (snapshot s).0))
unfolding snapshot revert_to_snapshot
revert_to_snapshot-snapshot s later rest e =
    let split = e ∙ append_assoc s.snapshots (entry_of s ∷ []) rest in
    restore_found_reverts s later (get_elem? later.snapshots (length s.snapshots))
      (ap (λ xs. get_elem? xs (length s.snapshots)) split
        ∙ get_elem?-middle s.snapshots (entry_of s) rest)
      (ap (λ xs. take (length s.snapshots) xs) split
        ∙ take-append_self s.snapshots (entry_of s ∷ rest))
