-- ===== src/Mpt/Leads.antt =====
-- What `trieGet` looks for, with no loop and no offset arithmetic: a path of nodes that spells the
-- key and ends in a leaf.
use ioswarm.Common.{
  ℕ, zero, suc, ◌+◌, ◌≤◌, ◌<◌, ◌≡◌, refl, sym, ap, ◌∙◌, ◌||◌, Option, some, [], ◌∷◌, ◌++◌, arith,
  Bytes, Bool, true, false, ltb, bytes_eq, bytes_eq_iff, bytes_eq_refl, if◌then◌else◌, get_elem?,
  take, drop, length, length-append, length-drop, take-append-drop, take-append_self,
  drop-append_self, Map, Result, ok, err, Option-cases, Result-cases, inl, inr,
}
use Prim.Native.Nat.add
use ioswarm.Errors.{Error}
use ioswarm.Wire.{Protowire}
use ioswarm.Mpt.Node.{MptExtNode, MptLeafNode, Node, branch, extension, leaf}
use ioswarm.Mpt.Walk.{StoreGet, visit, load_node, trie_loop}

module _ (w : Protowire) (get : StoreGet) where
  -- `Leads h depth rest value`: from the node `h`, at `depth` bytes below the root, the bytes
  -- `rest` lead to a leaf with `value`. The leaf holds its whole key, of which the program reads
  -- what lies below the leaf.
  pub data Leads : Bytes → ℕ → Bytes → Option Bytes → Type 0 where
    at_leaf :
        {h : Bytes} {depth : ℕ} {rest : Bytes} {value : Option Bytes} (l : MptLeafNode)
        → load_node w get h ≡ ok (leaf l)
        → depth ≤ length l.key
        → drop depth l.key ≡ rest
        → l.value ≡ value
        → Leads h depth rest value
    by_branch :
        {h : Bytes} {depth : ℕ} {rest : Bytes} {value : Option Bytes} (children : Map Bytes) (c : ℕ)
        (child : Bytes) (below : Bytes)
        → load_node w get h ≡ ok (branch children)
        → rest ≡ c ∷ below
        → children c ≡ some child
        → Leads child (depth + 1) below value
        → Leads h depth rest value
    by_extension :
        {h : Bytes} {depth : ℕ} {rest : Bytes} {value : Option Bytes} (x : MptExtNode)
        (below : Bytes)
        → load_node w get h ≡ ok (extension x)
        → rest ≡ x.path ++ below
        → Leads x.child_hash (depth + length x.path) below value
        → Leads h depth rest value

drop_at :
    (key : Bytes) (offset : ℕ) (c : ℕ)
    → get_elem? key offset ≡ some c
    → drop offset key ≡ c ∷ drop (offset + 1) key
drop_at [] offset c e = cc
drop_at (x ∷ xs) zero c e = ground arith
drop_at (x ∷ xs) (suc offset) c e = rw (add.suc offset 1) (drop_at xs offset c e)

get_elem?-lt :
    (key : Bytes) (offset : ℕ) (c : ℕ) → get_elem? key offset ≡ some c → offset < length key
get_elem?-lt [] offset c e = cc
get_elem?-lt (x ∷ xs) zero c e = omega arith
get_elem?-lt (x ∷ xs) (suc offset) c e = omega (arith, get_elem?-lt xs offset c e)

get_elem?-drop :
    (key : Bytes) (offset : ℕ) (c : ℕ) (below : Bytes)
    → drop offset key ≡ c ∷ below
    → get_elem? key offset ≡ some c
get_elem?-drop [] zero c below e = cc
get_elem?-drop [] (suc offset) c below e = cc
get_elem?-drop (x ∷ xs) zero c below e = cc
get_elem?-drop (x ∷ xs) (suc offset) c below e = get_elem?-drop xs offset c below e

drop-drop : (key : Bytes) (i n : ℕ) → drop n (drop i key) ≡ drop (i + n) key
drop-drop key zero n = rw (add.zero n)
drop-drop [] (suc i) zero = rw (add.suc i zero)
drop-drop [] (suc i) (suc n) = rw (add.suc i (suc n))
drop-drop (x ∷ xs) (suc i) n = rw (add.suc i n) (drop-drop xs i n)

cons_injective : (c d : ℕ) (xs ys : Bytes) → c ∷ xs ≡ d ∷ ys → xs ≡ ys
cons_injective c d xs ys e = cc

module _ (w : Protowire) (get : StoreGet) where
  -- What a result of the loop from a node means.
  abbrev pub Reads : Bytes → ℕ → Bytes → Result Error (Option Bytes) → Type 0
  Reads h offset key (ok value) = Leads w get h offset (drop offset key) value
  Reads h offset key (err e) = Unit {0}

  branch-Reads :
      (h : Bytes) (offset : ℕ) (key : Bytes) (children : Map Bytes) (c : ℕ) (child : Bytes)
      → load_node w get h ≡ ok (branch children)
      → get_elem? key offset ≡ some c
      → children c ≡ some child
      → (r : Result Error (Option Bytes)) → Reads child (offset + 1) key r
      → Reads h offset key r
  branch-Reads h offset key children c child e at found (ok value) below =
      by_branch children c child (drop (offset + 1) key) e (drop_at key offset c at) found below
  branch-Reads h offset key children c child e at found (err x) below = tt

  extension-Reads :
      (h : Bytes) (offset : ℕ) (key : Bytes) (x : MptExtNode)
      → load_node w get h ≡ ok (extension x)
      → x.path ≡ take (length x.path) (drop offset key)
      → (r : Result Error (Option Bytes)) → Reads x.child_hash (offset + length x.path) key r
      → Reads h offset key r
  extension-Reads h offset key x e same (ok value) below =
      by_extension x (drop (offset + length x.path) key) e
        (sym (take-append-drop (length x.path) (drop offset key))
          ∙ ap (λ (p : Bytes). p ++ drop (length x.path) (drop offset key)) (sym same)
          ∙ ap (λ (p : Bytes). x.path ++ p) (drop-drop key offset (length x.path)))
        below
  extension-Reads h offset key x e same (err y) below = tt

  if-Reads :
      (h : Bytes) (offset : ℕ) (key : Bytes) (b : Bool) (r s : Result Error (Option Bytes))
      → (b ≡ true → Reads h offset key r)
      → (b ≡ false → Reads h offset key s)
      → Reads h offset key (if b then r else s)
  if-Reads h offset key true r s yes_case no_case = yes_case refl
  if-Reads h offset key false r s yes_case no_case = no_case refl

  visit-Reads :
      (continue_at : Bytes → ℕ → Result Error (Option Bytes)) (h : Bytes) (offset : ℕ) (key : Bytes)
      (node : Node)
      → ((child : Bytes) (offset' : ℕ) → Reads child offset' key (continue_at child offset'))
      → load_node w get h ≡ ok node
      → Reads h offset key (visit continue_at offset key node)
  unfolding visit
  visit-Reads continue_at h offset key (branch children) next e =
      elim (Option-cases (get_elem? key offset)) [
        | inl none_there ↦ rw none_there tt
        | inr (c, at) ↦ rw at (elim (Option-cases (children c)) [
          | inl no_child ↦ rw no_child tt
          | inr (child, found) ↦
              rw found
                (branch-Reads h offset key children c child e at found _ (next child (offset + 1)))
        ])
      ]
  visit-Reads continue_at h offset key (extension x) next e =
      if-Reads h offset key (ltb (length key) (offset + length x.path)) _ _ (λ _. tt)
        (λ _.
          if-Reads h offset key (bytes_eq x.path (take (length x.path) (drop offset key))) _ _
            (λ same.
              extension-Reads h offset key x e ((bytes_eq_iff _ _).0 same) _
                (next x.child_hash (offset + length x.path)))
            (λ _. tt))
  visit-Reads continue_at h offset key (leaf l) next e =
      if-Reads h offset key (ltb (length l.key) offset || ltb (length key) offset) _ _ (λ _. tt)
        (λ inside.
          if-Reads h offset key (bytes_eq (drop offset l.key) (drop offset key)) _ _
            (λ same. at_leaf l e (ground arith) ((bytes_eq_iff _ _).0 same) refl) (λ _. tt))

  -- Whatever the loop returns, a path of nodes leads there.
  pub trie_loop-Reads :
      (fuel : ℕ) (h : Bytes) (offset : ℕ) (key : Bytes)
      → Reads h offset key (trie_loop w get fuel h offset key)
  unfolding trie_loop
  trie_loop-Reads zero h offset key = tt
  trie_loop-Reads (suc fuel) h offset key = elim (Result-cases (load_node w get h)) [
    | inl (node, e) ↦ rw e (
        visit-Reads (λ child offset'. trie_loop w get fuel child offset' key) h offset key node
          (λ child offset'. trie_loop-Reads fuel child offset' key) e)
    | inr (x, e) ↦ rw e tt
  ]

  pub branch_fits :
      (key : Bytes) (offset : ℕ) (c : ℕ) → get_elem? key offset ≡ some c → offset + 1 ≤ length key
  branch_fits key offset c e = omega (arith, get_elem?-lt key offset c e)

  extension_fits :
      (key path below : Bytes) (offset : ℕ)
      → offset ≤ length key
      → drop offset key ≡ path ++ below
      → offset + length path ≤ length key
  extension_fits key path below offset le e =
      omega (arith, ap length e, length-drop offset key, length-append path below)

  not_beyond : (a b : ℕ) → b ≤ a → ltb a b ≡ false
  not_beyond a b h = ground arith

  pub extension_visit :
      (continue_at : Bytes → ℕ → Result Error (Option Bytes)) (key : Bytes) (offset : ℕ)
      (x : MptExtNode) (below : Bytes)
      → offset ≤ length key
      → drop offset key ≡ x.path ++ below
      → visit continue_at offset key (extension x)
        ≡ continue_at x.child_hash (offset + length x.path)
  unfolding visit
  extension_visit continue_at key offset x below le e = rw (
    not_beyond (length key) _ (extension_fits key x.path below offset le e),
    e,
    take-append_self x.path below,
    bytes_eq_refl x.path,
  )

  leaf_visit :
      (continue_at : Bytes → ℕ → Result Error (Option Bytes)) (key : Bytes) (offset : ℕ)
      (l : MptLeafNode)
      → offset ≤ length key
      → offset ≤ length l.key
      → drop offset l.key ≡ drop offset key
      → visit continue_at offset key (leaf l) ≡ ok l.value
  unfolding visit
  leaf_visit continue_at key offset l le deep same = rw (
    not_beyond (length l.key) offset deep,
    not_beyond (length key) offset le,
    same,
    bytes_eq_refl (drop offset key),
  )

  branch_visit :
      (continue_at : Bytes → ℕ → Result Error (Option Bytes)) (key : Bytes) (offset : ℕ)
      (children : Map Bytes) (c : ℕ) (child : Bytes)
      → get_elem? key offset ≡ some c
      → children c ≡ some child
      → visit continue_at offset key (branch children) ≡ continue_at child (offset + 1)
  unfolding visit
  branch_visit continue_at key offset children c child at found = rw (at, found)

  -- From a path of nodes to a run of the loop, with any fuel beyond some number.
  pub Leads→trie_loop :
      {h : Bytes} {offset : ℕ} {rest : Bytes} {value : Option Bytes} (key : Bytes)
      → Leads w get h offset rest value
      → offset ≤ length key
      → drop offset key ≡ rest
      → (n : ℕ) × ((k : ℕ) → trie_loop w get (n + k) h offset key ≡ ok value)
  unfolding trie_loop
  Leads→trie_loop key (at_leaf {depth = off} l e deep same v) le spelt =
      let round = λ (f : ℕ) (child : Bytes) (offset' : ℕ). trie_loop w get f child offset' key in
      (
        1,
        λ k.
            rw (add.suc zero k, e)
              (leaf_visit (round (zero + k)) key off l le deep (same ∙ sym spelt) ∙ ap ok v),
      )
  Leads→trie_loop key (by_branch {depth = off} children c child below e spell found r) le spelt =
      let round = λ (f : ℕ) (child : Bytes) (offset' : ℕ). trie_loop w get f child offset' key in
      let at = get_elem?-drop key off c below (spelt ∙ spell) in
      let (n, run) =
        Leads→trie_loop key r (branch_fits key off c at)
          (cons_injective c c _ below (sym (drop_at key off c at) ∙ spelt ∙ spell)) in
      (
        suc n,
        λ k.
            rw (add.suc n k, e)
              (branch_visit (round (n + k)) key off children c child at found ∙ run k),
      )
  Leads→trie_loop key (by_extension {depth = off} x below e spell r) le spelt =
      let round = λ (f : ℕ) (child : Bytes) (offset' : ℕ). trie_loop w get f child offset' key in
      let (n, run) =
        Leads→trie_loop key r (extension_fits key x.path below off le (spelt ∙ spell)) (
          sym (drop-drop key off (length x.path))
          ∙ rw (spelt ∙ spell) (drop-append_self x.path below)) in
      (
        suc n,
        λ k.
            rw (add.suc n k, e)
              (extension_visit (round (n + k)) key off x below le (spelt ∙ spell) ∙ run k),
      )
