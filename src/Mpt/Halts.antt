-- ===== src/Mpt/Halts.antt =====
-- When the loop of `trieGet` ends, and what it then returns.
use ioswarm.Common.{
  ℕ, zero, suc, ◌+◌, ◌-◌, ◌≤◌, ◌<◌, ◌≡◌, ◌≢◌, ◌↔◌, refl, sym, ap, ◌∙◌, Option, none, some, [], ◌∷◌,
  arith, Bytes, false, ltb, bytes_eq, bytes_eq_iff, get_elem?, take, drop, length, Result, ok, err,
  wrap_err, Option-cases, Result-cases, Bool-cases, inl, inr,
}
use Prim.Native.Nat.add
use ioswarm.Errors.{Error, out_of_fuel}
use ioswarm.Wire.{Protowire}
use ioswarm.Mpt.Node.{MptExtNode, Node, branch, extension, leaf}
use ioswarm.Mpt.Walk.{StoreGet, ns_contract, empty_trie_root, visit, load_node, trie_loop, trie_get}
use ioswarm.Mpt.Decode.{decode_node_pb}
use ioswarm.Mpt.Leads.{Leads, trie_loop-Reads, Leads→trie_loop, branch_fits, extension_visit}

forward : (offset : ℕ) (path : Bytes) → path ≢ [] → offset < offset + length path
forward offset [] h = absurd (h refl)
forward offset (x ∷ path) h = omega arith

within : (a b : ℕ) → ltb a b ≡ false → b ≤ a
within a b h = ground arith

same_error : {A : Type 0} (e e' : Error) → Path (Result Error A) (err e) (err e') → e ≡ e'
same_error e e' q = cc

module _ (w : Protowire) (get : StoreGet) where
  -- No extension node that the store holds has an empty path.
  abbrev pub HasNoEmptyPath : Type 0
  HasNoEmptyPath = (h : Bytes) (x : MptExtNode) → load_node w get h ≡ ok (extension x) → x.path ≢ []

  wrapped_ends :
      {A : Type 0} (r : Result Error A) (f : Error → Error)
      → ((e : Error) → f e ≢ out_of_fuel)
      → wrap_err f r ≢ err out_of_fuel
  wrapped_ends (ok a) f h = λ q. cc
  wrapped_ends (err e) f h = λ q. h e (ground arith)

  load_node_ends : (h : Bytes) → load_node w get h ≢ err out_of_fuel
  unfolding load_node
  load_node_ends h = elim (Result-cases (get ns_contract h)) [
    | inl (none, e) ↦ rw e (λ q. cc)
    | inl (some stored, e) ↦ rw e (wrapped_ends (decode_node_pb w stored) _ (λ x q. cc))
    | inr (x, e) ↦ rw e (λ q. cc)
  ]

  visit_ends :
      (continue_at : Bytes → ℕ → Result Error (Option Bytes)) (h : Bytes) (offset : ℕ) (key : Bytes)
      (node : Node)
      → load_node w get h ≡ ok node
      → HasNoEmptyPath
      → ((child : Bytes) (offset' : ℕ)
          → offset < offset'
          → offset' ≤ length key
          → continue_at child offset' ≢ err out_of_fuel)
      → visit continue_at offset key node ≢ err out_of_fuel
  unfolding visit
  visit_ends continue_at h offset key (branch children) e p next =
      elim (Option-cases (get_elem? key offset)) [
        | inl none_there ↦ rw none_there (λ q. cc)
        | inr (c, at) ↦ rw at (elim (Option-cases (children c)) [
          | inl no_child ↦ rw no_child (λ q. cc)
          | inr (child, found) ↦
              rw found (next child (offset + 1) (omega arith) (branch_fits w get key offset c at))
        ])
      ]
  visit_ends continue_at h offset key (extension x) e p next =
      elim (Bool-cases (ltb (length key) (offset + length x.path))) [
        | inl short ↦ rw short (λ q. cc)
        | inr long ↦
            rw long (elim (Bool-cases (bytes_eq x.path (take (length x.path) (drop offset key)))) [
              | inl same ↦ rw same (
                  next x.child_hash (offset + length x.path) (forward offset x.path (p h x e))
                    (within (length key) (offset + length x.path) long))
              | inr other ↦ rw other (λ q. cc)
            ])
      ]
  visit_ends continue_at h offset key (leaf l) e p next = ground arith

  -- Each round but the last goes down the key by a byte at least.
  pub trie_loop_ends :
      HasNoEmptyPath
      → (fuel : ℕ) (h : Bytes) (offset : ℕ) (key : Bytes) → length key - offset < fuel
      → trie_loop w get fuel h offset key ≢ err out_of_fuel
  unfolding trie_loop
  trie_loop_ends p zero h offset key le = absurd (omega arith)
  trie_loop_ends p (suc fuel) h offset key le = elim (Result-cases (load_node w get h)) [
    | inl (node, e) ↦ rw e (
        visit_ends _ h offset key node e p
          (λ child offset' lo hi. trie_loop_ends p fuel child offset' key (omega arith)))
    | inr (x, e) ↦ rw e (λ q. load_node_ends h (e ∙ ap err (same_error x out_of_fuel q)))
  ]

  -- A run that ends is the same with more fuel.
  visit_more :
      (f g : Bytes → ℕ → Result Error (Option Bytes)) (offset : ℕ) (key : Bytes) (node : Node)
      → ((child : Bytes) (offset' : ℕ)
          → f child offset' ≢ err out_of_fuel
          → g child offset' ≡ f child offset')
      → visit f offset key node ≢ err out_of_fuel
      → visit g offset key node ≡ visit f offset key node
  unfolding visit
  visit_more f g offset key (branch children) same ends =
      elim (Option-cases (get_elem? key offset)) [
        | inl none_there ↦ rw none_there
        | inr (c, at) ↦ rw at (elim (Option-cases (children c)) [
          | inl no_child ↦ rw no_child
          | inr (child, found) ↦ rw found (same child (offset + 1) (rw (at, found) at ends))
        ])
      ]
  visit_more f g offset key (extension x) same ends =
      elim (Bool-cases (ltb (length key) (offset + length x.path))) [
        | inl short ↦ rw short
        | inr long ↦
            rw long (elim (Bool-cases (bytes_eq x.path (take (length x.path) (drop offset key)))) [
              | inl equal ↦
                  rw equal (same x.child_hash (offset + length x.path) (rw (long, equal) at ends))
              | inr other ↦ rw other
            ])
      ]
  visit_more f g offset key (leaf l) same ends = refl

  pub trie_loop_more :
      (fuel k : ℕ) (h : Bytes) (offset : ℕ) (key : Bytes)
      → trie_loop w get fuel h offset key ≢ err out_of_fuel
      → trie_loop w get (fuel + k) h offset key ≡ trie_loop w get fuel h offset key
  unfolding trie_loop
  trie_loop_more zero k h offset key ends = absurd (ends refl)
  trie_loop_more (suc fuel) k h offset key ends =
      rw (add.suc fuel k) (elim (Result-cases (load_node w get h)) [
        | inl (node, e) ↦ rw e (
            visit_more _ _ offset key node
              (λ child offset' fin. trie_loop_more fuel k child offset' key fin) (rw e at ends))
        | inr (x, e) ↦ rw e
      ])

  -- The root's own test, which the loop does not repeat.
  abbrev pub IsRoot : Bytes → Type 0
  IsRoot root = (length root ≢ 0) × (root ≢ empty_trie_root)

  pub trie_get-root :
      (fuel : ℕ) (root key : Bytes)
      → IsRoot root
      → trie_get w get fuel root key ≡ trie_loop w get fuel root 0 key
  unfolding trie_get
  trie_get-root fuel root key (some_bytes, not_empty) =
      ground (arith, bytes_eq_iff root empty_trie_root)

  -- Let no extension that the store holds have an empty path, let the root be neither empty nor
  -- the empty trie's, and let the fuel exceed the key's length. Then the walk does not run out
  -- of fuel, and it returns a value exactly where the nodes lead from the root by the key to
  -- that value.
  pub trie_get_finds :
      (root key : Bytes) (value : Option Bytes) (fuel : ℕ)
      → HasNoEmptyPath
      → IsRoot root
      → length key < fuel
      → (trie_get w get fuel root key ≢ err out_of_fuel)
        × ((trie_get w get fuel root key ≡ ok value) ↔ Leads w get root 0 key value)
  trie_get_finds root key value fuel p is_root enough =
      rw (trie_get-root fuel root key is_root) (ends, (finds, found))
    where
      ends : trie_loop w get fuel root 0 key ≢ err out_of_fuel
      ends = trie_loop_ends p fuel root 0 key (omega arith)

      finds : trie_loop w get fuel root 0 key ≡ ok value → Leads w get root 0 key value
      finds e = rw e at (trie_loop-Reads w get fuel root 0 key)

      found : Leads w get root 0 key value → trie_loop w get fuel root 0 key ≡ ok value
      found path =
          let (n, run) = Leads→trie_loop w get key path (omega arith) refl in
          sym (trie_loop_more fuel n root 0 key ends)
          ∙ ap (λ (k : ℕ). trie_loop w get k root 0 key) (omega arith)
          ∙ run fuel

  self_loop :
      (fuel : ℕ) (root key : Bytes) (x : MptExtNode)
      → load_node w get root ≡ ok (extension x)
      → x.path ≡ []
      → x.child_hash ≡ root
      → trie_loop w get fuel root 0 key ≡ err out_of_fuel
  unfolding trie_loop
  self_loop zero root key x e empty_path self = refl
  self_loop (suc fuel) root key x e empty_path self =
      let round = λ (child : Bytes) (offset' : ℕ). trie_loop w get fuel child offset' key in
      rw e (
        extension_visit w get round key 0 x key (omega arith) (rw empty_path)
        ∙ rw (self, empty_path) (self_loop fuel root key x e empty_path self))

  -- If the root is neither empty nor the empty trie's, and names an extension with an empty path
  -- that is its own child, then the walk runs out of whatever fuel it is given, for every key.
  pub trie_get_diverges :
      (root key : Bytes) (x : MptExtNode)
      → IsRoot root
      → load_node w get root ≡ ok (extension x)
      → x.path ≡ []
      → x.child_hash ≡ root
      → (fuel : ℕ) → trie_get w get fuel root key ≡ err out_of_fuel
  trie_get_diverges root key x is_root e empty_path self fuel =
      trie_get-root fuel root key is_root ∙ self_loop fuel root key x e empty_path self
