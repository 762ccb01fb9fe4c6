-- ===== src/Store/Memory.antt =====
-- A concrete database that meets what BoltDB documents: buckets and their content as functions. It
-- refuses an empty key, and never fails otherwise.
use ioswarm.Common.{
  ◌≡◌, refl, ap, ◌∙◌, ◌⊎◌, inl, inr, Option, none, some, Bytes, Bool, true, false, ◌||◌, ◌==◌,
  bytes_eq, bytes_eq_refl, if◌then◌else◌, length, Result, ok, err, Bool-cases, Result-cases,
}
use ioswarm.Errors.{Error, bolt}
use ioswarm.Store.Driver.{Bolt, IsBolt, same_key}

pub record Memory : Type 0 where
  pub buckets : Bytes → Bool
  pub content : Bytes → Bytes → Option Bytes

abbrev pub no_memory : Memory
no_memory = record { buckets = λ ns. false; content = λ ns key. none }

abbrev memory_put : Memory → Bytes → Bytes → Bytes → Result Error Memory
memory_put m ns key value =
    if length key == 0
    then err (bolt 1)
    else ok (record m {
      content = λ ns' key'. if same_key ns key ns' key' then some value else m.content ns' key';
    })

abbrev memory_delete : Memory → Bytes → Bytes → Result Error Memory
memory_delete m ns key = ok (record m {
  content = λ ns' key'. if same_key ns key ns' key' then none else m.content ns' key';
})

abbrev memory_update : Memory → (Memory → Result Error Memory) → Option Error × Memory
memory_update m fn = elim (fn m) [ ok m' ↦ (none, m') | err e ↦ (some e, m) ]

abbrev pub memory : Bolt
memory = record {
  Db = Memory;
  has_bucket = λ m ns. m.buckets ns;
  create_bucket_if_not_exists =
      λ m ns. ok (record m { buckets = λ ns'. bytes_eq ns' ns || m.buckets ns' });
  bucket_get = λ m ns key. m.content ns key;
  bucket_put = memory_put;
  bucket_delete = memory_delete;
  update = memory_update;
  view_error = λ m. none;
}

memory_update_law :
    (m : Memory) (fn : Memory → Result Error Memory)
    → ((m' : Memory) × (fn m ≡ ok m') × (memory_update m fn ≡ (none, m')))
      ⊎ ((e : Error) × (memory_update m fn ≡ (some e, m)))
memory_update_law m fn = elim (Result-cases (fn m)) [
  | inl (m', e) ↦ inl (m', e, rw (e, memory_update))
  | inr (x, e) ↦ inr (x, rw (e, memory_update))
]

same_memory : (x y : Memory) → Path (Result Error Memory) (ok x) (ok y) → y ≡ x
same_memory x y e = cc

no_memory_here : (x : Error) (y : Memory) → Path (Result Error Memory) (err x) (ok y) → ⊥
no_memory_here x y e = cc

memory_put_result :
    (d d' : Memory) (ns key value : Bytes)
    → memory_put d ns key value ≡ ok d'
    → d' ≡ record d {
      content = λ ns' key'. if same_key ns key ns' key' then some value else d.content ns' key';
    }
memory_put_result d d' ns key value e = elim (Bool-cases (length key == 0)) [
  | inl refused ↦ absurd (no_memory_here _ d' (rw refused at e))
  | inr put ↦ same_memory _ d' (rw put at e)
]

true-or : (c : Bool) (d : Bool) → d ≡ true → (c || d) ≡ true
true-or true d h = refl
true-or false d h = h

pub memory-IsBolt : IsBolt memory
memory-IsBolt = record {
  update_law = memory_update_law;
  create_has =
      λ d d' ns e. ap (λ (m : Memory). m.buckets ns) (same_memory _ d' e) ∙ rw (bytes_eq_refl ns);
  create_keeps_bucket = λ d d' ns ns' e h.
      ap (λ (m : Memory). m.buckets ns') (same_memory _ d' e)
      ∙ true-or (bytes_eq ns' ns) (d.buckets ns') h;
  create_get = λ d d' ns ns' key e. ap (λ (m : Memory). m.content ns' key) (same_memory _ d' e);
  put_get = λ d d' ns key value ns' key' e.
      ap (λ (m : Memory). m.content ns' key') (memory_put_result d d' ns key value e);
  put_has = λ d d' ns key value ns' e.
      ap (λ (m : Memory). m.buckets ns') (memory_put_result d d' ns key value e);
  delete_get =
      λ d d' ns key ns' key' e. ap (λ (m : Memory). m.content ns' key') (same_memory _ d' e);
  delete_has = λ d d' ns key ns' e. ap (λ (m : Memory). m.buckets ns') (same_memory _ d' e);
}
