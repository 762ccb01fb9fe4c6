-- ===== src/Store/Defs.antt =====
-- StateStore: opening, applying a diff, and reading by namespace and key.
use ioswarm.Common.{
  ℕ, Option, none, some, List, [], ◌∷◌, Bytes, codes, ◌==◌, if◌then◌else◌, length, Result, ok, err,
  ◌>>=◌, wrap_err,
}
use ioswarm.Common.BigEndian.{to_bytes, of_bytes}
use ioswarm.Errors.{Error, create_bucket, nil_bucket, open_bolt, init_buckets}
use ioswarm.Mpt.{ns_contract}
use ioswarm.Store.Driver.{Bolt}

abbrev pub ns_account : Bytes
ns_account = codes "Account"

abbrev pub ns_code : Bytes
ns_code = codes "Code"

abbrev pub ns_meta : Bytes
ns_meta = codes "_meta"

abbrev pub meta_height : Bytes
meta_height = codes "height"

abbrev pub write_type_put : ℕ
write_type_put = 0

abbrev pub write_type_delete : ℕ
write_type_delete = 1

-- types.go
pub record StateDiffEntry : Type 0 where
  pub write_type : ℕ
  pub namespace : Bytes
  pub key : Bytes
  pub value : Bytes

-- The database and the height in memory. (The logger keeps no state.)
pub record StateStore (b : Bolt) : Type 0 where
  pub db : b.Db
  pub height : ℕ

module _ (b : Bolt) where
  unfoldable pub create_buckets : List Bytes → b.Db → Result Error b.Db
  create_buckets [] d = ok d
  create_buckets (ns ∷ rest) d = b.create_bucket_if_not_exists d ns >>= create_buckets rest

  unfoldable pub load_height : b.Db → ℕ
  load_height d = elim (b.bucket_get d ns_meta meta_height) [
    | none ↦ 0
    | some v ↦ if length v == 8 then of_bytes v else 0
  ]

  -- Behind the first transaction: an error, or a store with the height that was read.
  unfoldable pub opened_store : Option Error × b.Db → Result Error (StateStore b)
  unfolding load_height
  opened_store (some e, d) = err (init_buckets e)
  opened_store (none, d) = ok (record { db = d; height = load_height d })

  -- `opened` is what bolt.Open answers.
  unfoldable pub open_state_store : Result Error b.Db → Result Error (StateStore b)
  unfolding create_buckets opened_store
  open_state_store opened = do
    d ← wrap_err open_bolt opened
    opened_store (b.update d (create_buckets (ns_account ∷ ns_code ∷ ns_contract ∷ ns_meta ∷ [])))

  unfoldable pub ensure_bucket : b.Db → Bytes → Result Error b.Db
  ensure_bucket d ns =
      if b.has_bucket d ns
      then ok d
      else wrap_err (create_bucket ns) (b.create_bucket_if_not_exists d ns)

  unfoldable pub apply_entry : b.Db → StateDiffEntry → Result Error b.Db
  unfolding ensure_bucket
  apply_entry d e = do
    d' ← ensure_bucket d e.namespace
    if e.write_type == write_type_put
        then b.bucket_put d' e.namespace e.key e.value
        else if e.write_type == write_type_delete
        then b.bucket_delete d' e.namespace e.key
        else ok d'

  unfoldable pub apply_entries : List StateDiffEntry → b.Db → Result Error b.Db
  unfolding apply_entry
  apply_entries [] d = ok d
  apply_entries (e ∷ entries) d = apply_entry d e >>= apply_entries entries

  -- Without the bucket, `tx.Bucket(…).Put` is a nil dereference.
  unfoldable pub write_height : ℕ → b.Db → Result Error b.Db
  write_height height d =
      if b.has_bucket d ns_meta
      then b.bucket_put d ns_meta meta_height (to_bytes 8 height)
      else err (nil_bucket ns_meta)

  -- The height in memory follows only a transaction that was committed.
  unfoldable pub store_height : StateStore b → ℕ → Option Error × b.Db → Option Error × StateStore b
  store_height s height (some e, d) = (some e, record { db = d; height = s.height })
  store_height s height (none, d) = (none, record { db = d; height = height })

  unfoldable pub apply_diff : StateStore b → ℕ → List StateDiffEntry → Option Error × StateStore b
  unfolding apply_entries write_height store_height
  apply_diff s height entries =
      store_height s height (b.update s.db (λ d. apply_entries entries d >>= write_height height))

  unfoldable pub get : StateStore b → Bytes → Bytes → Result Error (Option Bytes)
  get s namespace key = elim (b.view_error s.db) [
    | some e ↦ err e
    | none ↦ ok (if b.has_bucket s.db namespace then b.bucket_get s.db namespace key else none)
  ]
