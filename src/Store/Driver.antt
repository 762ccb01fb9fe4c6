-- ===== src/Store/Driver.antt =====
-- go.etcd.io/bbolt as a record of functions, and what its documentation says of them. A value of
-- `Db` is the content of the database, also as a transaction sees it.
use ioswarm.Common.{
  ◌≡◌, ◌⊎◌, Option, none, some, Bytes, Bool, true, ◌&&◌, bytes_eq, if◌then◌else◌, Result, ok,
}
use ioswarm.Errors.{Error}

pub record Bolt : Type 1 where
  pub Db : Type 0
  -- tx.Bucket(ns) != nil
  pub has_bucket : Db → Bytes → Bool
  -- tx.CreateBucketIfNotExists(ns)
  pub create_bucket_if_not_exists : Db → Bytes → Result Error Db
  -- tx.Bucket(ns).Get(key), of a bucket that exists
  pub bucket_get : Db → Bytes → Bytes → Option Bytes
  -- tx.Bucket(ns).Put(key, value) and tx.Bucket(ns).Delete(key)
  pub bucket_put : Db → Bytes → Bytes → Bytes → Result Error Db
  pub bucket_delete : Db → Bytes → Bytes → Result Error Db
  -- db.Update(fn): the error, or none, and the database behind it
  pub update : Db → (Db → Result Error Db) → Option Error × Db
  -- the error of db.View itself, as of a closed database
  pub view_error : Db → Option Error

-- A key of a bucket.
abbrev pub same_key : Bytes → Bytes → Bytes → Bytes → Bool
same_key ns key ns' key' = bytes_eq ns' ns && bytes_eq key' key

pub record IsBolt (b : Bolt) : Type 0 where
  -- Update commits what fn returns, or reports an error and rolls all of it back.
  pub update_law :
      (d : b.Db) (fn : b.Db → Result Error b.Db)
      → ((d' : b.Db) × (fn d ≡ ok d') × (b.update d fn ≡ (none, d')))
        ⊎ ((e : Error) × (b.update d fn ≡ (some e, d)))
  pub create_has :
      (d d' : b.Db) (ns : Bytes)
      → b.create_bucket_if_not_exists d ns ≡ ok d'
      → b.has_bucket d' ns ≡ true
  pub create_keeps_bucket :
      (d d' : b.Db) (ns ns' : Bytes)
      → b.create_bucket_if_not_exists d ns ≡ ok d'
      → b.has_bucket d ns' ≡ true
      → b.has_bucket d' ns' ≡ true
  pub create_get :
      (d d' : b.Db) (ns ns' key : Bytes)
      → b.create_bucket_if_not_exists d ns ≡ ok d'
      → b.bucket_get d' ns' key ≡ b.bucket_get d ns' key
  pub put_get :
      (d d' : b.Db) (ns key value ns' key' : Bytes)
      → b.bucket_put d ns key value ≡ ok d'
      → b.bucket_get d' ns' key'
        ≡ (if same_key ns key ns' key' then some value else b.bucket_get d ns' key')
  pub put_has :
      (d d' : b.Db) (ns key value ns' : Bytes)
      → b.bucket_put d ns key value ≡ ok d'
      → b.has_bucket d' ns' ≡ b.has_bucket d ns'
  pub delete_get :
      (d d' : b.Db) (ns key ns' key' : Bytes)
      → b.bucket_delete d ns key ≡ ok d'
      → b.bucket_get d' ns' key'
        ≡ (if same_key ns key ns' key' then none else b.bucket_get d ns' key')
  pub delete_has :
      (d d' : b.Db) (ns key ns' : Bytes)
      → b.bucket_delete d ns key ≡ ok d'
      → b.has_bucket d' ns' ≡ b.has_bucket d ns'
