-- ===== src/Settings.antt =====
-- internal/store/store.go: the settings, a key/value store over bbolt, which is the parameter
-- `Bolt`. What the operating system refuses of a transaction is the argument `Refusals`.
pub mod Config
pub mod Laws
use j.Prelude.{
  ◌≡◌, Bool, true, false, Text, codes, List, [], ◌∷◌, map, Option, none, some, Result, ok, err,
  Ordering, is_empty, text_eq, text_compare, sort, ◌&&◌, ◌||◌, not, if◌then◌else◌,
}

abbrev pub Kv : Type 0
Kv = Text × Text

unfoldable pub value_of : List Kv → Text → Option Text
value_of [] key = none
value_of ((k, v) ∷ kvs) key = if text_eq k key then some v else value_of kvs key

abbrev pub by_key : Kv → Kv → Ordering
by_key a b = text_compare a.0 b.0

-- The calls of bbolt on the contents of a database. `none` is a call that fails, in which case the
-- transaction is rolled back.
pub record Bolt : Type 1 where
  pub Db : Type 0
  pub bucket_names : Db → List Text  -- Tx.ForEach
  pub has_bucket : Text → Db → Bool
  pub pairs : Text → Db → List Kv  -- Bucket.ForEach
  pub get : Text → Text → Db → Option Text
  pub create_bucket : Text → Db → Option Db
  pub put_in : Text → Text → Text → Db → Option Db
  pub delete_in : Text → Text → Db → Option Db
  pub drop_bucket : Text → Db → Option Db
  -- CreateBucketIfNotExists leaves the keys that are there.
  pub get-create_bucket :
      (b : Text) (db db' : Db)
      → create_bucket b db ≡ some db'
      → (bucket key : Text) → get bucket key db' ≡ get bucket key db
  pub has_bucket-create_bucket :
      (b : Text) (db db' : Db)
      → create_bucket b db ≡ some db'
      → (bucket : Text) → has_bucket bucket db' ≡ (text_eq b bucket || has_bucket bucket db)
  pub has_bucket-put_in :
      (b k v : Text) (db db' : Db)
      → put_in b k v db ≡ some db'
      → (bucket : Text) → has_bucket bucket db' ≡ has_bucket bucket db
  -- Put sets the value of its key, and of no other.
  pub get-put_in :
      (b k v : Text) (db db' : Db)
      → put_in b k v db ≡ some db'
      → (bucket key : Text)
      → get bucket key db'
        ≡ (if text_eq b bucket && text_eq k key then some v else get bucket key db)
  -- ForEach walks over the pairs that Get finds.
  pub value_of-pairs : (b k : Text) (db : Db) → value_of (pairs b db) k ≡ get b k db

pub data BoltError : Type 0 where
  refused : BoltError

pub record Refusals : Type 0 where
  pub update : Bool
  pub view : Bool

abbrev pub no_refusals : Refusals
no_refusals = record { update = false; view = false }

module _ (bolt : Bolt) where
  open bolt use {Db}

  committed : Db → Option Db → Option BoltError × Db
  committed db none = (some refused, db)
  committed db (some db') = (none, db')

  -- DB.Update: a function that fails, and a commit that fails, leave the contents.
  updated : Refusals → Db → Option Db → Option BoltError × Db
  unfolding committed
  updated w db after = if w.update then (some refused, db) else committed db after

  unfoldable pub ensure_bucket : Refusals → Text → Db → Option BoltError × Db
  unfolding updated
  ensure_bucket w name db = updated w db (bolt.create_bucket name db)

  put_created : Text → Text → Text → Option Db → Option Db
  put_created bucket key value none = none
  put_created bucket key value (some db) = bolt.put_in bucket key value db

  unfoldable pub put : Refusals → Text → Text → Text → Db → Option BoltError × Db
  unfolding updated put_created
  put w bucket key value db =
      updated w db (put_created bucket key value (bolt.create_bucket bucket db))

  -- `ok none` where the bucket or the key does not exist.
  unfoldable pub get : Refusals → Text → Text → Db → Result BoltError (Option Text)
  get w bucket key db =
      if w.view
      then err refused
      else if bolt.has_bucket bucket db
      then ok (bolt.get bucket key db)
      else ok none

  unfoldable pub list : Refusals → Text → Db → Result BoltError (List Kv)
  list w bucket db =
      if w.view
      then err refused
      else if bolt.has_bucket bucket db
      then ok (sort by_key (bolt.pairs bucket db))
      else ok []

  unfoldable pub list_buckets : Refusals → Db → Result BoltError (List Text)
  list_buckets w db = if w.view then err refused else ok (sort text_compare (bolt.bucket_names db))

  deleted_in : Text → Text → Db → Option Text → Option Db
  deleted_in bucket key db none = some db
  deleted_in bucket key db (some v) = bolt.delete_in bucket key db

  unfoldable pub delete : Refusals → Text → Text → Db → Option BoltError × Db
  unfolding updated deleted_in
  delete w bucket key db = updated w db (
      if bolt.has_bucket bucket db
      then deleted_in bucket key db (bolt.get bucket key db)
      else some db)

  unfoldable pub delete_bucket : Refusals → Text → Db → Option BoltError × Db
  unfolding updated
  delete_bucket w name db =
      updated w db (if bolt.has_bucket name db then bolt.drop_bucket name db else some db)

  all_empty : Db → List Text → Bool
  all_empty db [] = true
  all_empty db (name ∷ names) = is_empty (bolt.pairs name db) && all_empty db names

  unfoldable pub is_empty_db : Refusals → Db → Result BoltError Bool
  unfolding all_empty
  is_empty_db w db = if w.view then err refused else ok (all_empty db (bolt.bucket_names db))

  went_through : Option BoltError × Db → Bool × Db
  went_through (some e, db) = (false, db)
  went_through (none, db) = (true, db)

  second_put : Refusals → Text → Text → Option BoltError × Db → Bool × Db
  unfolding went_through
  second_put w bucket model (some e, db) = (false, db)
  second_put w bucket model (none, db) = went_through (put w bucket (codes "model") model db)

  -- PersistAgentSelection on a store that is at hand: whether both writes went through. The first
  -- that fails is reported and is the last.
  unfoldable pub persist_agent_selection : Refusals → Text → Text → Text → Db → Bool × Db
  unfolding second_put
  persist_agent_selection w bucket tool model db =
      second_put w bucket model (put w bucket (codes "tool") tool db)
