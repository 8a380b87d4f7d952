-- ===== src/Storage/Mvcc.antt =====
-- The managed store: engine/internal/storage/store.go over BadgerDB.
-- BadgerDB is not part of this repository. It is the parameter `Badger`, with its documented
-- behaviour in managed mode as `BadgerLaws`: each read at a timestamp sees, of a key's versions that
-- are not newer, the newest; a version that is a delete is "key not found".
pub mod History
pub mod Reads
pub mod Entries
use basuyudb.Base.{
  ℕ, ◌≤◌, ◌≡◌, Bool, List, [], ◌∷◌, ◌++◌, Bytes, Option, none, some, Error, io, Result, ok, err,
  ◌>>=◌, key_not_found, max, All, zero_namespace, if◌then◌else◌,
}
use basuyudb.Auth.Identity.{NamespaceId, is_zero}
use basuyudb.Storage.Keys.{namespace_prefix}
use basuyudb.Storage.Mvcc.History.{
  Version, Write, Entry, stamp, newest, answer, live, without_prefix, lookup, IsAscending,
}

-- What the engine calls of BadgerDB.
pub record Badger : Type 1 where
  pub Db : Type 0
  pub Batch : Type 0
  -- db.MaxVersion()
  pub max_version : Db → ℕ
  -- db.NewTransactionAt(ts).Get(key): the item's value and version
  pub get_at : Db → ℕ → Bytes → Result (Bytes × ℕ)
  -- a whole iteration of the transaction at ts
  pub scan_at : Db → ℕ → List Entry
  -- db.NewWriteBatchAt(ts), wb.Set, wb.Delete, wb.Flush
  pub new_batch : Db → ℕ → Batch
  pub batch_set : Batch → Bytes → Bytes → Result Batch
  pub batch_delete : Batch → Bytes → Result Batch
  pub flush : Db → Batch → Result Db
  -- What a batch that was cancelled or whose flush failed leaves: a batch that outgrows one of Badger's own transactions is
  -- committed in parts, and those that were committed before the failure stay.
  pub abandon : Db → Batch → Db
  -- db.DropPrefix(prefix)
  pub drop_prefix : Db → Bytes → Result Db

-- A database stands for its versions, the latest written first; a batch for its writes, the latest
-- first, and the timestamp that they will have.
pub record BadgerLaws (B : Badger) : Type 0 where
  pub history : B.Db → List Version
  pub pending : B.Batch → List Write
  pub batch_ts : B.Batch → ℕ
  pub max_version_bound : (db : B.Db) → All (λ v. v.ts ≤ B.max_version db) (history db)
  pub max_version-flush :
      (db db' : B.Db) (b : B.Batch)
      → B.flush db b ≡ ok db'
      → B.max_version db' ≤ max (B.max_version db) (batch_ts b)
  pub get_at_lem :
      (db : B.Db) (ts : ℕ) (k : Bytes) → B.get_at db ts k ≡ answer (newest (history db) ts k)
  pub scan_at-lookup :
      (db : B.Db) (ts : ℕ) (k : Bytes)
      → lookup k (B.scan_at db ts) ≡ live (newest (history db) ts k)
  pub scan_at-IsAscending : (db : B.Db) (ts : ℕ) → IsAscending (B.scan_at db ts)
  pub pending-new_batch : (db : B.Db) (ts : ℕ) → pending (B.new_batch db ts) ≡ []
  pub batch_ts-new_batch : (db : B.Db) (ts : ℕ) → batch_ts (B.new_batch db ts) ≡ ts
  pub pending-batch_set :
      (b b' : B.Batch) (k v : Bytes)
      → B.batch_set b k v ≡ ok b'
      → (pending b' ≡ (k, some v) ∷ pending b) × (batch_ts b' ≡ batch_ts b)
  pub pending-batch_delete :
      (b b' : B.Batch) (k : Bytes)
      → B.batch_delete b k ≡ ok b'
      → (pending b' ≡ (k, none) ∷ pending b) × (batch_ts b' ≡ batch_ts b)
  pub history-flush :
      (db db' : B.Db) (b : B.Batch)
      → B.flush db b ≡ ok db'
      → history db' ≡ stamp (batch_ts b) (pending b) ++ history db
  pub history-abandon :
      (db : B.Db) (b : B.Batch)
      → (ws : List Write) × (history (B.abandon db b) ≡ stamp (batch_ts b) ws ++ history db)
  pub max_version-abandon :
      (db : B.Db) (b : B.Batch)
      → B.max_version (B.abandon db b) ≤ max (B.max_version db) (batch_ts b)
  -- `io` is what every failure of the library is taken as.
  pub batch_set_io : (b : B.Batch) (k v : Bytes) (x : Error) → B.batch_set b k v ≡ err x → x ≡ io
  pub batch_delete_io : (b : B.Batch) (k : Bytes) (x : Error) → B.batch_delete b k ≡ err x → x ≡ io
  pub flush_io : (db : B.Db) (b : B.Batch) (x : Error) → B.flush db b ≡ err x → x ≡ io
  pub history-drop_prefix :
      (db db' : B.Db) (p : Bytes)
      → B.drop_prefix db p ≡ ok db'
      → history db' ≡ without_prefix p (history db)
  pub max_version-drop_prefix :
      (db db' : B.Db) (p : Bytes)
      → B.drop_prefix db p ≡ ok db'
      → B.max_version db' ≤ B.max_version db

-- The result of `LatestVersion` from that of the read.
found_version : Result (Bytes × ℕ) → Result (Option ℕ)
found_version (ok (v, ts)) = ok (some ts)
found_version (err key_not_found) = ok none
found_version (err e) = err e

module _ (B : Badger) where
  -- LatestVersion; `none` is found=false.
  unfoldable pub latest_version : B.Db → Bytes → Result (Option ℕ)
  unfolding found_version
  latest_version db k = found_version (B.get_at db (B.max_version db) k)

  -- badgerTxn.Get of a transaction at `ts`
  unfoldable pub txn_get : B.Db → ℕ → Bytes → Result Bytes
  txn_get db ts k = B.get_at db ts k >>= λ item. ok item.0

  -- DeleteNamespace
  unfoldable pub delete_namespace : B.Db → NamespaceId → Result B.Db
  delete_namespace db ns =
      if is_zero ns then err zero_namespace else B.drop_prefix db (namespace_prefix ns)
