-- ===== src/Transactions/Engine.antt =====
-- engine/internal/transactions/engine.go: the transaction engine over the managed store.
-- A method takes the engine and the transaction and returns both as they are afterwards. A method
-- body runs whole: `commitMu` serialises commits, so an interleaving of transactions is a sequence of
-- these calls.
pub mod Batch
pub mod Commit
pub mod Isolation
pub mod Visibility
pub mod Scans
pub mod Seeking
use basuyudb.Base.{
  ℕ, ◌+◌, ◌%◌, ◌^◌, ◌≡◌, Bool, true, false, List, [], ◌∷◌, ◌++◌, Bytes, Option, none, some, ltb,
  length, if◌then◌else◌, Result, ok, err, ◌>>=◌, txn_done, write_conflict, key_not_found,
}
use basuyudb.Auth.Identity.{AuthSession}
use basuyudb.Storage.Mvcc.{Badger, latest_version, txn_get}
use basuyudb.Storage.Mvcc.History.{Entry}
use basuyudb.Storage.Iterator.{new_iterator, new_reverse_iterator, rewind, seek, drain}
use basuyudb.Transactions.Hlc.{Hlc, HlcTimestamp, new_hlc, now}
use basuyudb.Transactions.Overlay.{
  Mutation, newest_mutation, buffered_for_prefix, scan_all, seek_all,
}

-- DefaultShardID
abbrev pub default_shard_id : ℕ
default_shard_id = 1

pub record Txn : Type 0 where
  pub read_ts : HlcTimestamp
  pub read_uint : ℕ
  pub sess : AuthSession
  pub mutations : List Mutation
  pub done : Bool

-- ReplicatedCommitter, with the state that it keeps on this node: its read timestamp for a shard, and
-- what a proposal answers (committed or not, and the index) with the node and the store afterwards.
pub record Replicated (Db : Type 0) : Type 1 where
  pub Node : Type 0
  pub read_timestamp : Node → ℕ → ℕ
  pub propose_txn : Node → Db → ℕ → ℕ → List Mutation → Result (Bool × ℕ) × Node × Db

-- The loop that asks each written key for a newer version: whether one has it.
is_newer : Option ℕ → ℕ → Bool
is_newer none read = false
is_newer (some ts) read = ltb read ts

module _ (B : Badger) where
  unfoldable pub has_conflict : B.Db → ℕ → List Mutation → Result Bool
  unfolding is_newer
  has_conflict db read [] = ok false
  has_conflict db read (m ∷ muts) =
      let rest = has_conflict db read muts in
      latest_version B db m.key >>= λ found. if is_newer found read then ok true else rest

  -- `wb.Delete` or `wb.Set`
  abbrev pub write_one : B.Batch → Mutation → Result B.Batch
  write_one b m = if m.delete then B.batch_delete b m.key else B.batch_set b m.key m.value

  -- The loop that fills the batch, up to the first error: the batch as it is then.
  unfoldable pub fill_batch : B.Batch → List Mutation → B.Batch × Result (Unit {0})
  fill_batch b [] = (b, ok tt)
  fill_batch b (m ∷ muts) = elim (write_one b m) [ err x ↦ (b, err x) | ok b' ↦ fill_batch b' muts ]

-- The start of the timestamp oracle.
start_clock : ℕ → ℕ
start_clock start = if ltb start 1 then 1 else start

module _ (B : Badger) (R : Replicated B.Db) where
  -- `repl` is none for the LocalCommitter, whose `Propose` does nothing.
  pub record Engine : Type 0 where
    pub store : B.Db
    pub hlc : Hlc
    pub clock : ℕ
    pub repl : Option R.Node
    pub shard_id : ℕ

  -- New
  unfoldable pub new_engine : B.Db → ℕ → Option R.Node → Engine
  unfolding start_clock
  new_engine db node_id committer = record {
    store = db;
    hlc = new_hlc node_id;
    clock = start_clock (B.max_version db);
    repl = committer;
    shard_id = default_shard_id;
  }

  -- The snapshot of a new transaction.
  unfoldable pub snapshot : Engine → ℕ
  snapshot e = elim e.repl [ none ↦ e.clock | some node ↦ R.read_timestamp node e.shard_id ]

  -- Begin, at a reading of the wall clock
  unfoldable pub begin : Engine → AuthSession → ℕ → Engine × Txn
  unfolding snapshot
  begin e sess wall =
      let (ts, hlc') = now e.hlc wall in
      (
        record e { hlc = hlc' },
        record { read_ts = ts; read_uint = snapshot e; sess = sess; mutations = []; done = false },
      )

  -- What Get answers from the transaction's own writes.
  own_write : Mutation → Result Bytes
  own_write m = if m.delete then err key_not_found else ok m.value

  -- Get
  unfoldable pub get : Engine → Txn → Bytes → Result Bytes
  unfolding own_write
  get e t k = if t.done then err txn_done else (elim (newest_mutation k t.mutations) [
    | some m ↦ own_write m
    | none ↦ txn_get B e.store t.read_uint k
  ])

  -- NewIterator, as the entries that a loop over it meets
  unfoldable pub scan : Engine → Txn → Bytes → List Entry
  scan e t prefix =
      let base = drain (rewind (new_iterator (B.scan_at e.store t.read_uint) prefix)) in
      let buf = buffered_for_prefix t.mutations prefix in
      if ltb 0 (length buf) then scan_all base buf else base

  -- NewIterator, as the entries that a loop meets behind a Seek
  unfoldable pub seek_scan : Engine → Txn → Bytes → Bytes → List Entry
  seek_scan e t prefix k =
      let base = drain (seek (new_iterator (B.scan_at e.store t.read_uint) prefix) k) in
      let buf = buffered_for_prefix t.mutations prefix in
      if ltb 0 (length buf) then seek_all k base buf else base

  -- NewReverseIterator
  unfoldable pub scan_reverse : Engine → Txn → Bytes → List Entry
  scan_reverse e t prefix =
      drain (rewind (new_reverse_iterator (B.scan_at e.store t.read_uint) prefix))

  unfoldable pub seek_scan_reverse : Engine → Txn → Bytes → Bytes → List Entry
  seek_scan_reverse e t prefix k =
      drain (seek (new_reverse_iterator (B.scan_at e.store t.read_uint) prefix) k)

  -- Buffer
  unfoldable pub buffer : Txn → Mutation → Txn
  buffer t m = record t { mutations = t.mutations ++ (m ∷ []) }

  abbrev pub Outcome : Type 0
  Outcome = Engine × Txn × Result (Unit {0})

  -- The timestamp that a commit reserves, in uint64.
  abbrev pub commit_ts : Engine → ℕ
  commit_ts e = (e.clock + 1) % 2 ^ 64

  -- After the batch is filled: flush it, and publish the timestamp once it is durable.
  finish_commit : Engine → Txn → ℕ → B.Batch × Result (Unit {0}) → Outcome
  finish_commit e t ts (b, err x) = (record e { store = B.abandon e.store b }, t, err x)
  finish_commit e t ts (b, ok _) = elim (B.flush e.store b) [
    | err x ↦ (record e { store = B.abandon e.store b }, t, err x)
    | ok db ↦ (record e { store = db; clock = ts }, t, ok tt)
  ]

  -- The local path of Commit, behind the conflict check.
  commit_checked : Engine → Txn → Result Bool → Outcome
  unfolding finish_commit
  commit_checked e t (err x) = (e, t, err x)
  commit_checked e t (ok true) = (e, record t { done = true }, err write_conflict)
  commit_checked e t (ok false) =
      finish_commit e (record t { done = true }) (commit_ts e)
        (fill_batch B (B.new_batch e.store (commit_ts e)) t.mutations)

  -- The clustered path.
  commit_replicated : Engine → Txn → Result (Bool × ℕ) × R.Node × B.Db → Outcome
  commit_replicated e t (r, node, db) =
      let e' = record e { store = db; repl = some node } in
      elim r [
        | err x ↦ (e', t, err x)
        | ok (committed, _) ↦ (e', t, if committed then ok tt else err write_conflict)
      ]

  commit_writes : Engine → Txn → Option R.Node → Outcome
  unfolding commit_checked commit_replicated
  commit_writes e t none = commit_checked e t (has_conflict B e.store t.read_uint t.mutations)
  commit_writes e t (some node) =
      commit_replicated e (record t { done = true })
        (R.propose_txn node e.store e.shard_id t.read_uint t.mutations)

  -- Commit
  unfoldable pub commit : Engine → Txn → Outcome
  unfolding commit_writes
  commit e t = if t.done then (e, t, err txn_done) else (elim t.mutations [
    | [] ↦ (e, record t { done = true }, ok tt)
    | _ ∷ _ ↦ commit_writes e t e.repl
  ])

  -- Rollback
  unfoldable pub rollback : Txn → Txn × Result (Unit {0})
  rollback t =
      if t.done then (t, err txn_done) else (record t { done = true; mutations = [] }, ok tt)
