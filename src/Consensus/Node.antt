-- ===== src/Consensus/Node.antt =====
-- engine/internal/consensus/node.go: the node that proposes through Raft, as the transaction engine's
-- replicated committer. Starting and stopping the Raft library and waiting for a leader are left out.
pub mod Commits
use basuyudb.Base.{
  ℕ, Bool, true, false, List, [], ◌∷◌, Bytes, Option, none, some, Result, ok, err, if◌then◌else◌,
  ◌==◌,
}
use basuyudb.Storage.Mvcc.{Badger}
use basuyudb.Transactions.Overlay.{Mutation}
use basuyudb.Transactions.Engine.{Replicated}
use basuyudb.Consensus.Codec.{marshal_proposal, marshal_batch}
use basuyudb.Consensus.StateMachine.{Machine, last_applied_index, result_aborted}

module _ (B : Badger) where
  -- Node: the shards' state machines, for read timestamps.
  pub record Node : Type 0 where
    pub machines : ℕ → Option (Machine B)

  -- SyncPropose of the Raft library: the value that the state machine answered, once the entry is
  -- applied on this node, with the node and the store as they are then.
  abbrev pub SyncPropose : Type 0
  SyncPropose = Node → B.Db → ℕ → Bytes → Result ℕ × Node × B.Db

  -- ReadTimestamp
  unfoldable pub read_timestamp : Node → ℕ → ℕ
  read_timestamp n shard_id = elim (n.machines shard_id) [
    | none ↦ 0
    | some m ↦ last_applied_index B m
  ]

  propose_answer : Result ℕ × Node × B.Db → Result (Unit {0}) × Node × B.Db
  propose_answer (err x, n, db) = (err x, n, db)
  propose_answer (ok _, n, db) = (ok tt, n, db)

  -- Propose
  unfoldable pub propose :
      SyncPropose → Node → B.Db → ℕ → List Mutation → Result (Unit {0}) × Node × B.Db
  unfolding propose_answer
  propose sync n db shard_id [] = (ok tt, n, db)
  propose sync n db shard_id (m ∷ batch) =
      propose_answer (sync n db shard_id (marshal_batch (m ∷ batch)))

  txn_answer : Result ℕ × Node × B.Db → Result (Bool × ℕ) × Node × B.Db
  txn_answer (err x, n, db) = (err x, n, db)
  txn_answer (ok v, n, db) = (ok (if v == result_aborted then (false, 0) else (true, v)), n, db)

  -- ProposeTxn
  unfoldable pub propose_txn :
      SyncPropose → Node → B.Db → ℕ → ℕ → List Mutation → Result (Bool × ℕ) × Node × B.Db
  unfolding txn_answer read_timestamp
  propose_txn sync n db shard_id read [] = (ok (true, read_timestamp n shard_id), n, db)
  propose_txn sync n db shard_id read (m ∷ batch) =
      txn_answer (sync n db shard_id (marshal_proposal read (m ∷ batch)))

  -- The node as the committer that `transactions.New` takes.
  abbrev pub raft_committer : SyncPropose → Replicated B.Db
  raft_committer sync = record {
    Node = Node;
    read_timestamp = read_timestamp;
    propose_txn = propose_txn sync;
  }
