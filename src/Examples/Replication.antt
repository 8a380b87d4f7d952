-- ===== src/Examples/Replication.antt =====
-- Log entries that replicas apply, and what they are decoded from.
use basuyudb.Base.{
  ◌↔◌, err, write_conflict, ◌++◌, Bytes, some, ℕ, ◌≡◌, refl, List, [], ◌∷◌, ok, arith,
}
use basuyudb.Storage.Memory.{memory, latest_ts}
use basuyudb.Storage.Memory.Laws.{memory_laws}
use basuyudb.Transactions.Engine.{commit_ts, Engine, new_engine, begin, commit}
use basuyudb.Consensus.Codec.{marshal_proposal, unmarshal_proposal}
use basuyudb.Consensus.Codec.RoundTrip.{unmarshal-marshal}
use basuyudb.Consensus.StateMachine.{Machine, LogEntry, update}
use basuyudb.Consensus.Node.{Node, SyncPropose, raft_committer}
use basuyudb.Consensus.Node.Commits.{commit-clustered}
use basuyudb.Consensus.StateMachine.Replicas.{Matches, update_refines_commit}
use basuyudb.Transactions.Engine.Batch.{AnyNewerLive, writes}
use basuyudb.Storage.Mvcc.History.{stamp}
use basuyudb.Examples.{
  solo, engine, engine-IsWellFormed, one_version, put_a, delete_a, put_b, txn_of,
}

abbrev replica : ℕ → Machine memory
replica id = record { store = one_version; shard_id = 1; replica_id = id; last_applied = 3 }

abbrev entry : LogEntry
entry = record { index = 4; cmd = marshal_proposal 3 (put_a ∷ put_b ∷ []) }

unmarshal-marshal_example :
    unmarshal_proposal (marshal_proposal 3 (put_a ∷ delete_a ∷ [])) ≡ ok (3, put_a ∷ delete_a ∷ [])
unmarshal-marshal_example =
    unmarshal-marshal 3 (put_a ∷ delete_a ∷ []) (omega arith) (omega arith) (
      record { key_fits = omega arith; value_fits = omega arith },
      (record { key_fits = omega arith; value_fits = omega arith }, tt),
    )

abbrev answers : List ℕ
answers = 4 ∷ []

update_refines_commit_example :
    Matches memory memory_laws solo
      (commit_ts memory solo engine)
      (commit memory solo engine (txn_of (put_a ∷ [])))
      (update memory (replica 1) (record {
        index = commit_ts memory solo engine;
        cmd = marshal_proposal (txn_of (put_a ∷ [])).read_uint (put_a ∷ []);
      }))
unfolding begin new_engine latest_ts
update_refines_commit_example =
    update_refines_commit memory memory_laws solo engine (txn_of (put_a ∷ [])) (replica 1)
      engine-IsWellFormed refl refl (λ e. cc) (omega arith) (omega arith)
      (record { key_fits = omega arith; value_fits = omega arith }, tt)

abbrev a_node : Node memory
a_node = record { machines = λ shard. some (replica 1) }

abbrev in_order : ℕ → Bytes → LogEntry
in_order index cmd = record { index = index; cmd = cmd }

-- A library that has applied three entries, and applies the next one on this node.
abbrev next_entry : SyncPropose memory
next_entry n db shard cmd =
    let (m, r) =
      update memory (record { store = db; shard_id = shard; replica_id = 1; last_applied = 3 })
        (in_order 4 cmd) in
    (r, n, m.store)

abbrev clustered : Engine memory (raft_committer memory next_entry)
clustered = record {
  store = one_version;
  hlc = engine.hlc;
  clock = 3;
  repl = some a_node;
  shard_id = 1;
}

commit-clustered_example :
    (((commit memory (raft_committer memory next_entry) clustered (txn_of (put_a ∷ []))).2
        ≡ err write_conflict)
      ↔ AnyNewerLive memory memory_laws one_version (txn_of (put_a ∷ [])).read_uint (put_a ∷ []))
    × ((commit memory (raft_committer memory next_entry) clustered (txn_of (put_a ∷ []))).2 ≡ ok tt
        → memory_laws.history
            (commit memory
              (raft_committer memory next_entry)
              clustered
              (txn_of (put_a ∷ []))).0.store
          ≡ stamp 4 (writes (put_a ∷ []) []) ++ memory_laws.history one_version)
unfolding begin new_engine latest_ts
commit-clustered_example =
    commit-clustered memory memory_laws next_entry clustered (txn_of (put_a ∷ [])) a_node
      (replica 1) 4 put_a [] refl refl refl (omega arith) (omega arith)
      (record { key_fits = omega arith; value_fits = omega arith }, tt) (λ e. cc)
      (record { shared = refl; after = a_node; result = refl })
