-- ===== src/Consensus/StateMachine.antt =====
-- engine/internal/consensus/statemachine.go: the machine that every replica runs on the log.
-- dragonboat, which orders the entries, is not part of this repository: an entry is given with the
-- index that it assigned.
pub mod Effects
pub mod Replicas
pub mod Logs
use basuyudb.Base.{
  ℕ, ◌+◌, ◌≡◌, Bool, true, false, List, [], ◌∷◌, Bytes, Result, ok, err, Error, eof, unexpected_eof,
  ltb, if◌then◌else◌, length, put_uint64, get_uint64,
}
use basuyudb.Storage.Mvcc.{Badger}
use basuyudb.Transactions.Overlay.{Mutation}
use basuyudb.Transactions.Engine.{has_conflict, fill_batch}
use basuyudb.Consensus.Codec.{unmarshal_proposal}

-- resultAborted
abbrev pub result_aborted : ℕ
result_aborted = 0

-- sm.Entry
pub record LogEntry : Type 0 where
  pub index : ℕ
  pub cmd : Bytes

module _ (B : Badger) where
  pub record Machine : Type 0 where
    pub store : B.Db
    pub shard_id : ℕ
    pub replica_id : ℕ
    pub last_applied : ℕ

  -- newStateMachineFunc
  unfoldable pub new_state_machine : B.Db → ℕ → ℕ → Machine
  new_state_machine db shard_id replica_id = record {
    store = db;
    shard_id = shard_id;
    replica_id = replica_id;
    last_applied = 0;
  }

  -- The batch is filled: flush it and record the index.
  unfoldable pub update_flush : Machine → ℕ → B.Batch × Result (Unit {0}) → Machine × Result ℕ
  update_flush m index (b, err x) = (record m { store = B.abandon m.store b }, err x)
  update_flush m index (b, ok _) = elim (B.flush m.store b) [
    | err x ↦ (record m { store = B.abandon m.store b }, err x)
    | ok db ↦ (record m { store = db; last_applied = index }, ok index)
  ]

  -- The conflict check has answered. Its loop, and that which fills the batch, are those of Commit.
  unfoldable pub update_checked : Machine → ℕ → List Mutation → Result Bool → Machine × Result ℕ
  update_checked m index muts (err x) = (m, err x)
  update_checked m index muts (ok true) = (record m { last_applied = index }, ok result_aborted)
  update_checked m index muts (ok false) =
      update_flush m index (fill_batch B (B.new_batch m.store index) muts)

  -- The entry is decoded.
  unfoldable pub update_decoded : Machine → ℕ → Result (ℕ × List Mutation) → Machine × Result ℕ
  update_decoded m index (err x) = (m, err x)
  update_decoded m index (ok (read, muts)) =
      update_checked m index muts (has_conflict B m.store read muts)

  -- Update
  unfoldable pub update : Machine → LogEntry → Machine × Result ℕ
  update m e = update_decoded m e.index (unmarshal_proposal e.cmd)

  -- LastApplied, and the answer of Lookup
  unfoldable pub last_applied_index : Machine → ℕ
  last_applied_index m = m.last_applied

  -- SaveSnapshot
  unfoldable pub save_snapshot : Machine → Bytes
  save_snapshot m = put_uint64 m.last_applied

  -- RecoverFromSnapshot; io.ReadFull tells an empty stream from a short one.
  unfoldable pub recover_from_snapshot : Machine → Bytes → Machine × Result (Unit {0})
  recover_from_snapshot m [] = (m, err eof)
  recover_from_snapshot m (b ∷ bs) =
      if ltb (length (b ∷ bs)) 8
      then (m, err unexpected_eof)
      else (record m { last_applied = get_uint64 (b ∷ bs) }, ok tt)
