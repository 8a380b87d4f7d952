-- ===== src/Consensus/Node/Commits.antt =====
-- A commit through the node, the Raft library and the replica on this node.
use basuyudb.Base.{
  ℕ, ◌^◌, ◌<◌, ◌≡◌, ◌≢◌, ◌↔◌, refl, false, Bool-cases, inl, inr, List, [], ◌∷◌, ◌++◌, some, Result,
  ok, err, write_conflict, Bytes, if◌then◌else◌, ◌==◌, ==_iff, length, All, subst,
}
use basuyudb.Storage.Mvcc.{Badger, BadgerLaws}
use basuyudb.Storage.Mvcc.History.{stamp}
use basuyudb.Transactions.Overlay.{Mutation}
use basuyudb.Transactions.Engine.{Engine, Txn, commit}
use basuyudb.Transactions.Engine.Batch.{writes, AnyNewerLive}
use basuyudb.Consensus.Codec.{marshal_proposal}
use basuyudb.Consensus.Codec.RoundTrip.{Fits, unmarshal-marshal}
use basuyudb.Consensus.StateMachine.{Machine, update, result_aborted}
use basuyudb.Consensus.StateMachine.Effects.{Effect, aborted, failed, applied, decoded-Effect}
use basuyudb.Consensus.Node.{Node, SyncPropose, txn_answer, propose_txn, raft_committer}

module _ (B : Badger) (L : BadgerLaws B) (sync : SyncPropose B) where
  -- SyncPropose at this index: the entry was appended to the log, and the replica on this node has applied it to the store
  -- that it shares with the engine; what Update has answered is the value.
  pub record AppliedAt (node : Node B) (db : B.Db) (shard : ℕ) (cmd : Bytes) (m : Machine B)
      (index : ℕ) : Type 0 where
    pub shared : m.store ≡ db
    pub after : Node B
    pub result : sync node db shard cmd ≡ (
      (update B m (record { index = index; cmd = cmd })).1,
      after,
      (update B m (record { index = index; cmd = cmd })).0.store,
    )

  proposed :
      (node node' : Node B) (db db' : B.Db) (shard read : ℕ) (batch : List Mutation) (r : Result ℕ)
      (m : Mutation) (muts : List Mutation)
      → batch ≡ m ∷ muts
      → sync node db shard (marshal_proposal read (m ∷ muts)) ≡ (r, node', db')
      → propose_txn B sync node db shard read batch ≡ txn_answer B (r, node', db')
  unfolding propose_txn
  proposed node node' db db' shard read batch r m muts w s = rw (w, propose_txn, s) refl

  -- What Commit makes of the library's answer.
  answered : Result ℕ → Result (Unit {0})
  answered (err x) = err x
  answered (ok v) = if v == result_aborted then err write_conflict else ok tt

  commit-answered :
      (e : Engine B (raft_committer B sync)) (t : Txn) (node node' : Node B) (db' : B.Db)
      (m : Mutation) (muts : List Mutation) (r : Result ℕ)
      → e.repl ≡ some node
      → t.done ≡ false
      → t.mutations ≡ m ∷ muts
      → sync node e.store e.shard_id (marshal_proposal t.read_uint (m ∷ muts)) ≡ (r, node', db')
      → ((commit B (raft_committer B sync) e t).2 ≡ answered r)
        × ((commit B (raft_committer B sync) e t).0.store ≡ db')
  unfolding commit txn_answer answered
  commit-answered e t node node' db' m muts (err x) c d w s =
      rw
        (
          commit,
          d,
          w,
          c,
          proposed node node' e.store db' e.shard_id t.read_uint t.mutations (err x) m muts w s,
        )
        (refl, refl)
  commit-answered e t node node' db' m muts (ok v) c d w s =
      elim (Bool-cases (v == result_aborted)) [
        | inl a ↦
            rw
              (
                commit,
                d,
                w,
                c,
                proposed node node' e.store db' e.shard_id t.read_uint t.mutations (ok v) m muts w
                    s,
                txn_answer,
                a,
              )
              (refl, refl)
        | inr a ↦
            rw
              (
                commit,
                d,
                w,
                c,
                proposed node node' e.store db' e.shard_id t.read_uint t.mutations (ok v) m muts w
                    s,
                txn_answer,
                a,
              )
              (refl, refl)
      ]

  Effect-answered :
      (m : Machine B) (index read : ℕ) (muts : List Mutation) {p : Machine B × Result ℕ}
      → index ≢ 0
      → Effect B L m index read muts p
      → ((answered p.1 ≡ err write_conflict) ↔ AnyNewerLive B L m.store read muts)
        × (answered p.1 ≡ ok tt
            → L.history p.0.store ≡ stamp index (writes muts []) ++ L.history m.store)
  unfolding answered
  Effect-answered m index read muts n (aborted a) = (((λ f. a), λ b. refl), λ f. cc)
  Effect-answered m index read muts n (failed a) = (((λ f. cc), λ b. absurd (a b)), λ f. cc)
  Effect-answered m index read muts n (applied a g) = elim (Bool-cases (index == 0)) [
    | inl e ↦ absurd (n ((==_iff index 0).0 e))
    | inr e ↦ rw e (((λ f. cc), λ b. absurd (a b)), λ f. g)
  ]

  -- A commit in a cluster, where the library has applied its entry at an index other than 0 on this node's replica: an
  -- unfinished transaction that has written, with a snapshot and lengths that fit the proposal's fields, is refused as a
  -- write conflict exactly if the newest version of one of its keys is a value that was committed after its snapshot; and
  -- where the commit succeeds, the store has the transaction's writes at the entry's index on top of what it had.
  pub commit-clustered :
      (e : Engine B (raft_committer B sync)) (t : Txn) (node : Node B) (machine : Machine B)
      (index : ℕ) (m : Mutation) (muts : List Mutation)
      → e.repl ≡ some node
      → t.done ≡ false
      → t.mutations ≡ m ∷ muts
      → t.read_uint < 2 ^ 64
      → length (m ∷ muts) < 2 ^ 32
      → All Fits (m ∷ muts)
      → index ≢ 0
      → AppliedAt node e.store e.shard_id (marshal_proposal t.read_uint (m ∷ muts)) machine index
      → (((commit B (raft_committer B sync) e t).2 ≡ err write_conflict)
          ↔ AnyNewerLive B L e.store t.read_uint (m ∷ muts))
        × ((commit B (raft_committer B sync) e t).2 ≡ ok tt
            → L.history (commit B (raft_committer B sync) e t).0.store
              ≡ stamp index (writes (m ∷ muts) []) ++ L.history e.store)
  unfolding update
  commit-clustered e t node machine index m muts c d w r n f i a =
      let (x, y) = commit-answered e t node a.after _ m muts _ c d w a.result in
      rw (x, y)
        (subst
          (λ db.
            ((answered done.1 ≡ err write_conflict) ↔ AnyNewerLive B L db t.read_uint (m ∷ muts))
            × (answered done.1 ≡ ok tt
                → L.history done.0.store ≡ stamp index (writes (m ∷ muts) []) ++ L.history db))
          a.shared
          (rw (unmarshal-marshal t.read_uint (m ∷ muts) r n f) (
            Effect-answered machine index t.read_uint (m ∷ muts) i
              (decoded-Effect B L machine index t.read_uint (m ∷ muts)))))
    where
      done : Machine B × Result ℕ
      done =
          update B machine (record { index = index; cmd = marshal_proposal t.read_uint (m ∷ muts) })
