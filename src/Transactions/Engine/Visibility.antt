-- ===== src/Transactions/Engine/Visibility.antt =====
-- What a commit makes visible, and which commits are refused.
use basuyudb.Base.{
  ℕ, ◌+◌, ◌≤◌, ◌≡◌, ◌≢◌, ◌↔◌, refl, sym, ap, ◌∙◌, inl, inr, true, false, List, [], ◌∷◌, Bytes,
  Option, none, some, Result, ok, err, Bool-cases, Option-cases, eqb, eqb_iff, arith, subst,
  txn_done, write_conflict, key_not_found, if◌then◌else◌,
}
use basuyudb.Auth.Identity.{AuthSession}
use basuyudb.Storage.Mvcc.{Badger, BadgerLaws, txn_get}
use basuyudb.Storage.Mvcc.History.{Version, newest}
use basuyudb.Storage.Mvcc.Reads.{UpTo, UpTo-mono, newest-commit, newest_late, find_write}
use basuyudb.Transactions.Overlay.{Mutation, newest_mutation}
use basuyudb.Transactions.Engine.{
  Replicated, Engine, Txn, Outcome, get, commit, begin, snapshot, rollback,
}
use basuyudb.Transactions.Engine.Batch.{AnyNewerLive, NewerLive, writes, written, find-writes}
use basuyudb.Transactions.Engine.Commit.{
  IsWellFormed, Applied, Effect, finished_before, nothing_to_write, lost, failed, applied,
  commit-Effect,
}
use basuyudb.Transactions.Engine.Isolation.{txn_get_lem, commit_ts-next, Applied-bound}

-- The last mutation of a key as a reader sees it once it is committed; the old answer if there is none.
abbrev pub committed_value : Option Mutation → Result Bytes → Result Bytes
committed_value none old = old
committed_value (some m) old = if m.delete then err key_not_found else ok m.value

module _ (B : Badger) (L : BadgerLaws B) (R : Replicated B.Db) where
  UpTo-clock : (e : Engine B R) → IsWellFormed B L R e → UpTo e.clock (L.history e.store)
  UpTo-clock e w = UpTo-mono (L.history e.store) _ _ w.bound (L.max_version_bound e.store)

  -- The newest version of a key after the writes are applied, at the published timestamp.
  newest-Applied :
      (e : Engine B R) (t : Txn) (e' : Engine B R) (k : Bytes)
      → IsWellFormed B L R e
      → Applied B L R e t e'
      → txn_get B e'.store e'.clock k
        ≡ committed_value (newest_mutation k t.mutations) (txn_get B e.store e.clock k)
  unfolding find_write
  newest-Applied e t e' k w a =
      rw
        (
          txn_get_lem B L R e'.store e'.clock k,
          txn_get_lem B L R e.store e.clock k,
          a.published,
          a.written_at,
          commit_ts-next B L R e w,
          newest-commit (writes t.mutations []) (L.history e.store) (e.clock + 1) (e.clock + 1) k
              (UpTo-mono (L.history e.store) e.clock (e.clock + 1) (omega arith) (UpTo-clock e w))
              (omega arith),
          find-writes t.mutations [] k,
          newest_late (L.history e.store) e.clock (e.clock + 1) e.clock k (UpTo-clock e w)
              (omega arith) (omega arith),
        )
        (ground arith)

  pub begun_reads :
      (e : Engine B R) (sess : AuthSession) (wall : ℕ) (k : Bytes)
      → e.repl ≡ none
      → get B R e (begin B R e sess wall).1 k ≡ txn_get B e.store e.clock k
  unfolding get begin snapshot newest_mutation
  begun_reads e sess wall k f = ap (λ n. txn_get B e.store n k) (local_snapshot e.repl f)
    where
      local_snapshot :
          (o : Option R.Node)
          → o ≡ none
          → (elim o [ none ↦ e.clock | some node ↦ R.read_timestamp node e.shard_id ]) ≡ e.clock
      local_snapshot none f = refl
      local_snapshot (some n) f = cc

  -- On a single node whose oracle, not at the end of its uint64, has reached every version of its store: a transaction that
  -- begins after a successful commit reads, of every key, the commit's last mutation of it, and
  -- of the keys that the commit did not write what a transaction that began before it would have
  -- read. All of a commit's writes become visible together.
  pub get-begin-commit :
      (e : Engine B R) (t : Txn) (sess : AuthSession) (wall : ℕ) (k : Bytes)
      → IsWellFormed B L R e
      → (commit B R e t).2 ≡ ok tt
      → get B R (commit B R e t).0 (begin B R (commit B R e t).0 sess wall).1 k
        ≡ committed_value (newest_mutation k t.mutations) (get B R e (begin B R e sess wall).1 k)
  get-begin-commit e t sess wall k w = go (commit-Effect B L R e t w.is_local)
    where
      go :
          {o : Outcome B R}
          → Effect B L R e t o
          → o.2 ≡ ok tt
          → get B R o.0 (begin B R o.0 sess wall).1 k
            ≡ committed_value
                (newest_mutation k t.mutations)
                (get B R e (begin B R e sess wall).1 k)
      go (finished_before d) f = cc
      go (nothing_to_write g) f = rw g (unfold newest_mutation in refl)
      go (lost n) f = cc
      go (failed n p) f = cc
      go (applied {e' = e'} a) f =
          begun_reads e' sess wall k (a.still_local ∙ w.is_local)
          ∙ newest-Applied e t e' k w a
          ∙ ap (committed_value (newest_mutation k t.mutations))
              (sym (begun_reads e sess wall k w.is_local))

  local_conflict :
      (e : Engine B R) (t : Txn)
      → e.repl ≡ none
      → t.done ≡ false
      → ((commit B R e t).2 ≡ err write_conflict) ↔ AnyNewerLive B L e.store t.read_uint t.mutations
  local_conflict e t alone undone = go (commit-Effect B L R e t alone)
    where
      go :
          {o : Outcome B R}
          → Effect B L R e t o
          → (o.2 ≡ err write_conflict) ↔ AnyNewerLive B L e.store t.read_uint t.mutations
      go (finished_before d) = cc
      go (nothing_to_write g) =
          ((λ f. cc), λ n. absurd (subst (AnyNewerLive B L e.store t.read_uint) g n))
      go (lost n) = ((λ f. n), λ n. refl)
      go (failed n p) = ((λ f. cc), λ m. absurd (n m))
      go (applied a) = ((λ f. cc), λ m. absurd (a.no_conflict m))

  -- On a single node whose oracle, not at the end of its uint64, has reached every version of its store, the commit of an
  -- unfinished transaction is refused as a write conflict exactly if the newest version of one
  -- of the written keys is a value, not a delete, that was committed after the transaction's
  -- snapshot.
  pub commit_conflict :
      (e : Engine B R) (t : Txn)
      → IsWellFormed B L R e
      → t.done ≡ false
      → ((commit B R e t).2 ≡ err write_conflict) ↔ AnyNewerLive B L e.store t.read_uint t.mutations
  commit_conflict e t w = local_conflict e t w.is_local

  -- On a single node whose oracle, not at the end of its uint64, has reached every version of its store, a transaction is over
  -- after its commit, whatever the commit answered: on any engine, a read, a commit and a
  -- rollback of it answer that it is done and change nothing.
  pub commit_finishes :
      (e later : Engine B R) (t : Txn) (k : Bytes)
      → IsWellFormed B L R e
      → (get B R later (commit B R e t).1 k ≡ err txn_done)
        × (commit B R later (commit B R e t).1 ≡ (later, (commit B R e t).1, err txn_done))
        × (rollback B R (commit B R e t).1 ≡ ((commit B R e t).1, err txn_done))
  commit_finishes e later t k w = over _ (is_done (commit-Effect B L R e t w.is_local))
    where
      is_done : {o : Outcome B R} → Effect B L R e t o → o.1.done ≡ true
      is_done (finished_before d) = d
      is_done (nothing_to_write g) = refl
      is_done (lost n) = refl
      is_done (failed n p) = refl
      is_done (applied a) = refl

      over :
          (u : Txn)
          → u.done ≡ true
          → (get B R later u k ≡ err txn_done)
            × (commit B R later u ≡ (later, u, err txn_done))
            × (rollback B R u ≡ (u, err txn_done))
      over u d = (unfold get in simp d, unfold commit in simp d, unfold rollback in simp d)

  newest_all :
      (e : Engine B R) (k : Bytes)
      → B.max_version e.store ≤ e.clock
      → newest (L.history e.store) (B.max_version e.store) k ≡ newest (L.history e.store) e.clock k
  newest_all e k w =
      newest_late (L.history e.store) (B.max_version e.store) (B.max_version e.store) e.clock k
        (L.max_version_bound e.store) (omega arith) w

  -- The version that a commit made, as the newest of its key.
  newest_own :
      (e : Engine B R) (t : Txn) (e' : Engine B R) (k : Bytes) (m : Mutation)
      → IsWellFormed B L R e
      → Applied B L R e t e'
      → newest_mutation k t.mutations ≡ some m
      → newest (L.history e'.store) (B.max_version e'.store) k
        ≡ some (record { key = k; ts = e.clock + 1; value = written m })
  newest_own e t e' k m w a f = rw (
    newest_all e' k (Applied-bound B L R e t e' w a),
    a.published,
    a.written_at,
    commit_ts-next B L R e w,
    newest-commit (writes t.mutations []) (L.history e.store) (e.clock + 1) (e.clock + 1) k
        (UpTo-mono (L.history e.store) e.clock (e.clock + 1) (omega arith) (UpTo-clock e w))
        (omega arith),
    find-writes t.mutations [] k,
    f,
  )

  any_newer :
      (db : B.Db) (read : ℕ) (k : Bytes) (muts : List Mutation) (m : Mutation)
      → newest_mutation k muts ≡ some m
      → NewerLive B L db read k
      → AnyNewerLive B L db read muts
  unfolding newest_mutation
  any_newer db read k [] m f n = cc
  any_newer db read k (x ∷ muts) m f n = elim (Option-cases (newest_mutation k muts)) [
    | inr (y, g) ↦ inr (any_newer db read k muts y g n)
    | inl g ↦ elim (Bool-cases (eqb x.key k)) [
      | inl h ↦ inl (subst (NewerLive B L db read) (sym ((eqb_iff x.key k).0 h)) n)
      | inr h ↦ absurd (ground (arith, g, h))
    ]
  ]

  -- No lost update, on a single node whose oracle, not at the end of its uint64, has reached every version of its store: of two
  -- unfinished transactions that write one key, where the first commits successfully, its last
  -- write of the key is no delete and the second one's snapshot is not after the oracle at that
  -- commit, the second one's commit is refused as a write conflict.
  pub commit_second :
      (e : Engine B R) (t u : Txn) (k : Bytes) (m n : Mutation)
      → IsWellFormed B L R e
      → t.done ≡ false
      → (commit B R e t).2 ≡ ok tt
      → newest_mutation k t.mutations ≡ some m
      → m.delete ≡ false
      → u.done ≡ false
      → u.read_uint ≤ e.clock
      → newest_mutation k u.mutations ≡ some n
      → (commit B R (commit B R e t).0 u).2 ≡ err write_conflict
  commit_second e t u k m n w fresh done wrote live undone old wrote' =
      go (commit-Effect B L R e t w.is_local) done
    where
      go :
          {o : Outcome B R}
          → Effect B L R e t o
          → o.2 ≡ ok tt
          → (commit B R o.0 u).2 ≡ err write_conflict
      go (finished_before d) f = cc
      go (nothing_to_write g) f = absurd (unfold newest_mutation in ground (arith, g, wrote))
      go (lost l) f = cc
      go (failed l p) f = cc
      go (applied {e' = e'} a) f = (local_conflict e' u (a.still_local ∙ w.is_local) undone).1 (
          any_newer e'.store u.read_uint k u.mutations n wrote' (record {
            version = record { key = k; ts = e.clock + 1; value = written m };
            found = newest_own e t e' k m w a wrote;
            is_live = λ z. ground (arith, live);
            is_after = omega (arith, old);
          }))

  dead_not_newer :
      (db : B.Db) (read ts : ℕ) (k : Bytes) (m n : Mutation)
      → newest (L.history db) (B.max_version db) k
        ≡ some (record { key = k; ts = ts; value = written m })
      → m.delete ≡ true
      → n.key ≡ k
      → ¬ AnyNewerLive B L db read (n ∷ [])
  dead_not_newer db read ts k m n f dead same (inr z) = z
  dead_not_newer db read ts k m n f dead same (inl z) =
      let at = subst (NewerLive B L db read) same z in
      let same_version : at.version ≡ record { key = k; ts = ts; value = written m } =
        cc (at.found, f) in
      at.is_live (ap (λ (v : Version). v.value) same_version ∙ ground (arith, dead))

  -- On a single node whose oracle, not at the end of its uint64, has reached every version of its store: where an unfinished
  -- transaction commits successfully and its last write of a key is a delete, the commit of a
  -- second unfinished transaction that writes this key alone is not refused as a write conflict,
  -- however old its snapshot is.
  pub commit_after_delete :
      (e : Engine B R) (t u : Txn) (k : Bytes) (m n : Mutation)
      → IsWellFormed B L R e
      → t.done ≡ false
      → (commit B R e t).2 ≡ ok tt
      → newest_mutation k t.mutations ≡ some m
      → m.delete ≡ true
      → u.done ≡ false
      → u.mutations ≡ n ∷ []
      → n.key ≡ k
      → (commit B R (commit B R e t).0 u).2 ≢ err write_conflict
  commit_after_delete e t u k m n w fresh done wrote dead undone only same =
      go (commit-Effect B L R e t w.is_local) done
    where
      go :
          {o : Outcome B R}
          → Effect B L R e t o
          → o.2 ≡ ok tt
          → (commit B R o.0 u).2 ≢ err write_conflict
      go (finished_before d) f = cc
      go (nothing_to_write g) f = absurd (unfold newest_mutation in ground (arith, g, wrote))
      go (lost l) f = cc
      go (failed l p) f = cc
      go (applied {e' = e'} a) f = λ c.
          let any = (local_conflict e' u (a.still_local ∙ w.is_local) undone).0 c in
          dead_not_newer e'.store u.read_uint (e.clock + 1) k m n (newest_own e t e' k m w a wrote)
            dead same (subst (AnyNewerLive B L e'.store u.read_uint) only any)
