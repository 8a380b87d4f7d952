-- ===== src/Branch/Manager/Merges.antt =====
-- What a reader of the parent sees after MERGE.
use basuyudb.Base.{
  Option, some, ◌≡◌, refl, sym, ap₂, ◌∙◌, inl, inr, Bool, true, false, Bool-cases, ◌++◌, Bytes,
  codes, ℕ, none, Result, ok, err, Result-cases, eqb,
}
use basuyudb.Auth.Identity.{AuthSession}
use basuyudb.Storage.Keys.{branch_meta_key}
use basuyudb.Storage.Mvcc.{Badger, BadgerLaws, txn_get}
use basuyudb.Transactions.Engine.{Replicated, Engine, Txn, begin, get, snapshot}
use basuyudb.Transactions.Engine.Commit.{IsWellFormed}
use basuyudb.Transactions.Engine.Isolation.{begin-done, begin-mutations}
use basuyudb.Transactions.Engine.Visibility.{begun_reads}
use basuyudb.Branch.Prefix.{Meta}
use basuyudb.Branch.Manager.{MergeResult, exists, meta_of, merge_checked, merge}
use basuyudb.Branch.Manager.Effect.{
  row_on_branch, parent_root, branch_root, merge_from-reads, fresh_read,
}

module _ (B : Badger) (L : BadgerLaws B) (R : Replicated B.Db) where
  -- What a transaction that begins on the engine reads.
  abbrev pub read : Engine B R → AuthSession → ℕ → Bytes → Result Bytes
  read e sess wall k = get B R e (begin B R e sess wall).1 k

  -- The engine's store, oracle and committer are those of another engine.
  record SameStore (e f : Engine B R) : Type 0 where
    store_same : e.store ≡ f.store
    clock_same : e.clock ≡ f.clock
    repl_same : e.repl ≡ f.repl

  begin-SameStore :
      (e : Engine B R) (sess : AuthSession) (wall : ℕ) → SameStore (begin B R e sess wall).0 e
  unfolding begin
  begin-SameStore e sess wall = record { store_same = refl; clock_same = refl; repl_same = refl }

  exists-SameStore :
      (e : Engine B R) (sess : AuthSession) (name : Bytes) (wall : ℕ)
      → SameStore (exists B R e sess name wall).0 e
  unfolding exists begin
  exists-SameStore e sess name wall = elim (Bool-cases (eqb name (codes "main"))) [
    | inl f ↦ rw (exists, f) (record { store_same = refl; clock_same = refl; repl_same = refl })
    | inr f ↦ rw (exists, f) (record { store_same = refl; clock_same = refl; repl_same = refl })
  ]

  meta_of-SameStore :
      (e : Engine B R) (sess : AuthSession) (src : Bytes) (wall : ℕ)
      → SameStore (meta_of B R e sess src wall).0 e
  unfolding meta_of begin
  meta_of-SameStore e sess src wall = record {
    store_same = refl;
    clock_same = refl;
    repl_same = refl;
  }

  SameStore-trans : {e f g : Engine B R} → SameStore e f → SameStore f g → SameStore e g
  SameStore-trans a b = record {
    store_same = a.store_same ∙ b.store_same;
    clock_same = a.clock_same ∙ b.clock_same;
    repl_same = a.repl_same ∙ b.repl_same;
  }

  SameStore-IsWellFormed :
      {e f : Engine B R} → SameStore e f → IsWellFormed B L R f → IsWellFormed B L R e
  SameStore-IsWellFormed s w = record {
    is_local = s.repl_same ∙ w.is_local;
    room = rw s.clock_same w.room;
    bound = rw (s.store_same, s.clock_same) w.bound;
  }

  -- Transactions that begin on engines with one store read the same.
  read-SameStore :
      {e f : Engine B R} (sess : AuthSession) (w1 w2 : ℕ) (k : Bytes)
      → SameStore e f
      → IsWellFormed B L R f
      → read e sess w1 k ≡ read f sess w2 k
  read-SameStore {e} {f} sess w1 w2 k s w =
      begun_reads B L R e sess w1 k (s.repl_same ∙ w.is_local)
      ∙ ap₂ (λ db n. txn_get B db n k) s.store_same s.clock_same
      ∙ sym (begun_reads B L R f sess w2 k w.is_local)

  meta_of-same :
      {e f : Engine B R} (sess : AuthSession) (src : Bytes) (w1 w2 : ℕ)
      → SameStore e f
      → IsWellFormed B L R f
      → (meta_of B R e sess src w1).1 ≡ (meta_of B R f sess src w2).1
  unfolding meta_of get begin
  meta_of-same {e} {f} sess src w1 w2 s w =
      rw (read-SameStore {e = e} {f = f} sess w1 w2 (branch_meta_key sess.namespace src) s w) refl

  begin-read_uint :
      (e : Engine B R) (sess : AuthSession) (wall : ℕ)
      → e.repl ≡ none
      → (begin B R e sess wall).1.read_uint ≡ e.clock
  unfolding begin snapshot
  begin-read_uint e sess wall f = local_snapshot e.repl f
    where
      local_snapshot :
          (o : Option R.Node)
          → o ≡ none
          → (elim o [ none ↦ e.clock | some node ↦ R.read_timestamp node e.shard_id ]) ≡ e.clock
      local_snapshot none f = refl
      local_snapshot (some n) f = cc

  -- A merge, behind its checks, whose transaction began on an engine with the store of `e`.
  merge_checked-reads :
      (e e1 : Engine B R) (sess : AuthSession) (src : Bytes) (meta : Meta) (res : MergeResult)
      (w2 w3 wall : ℕ) (tail : Bytes)
      → SameStore e1 e
      → IsWellFormed B L R e
      → (meta_of B R e sess src wall).1 ≡ ok meta
      → (merge_checked B R sess src w2 w3 (e1, ok true)).1 ≡ ok res
      → read
          (merge_checked B R sess src w2 w3 (e1, ok true)).0
          sess
          wall
          (parent_root B L R sess meta ++ tail)
        ≡ row_on_branch
            (read e sess wall (branch_root B L R sess src ++ tail))
            (read e sess wall (parent_root B L R sess meta ++ tail))
  unfolding merge_checked
  merge_checked-reads e e1 sess src meta res w2 w3 wall tail s w m h = rw agreed (
      merge_from-reads B L R e2 t sess src meta res wall tail
        (SameStore-IsWellFormed {e = e2} {f = e} s2 w) (begin-done B L R e1 sess w2)
        (begin-mutations B L R e1 sess w2) snap (rw agreed at h)
      ∙ ap₂ row_on_branch (same (branch_root B L R sess src ++ tail))
          (same (parent_root B L R sess meta ++ tail)))
    where
      t : Txn
      t = (begin B R e1 sess w2).1

      begun : Engine B R
      begun = (begin B R e1 sess w2).0

      e2 : Engine B R
      e2 = (meta_of B R begun sess src w3).0

      s1 : SameStore begun e
      s1 = SameStore-trans {e = begun} {f = e1} {g = e} (begin-SameStore e1 sess w2) s

      s2 : SameStore e2 e
      s2 = SameStore-trans {e = e2} {f = begun} {g = e} (meta_of-SameStore begun sess src w3) s1

      agreed : (meta_of B R begun sess src w3).1 ≡ ok meta
      agreed = meta_of-same {e = begun} {f = e} sess src w3 wall s1 w ∙ m

      snap : t.read_uint ≡ e2.clock
      snap =
          begin-read_uint e1 sess w2 (s.repl_same ∙ w.is_local) ∙ s.clock_same ∙ sym s2.clock_same

      same : (k : Bytes) → get B R e2 t k ≡ read e sess wall k
      same k =
          fresh_read B L R e2 t k (begin-done B L R e1 sess w2) (begin-mutations B L R e1 sess w2)
          ∙ ap₂ (λ db n. txn_get B db n k) s2.store_same (snap ∙ s2.clock_same)
          ∙ sym (begun_reads B L R e sess wall k w.is_local)

  merge_checked-exists :
      (sess : AuthSession) (src : Bytes) (w2 w3 : ℕ) (o : Engine B R × Result Bool)
      {res : MergeResult}
      → (merge_checked B R sess src w2 w3 o).1 ≡ ok res
      → o.1 ≡ ok true
  unfolding merge_checked
  merge_checked-exists sess src w2 w3 (e, err x) h = cc
  merge_checked-exists sess src w2 w3 (e, ok false) h = cc
  merge_checked-exists sess src w2 w3 (e, ok true) h = refl

  -- After a merge that succeeds, on a single node whose oracle, not at the end of its uint64, has reached every version of its store: a transaction that begins on
  -- the engine then reads, of every row of the parent that the branch's metadata names (main, where it names none), what a reader of the branch would have
  -- seen before the merge: the branch's own live row, nothing where the branch has a tombstone, and the parent's row where the branch
  -- has none.
  pub merge-reads :
      (e : Engine B R) (sess : AuthSession) (src : Bytes) (meta : Meta) (res : MergeResult)
      (w1 w2 w3 wall : ℕ) (tail : Bytes)
      → IsWellFormed B L R e
      → (meta_of B R e sess src wall).1 ≡ ok meta
      → (merge B R e sess src w1 w2 w3).1 ≡ ok res
      → read (merge B R e sess src w1 w2 w3).0 sess wall (parent_root B L R sess meta ++ tail)
        ≡ row_on_branch
            (read e sess wall (branch_root B L R sess src ++ tail))
            (read e sess wall (parent_root B L R sess meta ++ tail))
  unfolding merge
  merge-reads e sess src meta res w1 w2 w3 wall tail w m h =
      elim (Bool-cases (eqb src (codes "main"))) [
        | inl f ↦ absurd (let g = rw f at h in cc)
        | inr f ↦ rw f (go (exists B R e sess src w1) (exists-SameStore e sess src w1) (rw f at h))
      ]
    where
      go :
          (o : Engine B R × Result Bool)
          → SameStore o.0 e
          → (merge_checked B R sess src w2 w3 o).1 ≡ ok res
          → read
              (merge_checked B R sess src w2 w3 o).0
              sess
              wall
              (parent_root B L R sess meta ++ tail)
            ≡ row_on_branch
                (read e sess wall (branch_root B L R sess src ++ tail))
                (read e sess wall (parent_root B L R sess meta ++ tail))
      go (e1, r) s k = elim (Result-cases r) [
        | inl (true, f) ↦
            rw f (merge_checked-reads e e1 sess src meta res w2 w3 wall tail s w m (rw f at k))
        | inl (false, f) ↦ absurd (let g = merge_checked-exists sess src w2 w3 (e1, r) k in cc)
        | inr (x, f) ↦ absurd (let g = merge_checked-exists sess src w2 w3 (e1, r) k in cc)
      ]
