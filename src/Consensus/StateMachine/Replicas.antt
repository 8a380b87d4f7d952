-- ===== src/Consensus/StateMachine/Replicas.antt =====
-- Replicas that apply one log agree, and the log's commit is the single node's commit.
use mathlib.Core.Path.{ap₂}
use basuyudb.Base.{
  ℕ, ◌^◌, ◌<◌, ◌≡◌, ◌≢◌, refl, sym, ap, ◌∙◌, inl, inr, false, List, [], ◌∷◌, ◌++◌, Bytes, Result,
  ok, err, io, write_conflict, max, arith, length, All,
}
use basuyudb.Storage.Mvcc.{Badger, BadgerLaws}
use basuyudb.Storage.Mvcc.History.{stamp, newest}
use basuyudb.Storage.Mvcc.Reads.{newest_late}
use basuyudb.Transactions.Overlay.{Mutation}
use basuyudb.Transactions.Engine.{Replicated, Engine, Txn, Outcome, commit_ts, commit}
use basuyudb.Transactions.Engine.Batch.{writes, AnyNewerLive}
use basuyudb.Transactions.Engine.Commit
use basuyudb.Transactions.Engine.Commit.{IsWellFormed, commit-Effect}
use basuyudb.Consensus.Codec.{unmarshal_proposal, marshal_proposal}
use basuyudb.Consensus.Codec.RoundTrip.{Fits, unmarshal-marshal}
use basuyudb.Consensus.StateMachine.{LogEntry, Machine, update, update_decoded, result_aborted}
use basuyudb.Consensus.StateMachine.Effects.{Effect, aborted, failed, applied, decoded-Effect}

module _ (B : Badger) (L : BadgerLaws B) where
  -- Two stores with the same versions.
  abbrev pub SameHistory : B.Db → B.Db → Type 0
  SameHistory a b = L.history a ≡ L.history b

  same_newest :
      (a b : B.Db) (k : Bytes)
      → SameHistory a b
      → newest (L.history a) (B.max_version a) k ≡ newest (L.history b) (B.max_version b) k
  same_newest a b k h =
      newest_late (L.history a) (B.max_version a) (B.max_version a)
        (max (B.max_version a) (B.max_version b)) k (L.max_version_bound a) (omega arith)
        (omega arith)
      ∙ ap (λ l. newest l (max (B.max_version a) (B.max_version b)) k) h
      ∙ newest_late (L.history b) (B.max_version b) (max (B.max_version a) (B.max_version b))
          (B.max_version b) k (L.max_version_bound b) (omega arith) (omega arith)

  pub same_conflicts :
      (a b : B.Db) (read : ℕ) (muts : List Mutation)
      → SameHistory a b
      → AnyNewerLive B L a read muts
      → AnyNewerLive B L b read muts
  same_conflicts a b read [] h n = n
  same_conflicts a b read (m ∷ muts) h (inr n) = inr (same_conflicts a b read muts h n)
  same_conflicts a b read (m ∷ muts) h (inl n) = inl (record {
    version = n.version;
    found = sym (same_newest a b m.key h) ∙ n.found;
    is_live = n.is_live;
    is_after = n.is_after;
  })

  effects_agree :
      (m n : Machine B) (index read : ℕ) (muts : List Mutation) {p q : Machine B × Result ℕ}
      (x y : ℕ)
      → SameHistory m.store n.store
      → Effect B L m index read muts p
      → Effect B L n index read muts q
      → p.1 ≡ ok x
      → q.1 ≡ ok y
      → (x ≡ y) × SameHistory p.0.store q.0.store × (p.0.last_applied ≡ q.0.last_applied)
  effects_agree m n index read muts x y h (aborted a) (aborted b) e f = (cc, h, refl)
  effects_agree m n index read muts x y h (aborted a) (applied b g) e f =
      absurd (b (same_conflicts m.store n.store read muts h a))
  effects_agree m n index read muts x y h (applied a g) (aborted b) e f =
      absurd (a (same_conflicts n.store m.store read muts (sym h) b))
  effects_agree m n index read muts x y h (applied a g) (applied b k) e f =
      (cc, g ∙ ap (λ l. stamp index (writes muts []) ++ l) h ∙ sym k, refl)
  effects_agree m n index read muts x y h (failed a) q e f = cc
  effects_agree m n index read muts x y h (aborted a) (failed b) e f = cc
  effects_agree m n index read muts x y h (applied a g) (failed b) e f = cc

  -- A replica applies the entries one after the other, each without a failure, with these answers.
  pub data Applies : Machine B → List LogEntry → Machine B → List ℕ → Type 0 where
    done : (m : Machine B) → Applies m [] m []
    next :
        {m m' : Machine B} {x : ℕ} {es : List LogEntry} {xs : List ℕ} (e : LogEntry)
        → (update B m e).1 ≡ ok x
        → Applies (update B m e).0 es m' xs
        → Applies m (e ∷ es) m' (x ∷ xs)

  update_agree :
      (m n : Machine B) (e : LogEntry) (x y : ℕ)
      → SameHistory m.store n.store
      → (update B m e).1 ≡ ok x
      → (update B n e).1 ≡ ok y
      → (x ≡ y)
        × SameHistory (update B m e).0.store (update B n e).0.store
        × ((update B m e).0.last_applied ≡ (update B n e).0.last_applied)
  unfolding update
  update_agree m n e x y h = go (unmarshal_proposal e.cmd)
    where
      go :
          (r : Result (ℕ × List Mutation))
          → (update_decoded B m e.index r).1 ≡ ok x
          → (update_decoded B n e.index r).1 ≡ ok y
          → (x ≡ y)
            × SameHistory
                (update_decoded B m e.index r).0.store
                (update_decoded B n e.index r).0.store
            × ((update_decoded B m e.index r).0.last_applied
                ≡ (update_decoded B n e.index r).0.last_applied)
      go (err z) f g = unfold update_decoded in cc
      go (ok (read, muts)) f g =
          effects_agree m n e.index read muts x y h (decoded-Effect B L m e.index read muts)
            (decoded-Effect B L n e.index read muts) f g

  -- Two replicas that start from the same versions and the same applied index and apply the same entries, each without a
  -- failure, answer each of them alike, commit or abort, and end with the same versions and the same applied index.
  pub replicas_converge :
      (m n m' n' : Machine B) (es : List LogEntry) (xs ys : List ℕ)
      → SameHistory m.store n.store
      → m.last_applied ≡ n.last_applied
      → Applies m es m' xs
      → Applies n es n' ys
      → (xs ≡ ys) × SameHistory m'.store n'.store × (m'.last_applied ≡ n'.last_applied)
  replicas_converge m n m' n' es xs ys h i (done _) (done _) = (refl, h, i)
  replicas_converge m n m' n' es xs ys h i (next {x = x} {es = es'} {xs = xs'} e p r)
        (next {x = y} {xs = ys'} _ p' r') =
      let (u, v, w) = update_agree m n e x y h p p' in
      let (a, b, c) =
        replicas_converge (update B m e).0 (update B n e).0 m' n' es' xs' ys' v w r r' in
      (ap₂ (λ (z : ℕ) l. z ∷ l) u a, b, c)

  -- How the outcome of a commit compares with that of its log entry.
  pub data Matches (R : Replicated B.Db) (index : ℕ)
      : Outcome B R → Machine B × Result ℕ → Type 0 where
    both_commit :
        {e : Engine B R} {t : Txn} {m : Machine B}
        → SameHistory e.store m.store
        → Matches R index (e, t, ok tt) (m, ok index)
    both_refuse :
        {e : Engine B R} {t : Txn} {m : Machine B}
        → SameHistory e.store m.store
        → Matches R index (e, t, err write_conflict) (m, ok result_aborted)
    store_failed_local :
        {e : Engine B R} {t : Txn} {p : Machine B × Result ℕ} → Matches R index (e, t, err io) p
    store_failed_replica : {o : Outcome B R} {m : Machine B} → Matches R index o (m, err io)

  -- Committing through the log refines the single node's commit: an undecided transaction that has
  -- written, proposed at the index that is the node's next timestamp to a replica with the same
  -- versions, is committed there exactly if the node commits it, with the same versions afterwards,
  -- and refused exactly if the node refuses it, unless one of the two stores fails.
  pub update_refines_commit :
      (R : Replicated B.Db) (e : Engine B R) (t : Txn) (m : Machine B)
      → IsWellFormed B L R e
      → SameHistory e.store m.store
      → t.done ≡ false
      → t.mutations ≢ []
      → t.read_uint < 2 ^ 64
      → length t.mutations < 2 ^ 32
      → All Fits t.mutations
      → Matches R (commit_ts B R e) (commit B R e t) (
          update B m
            (record { index = commit_ts B R e; cmd = marshal_proposal t.read_uint t.mutations }))
  unfolding update
  update_refines_commit R e t m w h undone wrote r n f =
      rw (unmarshal-marshal t.read_uint t.mutations r n f) (
        match (commit-Effect B L R e t w.is_local)
          (decoded-Effect B L m (commit_ts B R e) t.read_uint t.mutations))
    where
      match :
          {o : Outcome B R} {p : Machine B × Result ℕ}
          → Commit.Effect B L R e t o
          → Effect B L m (commit_ts B R e) t.read_uint t.mutations p
          → Matches R (commit_ts B R e) o p
      match (Commit.finished_before d) q = cc
      match (Commit.nothing_to_write g) q = absurd (wrote g)
      match (Commit.failed a d) q = store_failed_local
      match (Commit.lost a) (aborted b) = both_refuse h
      match (Commit.lost a) (failed b) = store_failed_replica
      match (Commit.lost a) (applied b g) =
          absurd (b (same_conflicts e.store m.store t.read_uint t.mutations h a))
      match (Commit.applied a) (failed b) = store_failed_replica
      match (Commit.applied a) (aborted b) =
          absurd (a.no_conflict (same_conflicts m.store e.store t.read_uint t.mutations (sym h) b))
      match (Commit.applied a) (applied b g) =
          both_commit (
            a.written_at ∙ ap (λ l. stamp (commit_ts B R e) (writes t.mutations []) ++ l) h ∙ sym g)
