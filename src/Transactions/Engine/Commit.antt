-- ===== src/Transactions/Engine/Commit.antt =====
-- What a commit on a single node does to the store, case by case.
use mathlib.Core.Path.{ap₂}
use basuyudb.Base.{
  ◌+◌, ◌^◌, ◌≤◌, ◌<◌, ◌≡◌, Error, Result, refl, ap, ◌∙◌, inl, inr, Bool, true, false, List, [], ◌∷◌,
  ◌++◌, Option, none, some, io, ok, err, Result-cases, if◌then◌else◌, max, subst, txn_done,
  write_conflict,
}
use basuyudb.Storage.Mvcc.{Badger, BadgerLaws}
use basuyudb.Storage.Mvcc.History.{stamp, Write}
use basuyudb.Transactions.Overlay.{Mutation}
use basuyudb.Transactions.Engine.{
  Replicated, Engine, Txn, commit_ts, fill_batch, finish_commit, commit_writes, commit, Outcome,
}
use basuyudb.Transactions.Engine.Batch.{
  writes, fill_batch-writes, batch_ts-fill_batch, fill_batch_io, AnyNewerLive, conflict_cases,
}

module _ (B : Badger) (L : BadgerLaws B) (R : Replicated B.Db) where
  -- A single node whose oracle has reached every version of its store, and can advance in its uint64.
  pub record IsWellFormed (e : Engine B R) : Type 0 where
    pub is_local : e.repl ≡ none
    pub bound : B.max_version e.store ≤ e.clock
    pub room : e.clock + 1 < 2 ^ 64

  -- The transaction's writes are in the store at the next timestamp, which is published.
  pub record Applied (e : Engine B R) (t : Txn) (e' : Engine B R) : Type 0 where
    pub written_at :
        L.history e'.store ≡ stamp (commit_ts B R e) (writes t.mutations []) ++ L.history e.store
    pub published : e'.clock ≡ commit_ts B R e
    pub still_local : e'.repl ≡ e.repl
    pub still_bounded : B.max_version e'.store ≤ max (B.max_version e.store) (commit_ts B R e)
    pub no_conflict : ¬ AnyNewerLive B L e.store t.read_uint t.mutations

  -- A store that a failed commit has left: nothing but versions at the timestamp that it reserved came on top.
  pub record Partly (e : Engine B R) (db : B.Db) : Type 0 where
    pub left : List Write
    pub left_at : L.history db ≡ stamp (commit_ts B R e) left ++ L.history e.store
    pub left_bounded : B.max_version db ≤ max (B.max_version e.store) (commit_ts B R e)

  -- What a commit leaves: the engine as it was, the writes applied, or a part of them where the store failed.
  pub data Effect (e : Engine B R) (t : Txn) : Outcome B R → Type 0 where
    finished_before : t.done ≡ true → Effect e t (e, t, err txn_done)
    nothing_to_write : t.mutations ≡ [] → Effect e t (e, record t { done = true }, ok tt)
    lost :
        AnyNewerLive B L e.store t.read_uint t.mutations
        → Effect e t (e, record t { done = true }, err write_conflict)
    failed :
        {db : B.Db}
        → ¬ AnyNewerLive B L e.store t.read_uint t.mutations
        → Partly e db
        → Effect e t (record e { store = db }, record t { done = true }, err io)
    applied : {e' : Engine B R} → Applied e t e' → Effect e t (e', record t { done = true }, ok tt)

  abandoned :
      (e : Engine B R) (b : B.Batch)
      → L.batch_ts b ≡ commit_ts B R e
      → Partly e (B.abandon e.store b)
  abandoned e b ts =
      let (ws, h) = L.history-abandon e.store b in
      record {
        left = ws;
        left_at = h ∙ ap (λ n. stamp n ws ++ L.history e.store) ts;
        left_bounded =
            subst (λ n. B.max_version (B.abandon e.store b) ≤ max (B.max_version e.store) n) ts
              (L.max_version-abandon e.store b);
      }

  flushed :
      (e : Engine B R) (t : Txn) (b : B.Batch) (db : B.Db)
      → ¬ AnyNewerLive B L e.store t.read_uint t.mutations
      → L.batch_ts b ≡ commit_ts B R e
      → L.pending b ≡ writes t.mutations []
      → B.flush e.store b ≡ ok db
      → Applied e t (record e { store = db; clock = commit_ts B R e })
  flushed e t b db none_newer ts p g = record {
    written_at = L.history-flush e.store db b g ∙ ap₂ (λ n l. stamp n l ++ L.history e.store) ts p;
    published = refl;
    still_local = refl;
    still_bounded =
        subst (λ n. B.max_version db ≤ max (B.max_version e.store) n) ts
          (L.max_version-flush e.store db b g);
    no_conflict = none_newer;
  }

  -- The batch, with what the loop that filled it has answered.
  finish-Effect :
      (e : Engine B R) (t : Txn) (b : B.Batch) (r : Result (Unit {0}))
      → ¬ AnyNewerLive B L e.store t.read_uint t.mutations
      → L.batch_ts b ≡ commit_ts B R e
      → (r ≡ ok tt → L.pending b ≡ writes t.mutations [])
      → ((x : Error) → r ≡ err x → x ≡ io)
      → Effect e t (finish_commit B R e (record t { done = true }) (commit_ts B R e) (b, r))
  unfolding finish_commit
  finish-Effect e t b (err x) none_newer ts p is_io =
      rw (is_io x refl) (failed none_newer (abandoned e b ts))
  finish-Effect e t b (ok u) none_newer ts p is_io = elim (Result-cases (B.flush e.store b)) [
    | inr (x, g) ↦
        rw (g, L.flush_io e.store b x g, finish_commit) (failed none_newer (abandoned e b ts))
    | inl (db, g) ↦ rw (g, finish_commit) (applied (flushed e t b db none_newer ts (p refl) g))
  ]

  local-Effect :
      (e : Engine B R) (t : Txn)
      → ¬ AnyNewerLive B L e.store t.read_uint t.mutations
      → Effect e t (
          finish_commit B R e
            (record t { done = true })
            (commit_ts B R e)
            (fill_batch B (B.new_batch e.store (commit_ts B R e)) t.mutations))
  local-Effect e t none_newer =
      let b = B.new_batch e.store (commit_ts B R e) in
      finish-Effect e t (fill_batch B b t.mutations).0 (fill_batch B b t.mutations).1 none_newer
        (batch_ts-fill_batch B L b t.mutations ∙ L.batch_ts-new_batch e.store (commit_ts B R e))
        (λ f.
          fill_batch-writes B L b t.mutations f
          ∙ ap (writes t.mutations) (L.pending-new_batch e.store (commit_ts B R e)))
        (λ x f. fill_batch_io B L b t.mutations x f)

  writes-Effect :
      (e : Engine B R) (t : Txn) (repl : Option R.Node)
      → repl ≡ none
      → Effect e t (commit_writes B R e t repl)
  unfolding commit_writes
  writes-Effect e t (some node) f = cc
  writes-Effect e t none f = elim (conflict_cases B L e.store t.read_uint t.mutations) [
    | inl (g, n) ↦ rw g (lost n)
    | inr (g, n) ↦ rw g (local-Effect e t n)
  ]

  -- Every commit on a single node ends in one of these ways.
  pub commit-Effect : (e : Engine B R) (t : Txn) → e.repl ≡ none → Effect e t (commit B R e t)
  unfolding commit
  commit-Effect e t is_local = start t.done refl
    where
      go :
          (muts : List Mutation)
          → t.mutations ≡ muts
          → Effect e t (elim muts [
            | [] ↦ (e, record t { done = true }, ok tt)
            | _ ∷ _ ↦ commit_writes B R e t e.repl
          ])
      go [] f = nothing_to_write f
      go (_ ∷ _) f = writes-Effect e t e.repl is_local

      start :
          (b : Bool)
          → t.done ≡ b
          → Effect e t (
              if b then (e, t, err txn_done) else (elim t.mutations [
                | [] ↦ (e, record t { done = true }, ok tt)
                | _ ∷ _ ↦ commit_writes B R e t e.repl
              ]))
      start true d = finished_before d
      start false d = go t.mutations refl
