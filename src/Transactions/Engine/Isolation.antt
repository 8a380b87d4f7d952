-- ===== src/Transactions/Engine/Isolation.antt =====
-- Snapshot isolation on a single node.
use basuyudb.Base.{
  false, ℕ, ◌^◌, ◌<◌, ◌≢◌, io, ◌+◌, ◌≤◌, ◌≡◌, refl, ap, [], Bytes, none, some, Result, ok, err,
  arith, if◌then◌else◌, key_not_found, txn_done, ◌>>=◌,
}
use basuyudb.Auth.Identity.{AuthSession}
use basuyudb.Storage.Mvcc.{Badger, BadgerLaws, txn_get}
use basuyudb.Storage.Mvcc.History.{newest, answer}
use basuyudb.Storage.Mvcc.Reads.{newest_before}
use basuyudb.Transactions.Overlay.{newest_mutation}
use basuyudb.Transactions.Engine.{
  Replicated, Engine, Txn, Outcome, commit_ts, get, commit, begin, new_engine, start_clock,
}
use basuyudb.Transactions.Engine.Batch.{writes}
use basuyudb.Transactions.Engine.Commit.{
  IsWellFormed, Applied, Effect, finished_before, nothing_to_write, lost, failed, applied,
  commit-Effect,
}

-- What Get answers, by what the store has at the snapshot.
abbrev pub get_from : Txn → Bytes → Result Bytes → Result Bytes
get_from t k stored = if t.done then err txn_done else (elim (newest_mutation k t.mutations) [
  | some m ↦ if m.delete then err key_not_found else ok m.value
  | none ↦ stored
])

module _ (B : Badger) (L : BadgerLaws B) (R : Replicated B.Db) where
  -- A read of the store, by the version that it sees.
  pub txn_get_lem :
      (db : B.Db) (t : ℕ) (k : Bytes)
      → txn_get B db t k ≡ (answer (newest (L.history db) t k) >>= λ item. ok item.0)
  unfolding txn_get
  txn_get_lem db t k = rw (L.get_at_lem db t k)

  -- The engine over an existing store starts well formed.
  pub new_engine-IsWellFormed :
      (db : B.Db) (node_id : ℕ)
      → B.max_version db + 1 < 2 ^ 64
      → IsWellFormed B L R (new_engine B R db node_id none)
  unfolding new_engine start_clock
  new_engine-IsWellFormed db node_id h = record {
    is_local = refl;
    bound = ground arith;
    room = ground (arith, h);
  }

  pub begin-IsWellFormed :
      (e : Engine B R) (sess : AuthSession) (wall : ℕ)
      → IsWellFormed B L R e
      → IsWellFormed B L R (begin B R e sess wall).0
  unfolding begin
  begin-IsWellFormed e sess wall w = record {
    is_local = w.is_local;
    bound = w.bound;
    room = w.room;
  }

  pub begin-done :
      (e : Engine B R) (sess : AuthSession) (wall : ℕ) → (begin B R e sess wall).1.done ≡ false
  unfolding begin
  begin-done e sess wall = refl

  pub begin-mutations :
      (e : Engine B R) (sess : AuthSession) (wall : ℕ) → (begin B R e sess wall).1.mutations ≡ []
  unfolding begin
  begin-mutations e sess wall = refl

  -- The reserved timestamp is the oracle's successor.
  pub commit_ts-next : (e : Engine B R) → IsWellFormed B L R e → commit_ts B R e ≡ e.clock + 1
  commit_ts-next e w = let r = w.room in grind arith

  -- A successful commit publishes every version.
  pub Applied-bound :
      (e : Engine B R) (t : Txn) (e' : Engine B R)
      → IsWellFormed B L R e
      → Applied B L R e t e'
      → B.max_version e'.store ≤ e'.clock
  Applied-bound e t e' w a =
      let n = commit_ts-next e w in omega (arith, a.still_bounded, a.published, w.bound, n)

  -- On a single node whose oracle has reached every version of its store, and can advance in its uint64: no commit, whatever
  -- it answers, sets the oracle back, and none leaves a version more than one above it; the version that is one above it was
  -- left by a commit that failed in the store, and after every other commit the oracle has reached all versions again.
  pub commit_bounds :
      (e : Engine B R) (t : Txn)
      → IsWellFormed B L R e
      → (e.clock ≤ (commit B R e t).0.clock)
        × (B.max_version (commit B R e t).0.store ≤ (commit B R e t).0.clock + 1)
        × ((commit B R e t).2 ≢ err io
            → B.max_version (commit B R e t).0.store ≤ (commit B R e t).0.clock)
  commit_bounds e t w = go (commit-Effect B L R e t w.is_local)
    where
      go :
          {o : Outcome B R}
          → Effect B L R e t o
          → (e.clock ≤ o.0.clock)
            × (B.max_version o.0.store ≤ o.0.clock + 1)
            × (o.2 ≢ err io → B.max_version o.0.store ≤ o.0.clock)
      go (finished_before d) = (omega arith, omega (arith, w.bound), λ f. w.bound)
      go (nothing_to_write f) = (omega arith, omega (arith, w.bound), λ f. w.bound)
      go (lost n) = (omega arith, omega (arith, w.bound), λ f. w.bound)
      go (failed n p) =
          let c = commit_ts-next e w in
          (omega arith, omega (arith, p.left_bounded, w.bound, c), λ f. absurd (f refl))
      go (applied {e' = e'} a) =
          let c = commit_ts-next e w in
          let r = Applied-bound e t e' w a in
          (omega (arith, a.published, c), omega (arith, r), λ f. r)

  store_read_stable :
      (e : Engine B R) (t : Txn) {o : Outcome B R} (read : ℕ) (k : Bytes)
      → IsWellFormed B L R e
      → Effect B L R e t o
      → read ≤ e.clock
      → txn_get B o.0.store read k ≡ txn_get B e.store read k
  store_read_stable e t read k w (finished_before d) h = refl
  store_read_stable e t read k w (nothing_to_write f) h = refl
  store_read_stable e t read k w (lost n) h = refl
  store_read_stable e t read k w (failed {db = db} n p) h = rw (
    txn_get_lem db read k,
    txn_get_lem e.store read k,
    p.left_at,
    commit_ts-next e w,
    newest_before p.left (L.history e.store) (e.clock + 1) read k (omega arith),
  )
  store_read_stable e t read k w (applied {e' = e'} a) h = rw (
    txn_get_lem e'.store read k,
    txn_get_lem e.store read k,
    a.written_at,
    commit_ts-next e w,
    newest_before (writes t.mutations []) (L.history e.store) (e.clock + 1) read k (omega arith),
  )

  -- On a single node whose oracle has reached every version of its store, and can advance in its uint64: a transaction whose
  -- snapshot is not after the oracle reads the same of every key before and after another one's
  -- commit, whatever that commit answers.
  pub get-commit_other :
      (e : Engine B R) (t reader : Txn) (k : Bytes)
      → IsWellFormed B L R e
      → reader.read_uint ≤ e.clock
      → get B R (commit B R e t).0 reader k ≡ get B R e reader k
  unfolding get
  get-commit_other e t reader k w h =
      ap (get_from reader k)
        (store_read_stable e t reader.read_uint k w (commit-Effect B L R e t w.is_local) h)
