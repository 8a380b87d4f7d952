-- ===== src/Examples/Commits.antt =====
-- Transactions that commit, conflict and read.
use basuyudb.Base.{
  io, ◌≢◌, ◌+◌, ◌≤◌, ◌≡◌, ◌↔◌, refl, [], ◌∷◌, codes, none, err, write_conflict, arith, has_prefix,
  if◌then◌else◌, eqb,
}
use basuyudb.Storage.Mvcc.History.{lookup, newest, IsAscending}
use basuyudb.Storage.Mvcc.{latest_version}
use basuyudb.Storage.Memory.{memory, latest_ts}
use basuyudb.Storage.Memory.Laws.{memory_laws}
use basuyudb.Transactions.Overlay.{newest_mutation}
use basuyudb.Transactions.Engine.{new_engine, begin, get, scan, commit, has_conflict, fill_batch}
use basuyudb.Transactions.Engine.Batch.{AnyNewerLive}
use basuyudb.Transactions.Engine.Isolation.{commit_bounds, get-commit_other}
use basuyudb.Transactions.Engine.Visibility.{
  committed_value, get-begin-commit, commit_conflict, commit_second,
}
use basuyudb.Transactions.Engine.Scans.{value_of, scan-get}
use basuyudb.Examples.{solo, session, engine, engine-IsWellFormed, put_a, put_b, txn_of}

get-begin-commit_example :
    get memory solo
      (commit memory solo engine (txn_of (put_a ∷ []))).0
      (begin memory solo (commit memory solo engine (txn_of (put_a ∷ []))).0 session 200).1
      (codes "a")
    ≡ committed_value
        (newest_mutation (codes "a") (put_a ∷ []))
        (get memory solo engine (begin memory solo engine session 200).1 (codes "a"))
unfolding commit begin new_engine has_conflict latest_version newest eqb latest_ts fill_batch
get-begin-commit_example =
    get-begin-commit memory memory_laws solo engine (txn_of (put_a ∷ [])) session 200 (codes "a")
      engine-IsWellFormed refl

get-commit_other_example :
    get memory solo (commit memory solo engine (txn_of (put_a ∷ []))).0 (txn_of []) (codes "a")
    ≡ get memory solo engine (txn_of []) (codes "a")
unfolding begin new_engine
get-commit_other_example =
    get-commit_other memory memory_laws solo engine (txn_of (put_a ∷ [])) (txn_of []) (codes "a")
      engine-IsWellFormed (omega arith)

commit_conflict_example :
    ((commit memory solo engine (txn_of (put_a ∷ []))).2 ≡ err write_conflict)
    ↔ AnyNewerLive memory memory_laws engine.store (txn_of (put_a ∷ [])).read_uint (put_a ∷ [])
unfolding begin new_engine
commit_conflict_example =
    commit_conflict memory memory_laws solo engine (txn_of (put_a ∷ [])) engine-IsWellFormed refl

commit_bounds_example :
    (engine.clock ≤ (commit memory solo engine (txn_of (put_a ∷ []))).0.clock)
    × (memory.max_version (commit memory solo engine (txn_of (put_a ∷ []))).0.store
        ≤ (commit memory solo engine (txn_of (put_a ∷ []))).0.clock + 1)
    × ((commit memory solo engine (txn_of (put_a ∷ []))).2 ≢ err io
        → memory.max_version (commit memory solo engine (txn_of (put_a ∷ []))).0.store
          ≤ (commit memory solo engine (txn_of (put_a ∷ []))).0.clock)
commit_bounds_example =
    commit_bounds memory memory_laws solo engine (txn_of (put_a ∷ [])) engine-IsWellFormed

commit_second_example :
    (commit memory solo
      (commit memory solo engine (txn_of (put_a ∷ []))).0
      (txn_of (put_a ∷ put_b ∷ []))).2
    ≡ err write_conflict
unfolding commit begin new_engine newest_mutation has_conflict latest_version newest eqb latest_ts
    fill_batch
commit_second_example =
    commit_second memory memory_laws solo engine (txn_of (put_a ∷ [])) (txn_of (put_a ∷ put_b ∷ []))
      (codes "a") put_a put_a engine-IsWellFormed refl refl refl refl refl (omega arith) refl

scan-get_example :
    IsAscending (scan memory solo engine (txn_of (put_b ∷ [])) (codes "b"))
    × (lookup (codes "b") (scan memory solo engine (txn_of (put_b ∷ [])) (codes "b")) ≡ (
        if has_prefix (codes "b") (codes "b")
        then value_of (get memory solo engine (txn_of (put_b ∷ [])) (codes "b"))
        else none))
unfolding begin
scan-get_example =
    scan-get memory memory_laws solo engine (txn_of (put_b ∷ [])) (codes "b") (codes "b") refl
