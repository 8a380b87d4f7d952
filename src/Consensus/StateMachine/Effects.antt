-- ===== src/Consensus/StateMachine/Effects.antt =====
-- What one log entry does to a replica, case by case.
use mathlib.Core.Path.{ap₂}
use basuyudb.Base.{
  Error, refl, ℕ, ◌≡◌, ap, ◌∙◌, inl, inr, List, [], ◌++◌, Result, ok, err, io, Result-cases,
}
use basuyudb.Storage.Mvcc.{Badger, BadgerLaws}
use basuyudb.Storage.Mvcc.History.{stamp}
use basuyudb.Transactions.Overlay.{Mutation}
use basuyudb.Transactions.Engine.{fill_batch}
use basuyudb.Transactions.Engine.Batch.{
  writes, fill_batch-writes, batch_ts-fill_batch, fill_batch_io, AnyNewerLive, conflict_cases,
}
use basuyudb.Consensus.StateMachine.{
  Machine, update_decoded, update_checked, update_flush, result_aborted,
}

module _ (B : Badger) (L : BadgerLaws B) where
  -- The outcome of decoded mutations with the proposer's snapshot, at an index.
  pub data Effect (m : Machine B) (index read : ℕ) (muts : List Mutation)
      : Machine B × Result ℕ → Type 0 where
    aborted :
        AnyNewerLive B L m.store read muts
        → Effect m index read muts (record m { last_applied = index }, ok result_aborted)
    failed :
        {db : B.Db}
        → ¬ AnyNewerLive B L m.store read muts
        → Effect m index read muts (record m { store = db }, err io)
    applied :
        {db : B.Db}
        → ¬ AnyNewerLive B L m.store read muts
        → L.history db ≡ stamp index (writes muts []) ++ L.history m.store
        → Effect m index read muts (record m { store = db; last_applied = index }, ok index)

  -- The batch, with what the loop that filled it has answered.
  filled-Effect :
      (m : Machine B) (index read : ℕ) (muts : List Mutation) (b : B.Batch) (r : Result (Unit {0}))
      → ¬ AnyNewerLive B L m.store read muts
      → L.batch_ts b ≡ index
      → (r ≡ ok tt → L.pending b ≡ writes muts [])
      → ((x : Error) → r ≡ err x → x ≡ io)
      → Effect m index read muts (update_flush B m index (b, r))
  unfolding update_flush
  filled-Effect m index read muts b (err x) none_newer ts p is_io =
      rw (is_io x refl) (failed none_newer)
  filled-Effect m index read muts b (ok u) none_newer ts p is_io =
      elim (Result-cases (B.flush m.store b)) [
        | inr (x, g) ↦ rw (g, L.flush_io m.store b x g, update_flush) (failed none_newer)
        | inl (db, g) ↦
            rw (g, update_flush)
              (applied none_newer (
                L.history-flush m.store db b g
                ∙ ap₂ (λ n l. stamp n l ++ L.history m.store) ts (p refl)))
      ]

  flush-Effect :
      (m : Machine B) (index read : ℕ) (muts : List Mutation)
      → ¬ AnyNewerLive B L m.store read muts
      → Effect m index read muts
          (update_flush B m index (fill_batch B (B.new_batch m.store index) muts))
  flush-Effect m index read muts none_newer =
      let b = B.new_batch m.store index in
      filled-Effect m index read muts (fill_batch B b muts).0 (fill_batch B b muts).1 none_newer
        (batch_ts-fill_batch B L b muts ∙ L.batch_ts-new_batch m.store index)
        (λ f. fill_batch-writes B L b muts f ∙ ap (writes muts) (L.pending-new_batch m.store index))
        (λ x f. fill_batch_io B L b muts x f)

  pub decoded-Effect :
      (m : Machine B) (index read : ℕ) (muts : List Mutation)
      → Effect m index read muts (update_decoded B m index (ok (read, muts)))
  unfolding update_decoded update_checked
  decoded-Effect m index read muts = elim (conflict_cases B L m.store read muts) [
    | inl (f, n) ↦ rw f (aborted n)
    | inr (f, n) ↦ rw f (flush-Effect m index read muts n)
  ]
