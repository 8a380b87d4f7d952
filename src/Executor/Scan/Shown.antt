-- ===== src/Executor/Scan/Shown.antt =====
-- What a table scan answers with.
use basuyudb.Base.{
  ◌≡◌, inl, inr, refl, subst, ℕ, Bool, true, false, not, ◌&&◌, List, ◌++◌, Bytes, codes, Option,
  Result, ok, err, if◌then◌else◌, All, Any, All-append, Bool-cases, Result-cases, eqb,
  key_not_found,
}
use basuyudb.Session.{Session, branch}
use basuyudb.Storage.Keys.{row_prefix}
use basuyudb.Storage.Mvcc.{Badger, BadgerLaws}
use basuyudb.Transactions.Engine.{Replicated, Engine, Txn, begin, get, scan}
use basuyudb.Branch.Manager.{meta_of}
use basuyudb.Branch.Manager.Effect.{row_on_branch}
use basuyudb.Executor.SetOps.{Seen}
use basuyudb.Executor.Catalog.{TableSchema}
use basuyudb.Executor.Scan.{
  ScanRow, branch_loop, parent_loop, parent_name, branch_local, fall_through, scan_rows,
}
use basuyudb.Executor.Scan.View.{
  IsRowOf, shown_live, branch_sound, branch_complete, parent_sound, through_complete,
}

module _ (unmarshal : Bytes → Option TableSchema) (B : Badger) (L : BadgerLaws B)
    (R : Replicated B.Db) where
  -- Rows fall through to the parent on a feature branch, but for the relation that is local to its branch.
  abbrev pub falls_through : Session → Bytes → Bool
  falls_through sess table = not (eqb (branch sess) (codes "main")) && not (branch_local table)

  abbrev pub here : Session → Bytes → Bytes
  here sess table = row_prefix sess.auth.namespace (branch sess) table

  abbrev pub there : Engine B R → Session → ℕ → Bytes → Bytes
  there e sess wall table =
      row_prefix sess.auth.namespace (parent_name (meta_of B R e sess.auth (branch sess) wall).1)
        table

  -- What the branch shows at a tail of a table's rows.
  abbrev pub shown : Engine B R → Txn → Session → ℕ → Bytes → Bytes → Result Bytes
  shown e t sess wall table tail = row_on_branch (get B R e t (here sess table ++ tail)) (
      if falls_through sess table
      then row_on_branch (get B R e t (there e sess wall table ++ tail)) (err key_not_found)
      else err key_not_found)

  -- The rows are those that the branch shows, each decoded.
  pub record Shows (e : Engine B R) (t : Txn) (sess : Session) (wall : ℕ) (table : Bytes)
      (ncols : ℕ) (rows : List ScanRow) : Type 0 where
    pub sound :
        All
          (λ r.
            (tail : Bytes) × (raw : Bytes) × (shown e t sess wall table tail ≡ ok raw)
            × IsRowOf ncols (here sess table) (there e sess wall table) tail raw r)
          rows
    pub complete :
        (tail raw : Bytes)
        → shown e t sess wall table tail ≡ ok raw
        → Any (IsRowOf ncols (here sess table) (there e sess wall table) tail raw) rows

  local_Shows :
      (e : Engine B R) (t : Txn) (sess : Session) (wall : ℕ) (table : Bytes) (ncols : ℕ)
      (seen : Seen) (rows : List ScanRow)
      → t.done ≡ false
      → falls_through sess table ≡ false
      → branch_loop (here sess table) ncols (scan B R e t (here sess table)) ≡ ok (seen, rows)
      → Shows e t sess wall table ncols rows
  local_Shows e t sess wall table ncols seen rows undone f h0 = record {
    sound = rw f (
        branch_sound B L R e t undone (here sess table) ncols seen rows h0 (there e sess wall table)
          (λ tail. err key_not_found));
    complete = λ tail raw h.
        elim (shown_live B L R e t undone (get B R e t (here sess table ++ tail))
          (err key_not_found) raw (rw f at h)) [
            | inl (g, l) ↦
                branch_complete B L R e t undone (here sess table) ncols seen rows h0
                  (there e sess wall table) tail raw g l
            | inr (x, o) ↦ absurd (cc)
          ];
  }

  through_Shows :
      (e : Engine B R) (t : Txn) (sess : Session) (wall : ℕ) (table : Bytes) (ncols : ℕ)
      (seen : Seen) (rows more : List ScanRow)
      → t.done ≡ false
      → falls_through sess table ≡ true
      → branch_loop (here sess table) ncols (scan B R e t (here sess table)) ≡ ok (seen, rows)
      → parent_loop (there e sess wall table) ncols seen (scan B R e t (there e sess wall table))
        ≡ ok more
      → Shows e t sess wall table ncols (rows ++ more)
  through_Shows e t sess wall table ncols seen rows more undone f h0 h1 = record {
    sound = rw f (
        All-append _ rows more
          (branch_sound B L R e t undone (here sess table) ncols seen rows h0
            (there e sess wall table)
            (λ tail.
              row_on_branch (get B R e t (there e sess wall table ++ tail)) (err key_not_found)))
          (parent_sound B L R e t undone (here sess table) ncols seen rows h0
            (there e sess wall table) more h1));
    complete = λ tail raw h.
        through_complete B L R e t undone (here sess table) ncols seen rows h0
          (there e sess wall table) more h1 tail raw (rw f at h);
  }

  -- Reading the metadata leaves what a scan sees.
  scan-meta_of :
      (e : Engine B R) (t : Txn) (sess : Session) (wall : ℕ) (p : Bytes)
      → scan B R (meta_of B R e sess.auth (branch sess) wall).0 t p ≡ scan B R e t p
  unfolding scan meta_of begin
  scan-meta_of e t sess wall p = refl

  -- In a transaction that is not finished, a table scan that does not fail answers with exactly the live rows that the session's
  -- branch shows, each decoded: a row of the branch where it has one, else, on a feature branch and for a relation that is not
  -- local to its branch, the row of the parent that the branch's metadata names (of main, where the metadata cannot be read or
  -- names none); a tombstone on the branch hides the parent's row.
  pub scan_rows-Shows :
      (e : Engine B R) (t : Txn) (sess : Session) (wall : ℕ) (table : Bytes) (ncols : ℕ)
      (rows : List ScanRow)
      → t.done ≡ false
      → (scan_rows unmarshal B R e t sess wall table ncols).1 ≡ ok rows
      → Shows e t sess wall table ncols rows
  unfolding scan_rows fall_through
  scan_rows-Shows e t sess wall table ncols rows undone h =
      elim (Result-cases (branch_loop (here sess table) ncols (scan B R e t (here sess table)))) [
        | inr (x, o) ↦ absurd (let k = rw (scan_rows, o) at h in cc)
        | inl ((seen, own), o) ↦ elim (Bool-cases (falls_through sess table)) [
          | inr f ↦
              let k : ok own ≡ ok rows = rw (scan_rows, o, f) at h in
              let same : own ≡ rows = cc in
              subst (Shows e t sess wall table ncols) same
                (local_Shows e t sess wall table ncols seen own undone f o)
          | inl f ↦
              elim (Result-cases (
                parent_loop (there e sess wall table) ncols seen
                  (scan B R e t (there e sess wall table)))) [
                    | inr (x, q) ↦ absurd (
                        let k =
                          rw
                            (
                              scan_rows,
                              o,
                              f,
                              fall_through,
                              scan-meta_of e t sess wall (there e sess wall table),
                              q,
                            )
                            at h in
                        cc)
                    | inl (more, q) ↦
                        let k : ok (own ++ more) ≡ ok rows =
                          rw
                            (
                              scan_rows,
                              o,
                              f,
                              fall_through,
                              scan-meta_of e t sess wall (there e sess wall table),
                              q,
                            )
                            at h in
                        let same : own ++ more ≡ rows = cc in
                        subst (Shows e t sess wall table ncols) same
                          (through_Shows e t sess wall table ncols seen own more undone f o q)
                  ]
        ]
      ]
