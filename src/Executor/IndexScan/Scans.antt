-- ===== src/Executor/IndexScan/Scans.antt =====
-- A scan of an index on a transaction.
use basuyudb.Base.{
  ◌≡◌, refl, ◌∷◌, ◌++◌, arith, ℕ, true, false, Bytes, [], Option, none, some, ap, ◌∙◌, has_prefix,
}
use basuyudb.Session.{Session}
use basuyudb.Storage.Mvcc.{Badger, BadgerLaws}
use basuyudb.Transactions.Engine.{Replicated, Engine, Txn, scan, seek_scan}
use basuyudb.Transactions.Engine.Scans.{scan-get}
use basuyudb.Transactions.Engine.Seeking.{seek_scan_lem}
use basuyudb.Executor.IndexScan.{fetch_row, scan_index_range, lo_key, seek_edge, range_loop, above}
use basuyudb.Executor.IndexScan.Window.{in_window, skip_to, select, fetch_all, range_loop-select}

-- The end that planIndexScan makes has the column's prefix.
has_prefix-append : (p s : Bytes) → has_prefix (p ++ s) p ≡ true
unfolding has_prefix
has_prefix-append [] s = refl
has_prefix-append (c ∷ p) s = ground (arith, has_prefix-append p s)

module _ (B : Badger) (L : BadgerLaws B) (R : Replicated B.Db) where
  edge_entries :
      (e : Engine B R) (t : Txn) (col_prefix : Bytes) (lo : Option Bytes)
      → seek_edge (scan B R e t col_prefix) (seek_scan B R e t col_prefix) (lo_key col_prefix lo)
        ≡ skip_to (lo_key col_prefix lo) (scan B R e t col_prefix)
  unfolding seek_edge lo_key
  edge_entries e t col_prefix none = refl
  edge_entries e t col_prefix (some ev) =
      seek_scan_lem B L R e t col_prefix (col_prefix ++ ev) (has_prefix-append col_prefix ev)

  -- scanIndexRange, forward and with no limit, in a transaction that is not finished, from the lower end that planIndexScan
  -- makes of an encoded value, if there is one, to any upper end: it answers with the live rows of exactly the index entries
  -- that the transaction sees (its own writes included) and whose keys lie between the two ends, in the order of the
  -- entries' keys; the seek to the lower end and the stop behind the upper end lose none.
  pub scan_index_range-select :
      (e : Engine B R) (t : Txn) (sess : Session) (table col_prefix : Bytes) (ncols : ℕ)
      (lo hi : Option Bytes)
      → t.done ≡ false
      → scan_index_range B R e t sess table ncols col_prefix (lo_key col_prefix lo) hi false none
        ≡ fetch_all
            (fetch_row B R e t sess table ncols)
            (select (in_window (lo_key col_prefix lo) hi) (scan B R e t col_prefix))
  unfolding scan_index_range
  scan_index_range-select e t sess table col_prefix ncols lo hi undone =
      ap (range_loop (above hi) (fetch_row B R e t sess table ncols) none 0)
        (edge_entries e t col_prefix lo)
      ∙ range_loop-select (fetch_row B R e t sess table ncols) (lo_key col_prefix lo) hi
          (scan B R e t col_prefix) (scan-get B L R e t col_prefix [] undone).0
