-- ===== src/Examples/Branching.antt =====
-- A branch that is merged, and a table that is scanned on it.
use basuyudb.Base.{
  arith, put_uint64, get_uint64, put_uint32, get_uint32, cmp, has_prefix, ◌≡◌, refl, false, List,
  [], ◌∷◌, ◌++◌, Bytes, codes, Option, none, some, ok, eqb,
}
use basuyudb.Session.{Session, branch}
use basuyudb.Storage.Keys.{row_key, branch_meta_key, branch_segment, row_prefix}
use basuyudb.Storage.Mvcc.History.{Version, newest}
use basuyudb.Storage.Mvcc.{txn_get, latest_version}
use basuyudb.Storage.Iterator.{drain, new_iterator, rewind, seek_forward}
use basuyudb.Transactions.Overlay.{newest_mutation, buffered_for_prefix}
use basuyudb.Storage.Memory.{memory, latest_ts, gather, all_keys}
use basuyudb.Storage.Memory.Laws.{memory_laws}
use basuyudb.Transactions.Engine.{
  Engine, new_engine, begin, get, scan, buffer, commit, fill_batch, has_conflict,
}
use basuyudb.Transactions.Engine.Isolation.{new_engine-IsWellFormed}
use basuyudb.Branch.Prefix.{Meta, encode_meta, decode_meta, data_root, after_root, last_index}
use basuyudb.Branch.Manager.{
  meta_of, merge, exists, merge_checked, merge_from, collect_ops, is_tombstone,
}
use basuyudb.Branch.Manager.Effect.{row_on_branch, parent_root, branch_root}
use basuyudb.Branch.Manager.Merges.{read, merge-reads}
use basuyudb.Executor.SetOps.{Datum}
use basuyudb.Executor.RowCodec.{
  encode_row, decode_row, decode_cells, decode_cell, encode_cells, encode_cell, cell_value,
}
use basuyudb.Executor.Catalog.{TableSchema}
use basuyudb.Executor.Scan.{
  ScanRow, scan_rows, branch_loop, parent_loop, parent_name, branch_local, key_tail,
}
use basuyudb.Executor.Scan.Shown.{Shows, scan_rows-Shows}
use basuyudb.Examples.{solo, session, acme}

abbrev dev : Meta
dev = record { parent = codes "main"; created_at_hlc = 7 }

abbrev cell : Bytes → List Datum
cell t = record { is_null = false; text = t } ∷ []

-- Row 1 on main, row 2 on the branch.
abbrev versions : List Version
versions =
    record {
      key = row_key acme (codes "dev") (codes "t") (codes "2");
      ts = 3;
      value = some (encode_row (cell (codes "two")));
    }
    ∷ record {
      key = row_key acme (codes "main") (codes "t") (codes "1");
      ts = 2;
      value = some (encode_row (cell (codes "one")));
    }
    ∷ record { key = branch_meta_key acme (codes "dev"); ts = 1; value = some (encode_meta dev) }
    ∷ []

abbrev branched : Engine memory solo
branched = new_engine memory solo versions 1 none

abbrev on_dev : Session
on_dev = record {
  auth = session;
  conn_id = 1;
  params = λ k. none;
  override_branch = codes "dev";
  settings = none;
}

meta_found : (meta_of memory solo branched session (codes "dev") 90).1 ≡ ok dev
unfolding meta_of get begin newest_mutation txn_get newest new_engine eqb row_key branch_meta_key
    branch_segment latest_ts decode_meta encode_meta put_uint64 get_uint64
meta_found = refl

one_merged :
    (merge memory solo branched session (codes "dev") 60 70 80).1
    ≡ ok (record { rows_merged = 1; rows_deleted = 0; conflicts = [] })
unfolding merge meta_of exists merge_checked merge_from collect_ops after_root last_index
    is_tombstone get begin newest_mutation txn_get newest new_engine eqb row_key branch_meta_key
    branch_segment latest_ts decode_meta encode_meta put_uint64 get_uint64 scan cmp has_prefix
    put_uint32 data_root drain new_iterator rewind seek_forward row_prefix buffered_for_prefix
    latest_version buffer commit fill_batch has_conflict encode_row gather all_keys
one_merged = refl

abbrev scanned_rows : List ScanRow
scanned_rows =
    record { key = row_key acme (codes "dev") (codes "t") (codes "2"); cells = cell (codes "two") }
    ∷ record {
      key = row_key acme (codes "main") (codes "t") (codes "1");
      cells = cell (codes "one");
    }
    ∷ []

abbrev no_schema : Bytes → Option TableSchema
no_schema raw = none

both_scanned :
    (scan_rows no_schema memory solo branched
      (begin memory solo branched session 60).1
      on_dev
      70
      (codes "t")
      1).1
    ≡ ok scanned_rows
unfolding scan_rows meta_of branch branch_loop parent_loop parent_name branch_local key_tail
    decode_row encode_row is_tombstone get_uint32 get begin newest_mutation txn_get newest
    new_engine eqb row_key branch_meta_key branch_segment latest_ts decode_meta encode_meta
    put_uint64 get_uint64 scan cmp has_prefix put_uint32 data_root drain new_iterator rewind
    seek_forward row_prefix buffered_for_prefix gather all_keys decode_cells decode_cell
    encode_cells encode_cell cell_value
both_scanned = refl

merge-reads_example :
    read memory memory_laws solo
      (merge memory solo branched session (codes "dev") 60 70 80).0
      session
      90
      (parent_root memory memory_laws solo session dev ++ codes "t/x")
    ≡ row_on_branch
        (read memory memory_laws solo branched session 90
          (branch_root memory memory_laws solo session (codes "dev") ++ codes "t/x"))
        (read memory memory_laws solo branched session 90
          (parent_root memory memory_laws solo session dev ++ codes "t/x"))
unfolding latest_ts
merge-reads_example =
    merge-reads memory memory_laws solo branched session (codes "dev") dev
      (record { rows_merged = 1; rows_deleted = 0; conflicts = [] }) 60 70 80 90 (codes "t/x")
      (new_engine-IsWellFormed memory memory_laws solo versions 1 (omega arith)) meta_found
      one_merged

scan_rows-Shows_example :
    Shows no_schema memory memory_laws solo branched
      (begin memory solo branched session 60).1
      on_dev
      70
      (codes "t")
      1
      scanned_rows
unfolding begin
scan_rows-Shows_example =
    scan_rows-Shows no_schema memory memory_laws solo branched
      (begin memory solo branched session 60).1 on_dev 70 (codes "t") 1 scanned_rows refl
      both_scanned
