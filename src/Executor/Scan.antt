-- ===== src/Executor/Scan.antt =====
-- engine/internal/executor/scan.go: the rows of a relation on the session's branch, copied on write from the
-- parent branch. `unmarshal` is json.Unmarshal of a schema.
pub mod Rows
pub mod View
pub mod Shown
use basuyudb.Base.{
  ℕ, ◌+◌, Bool, true, false, not, List, [], ◌∷◌, ◌++◌, map, Bytes, codes, Option, none, some,
  Result, ok, err, ◌>>=◌, ◌&&◌, eqb, if◌then◌else◌, ltb, length, drop,
}
use basuyudb.Session.{Session, branch}
use basuyudb.Storage.Keys.{row_prefix}
use basuyudb.Storage.Mvcc.{Badger}
use basuyudb.Storage.Mvcc.History.{Entry}
use basuyudb.Transactions.Engine.{Replicated, Engine, Txn, scan}
use basuyudb.Branch.Prefix.{Meta}
use basuyudb.Branch.Manager.{is_tombstone, meta_of}
use basuyudb.Executor.SetOps.{Datum, Seen, nothing_seen, set_seen}
use basuyudb.Executor.RowCodec.{decode_row}
use basuyudb.Executor.Catalog.{ColMeta, TableSchema, load_schema}

-- scanRow
pub record ScanRow : Type 0 where
  pub key : Bytes
  pub cells : List Datum

-- scanned
pub record Scanned : Type 0 where
  pub schema : TableSchema
  pub alias : Bytes
  pub rows : List ScanRow

abbrev pub oid_text : ℕ
oid_text = 25

abbrev pub oid_int8 : ℕ
oid_int8 = 20

-- A column of which only the name and the type are given.
plain_col : Bytes → ℕ → ColMeta
plain_col name oid = record {
  name = name;
  type_oid = oid;
  not_null = false;
  pk = false;
  unique = false;
  default = none;
  check = [];
  fk_table = [];
  fk_column = [];
  fk_on_delete = [];
  fk_on_update = [];
  fk_cols = [];
  fk_name = [];
  fk_deferrable = false;
  fk_initially_deferred = false;
  generated = false;
  generated_expr = [];
  composite_type = [];
}

-- OTelSpansTable
abbrev pub otel_spans_table : Bytes
otel_spans_table = codes "otel_spans"

-- otelSpansSchema
unfoldable pub otel_spans_schema : TableSchema
unfolding plain_col
otel_spans_schema = record {
  name = otel_spans_table;
  cols =
      plain_col (codes "trace_id") oid_text
      ∷ plain_col (codes "span_id") oid_text
      ∷ plain_col (codes "parent_span_id") oid_text
      ∷ plain_col (codes "service_name") oid_text
      ∷ plain_col (codes "span_name") oid_text
      ∷ plain_col (codes "duration_ms") oid_int8
      ∷ plain_col (codes "status") oid_text
      ∷ plain_col (codes "started_at") oid_text
      ∷ plain_col (codes "attributes") oid_text
      ∷ [];
  pk_index = none;
  rls_enabled = false;
  rls_forced = false;
  policies = [];
}

-- OTelSpanColumns
unfoldable pub otel_span_columns : List Bytes
unfolding otel_spans_schema
otel_span_columns = map (λ (c : ColMeta). c.name) otel_spans_schema.cols

-- branchLocal
unfoldable pub branch_local : Bytes → Bool
branch_local table = eqb table otel_spans_table

-- keyTail
unfoldable pub key_tail : Bytes → Bytes → Bytes
key_tail key prefix = if ltb (length key) (length prefix) then key else drop (length prefix) key

-- The loop over the branch's rows: the tails that were seen, and the rows to emit.
unfoldable pub branch_loop : Bytes → ℕ → List Entry → Result (Seen × List ScanRow)
unfolding is_tombstone
branch_loop prefix ncols [] = ok (nothing_seen, [])
branch_loop prefix ncols ((key, raw) ∷ es) =
    let rest = branch_loop prefix ncols es >>= λ r. ok (set_seen (key_tail key prefix) r.0, r.1) in
    if is_tombstone raw
    then rest
    else (decode_row raw ncols >>= λ cells.
        rest >>= λ r. ok (r.0, record { key = key; cells = cells } ∷ r.1))

-- The loop over the parent's rows.
unfoldable pub parent_loop : Bytes → ℕ → Seen → List Entry → Result (List ScanRow)
unfolding is_tombstone
parent_loop prefix ncols seen [] = ok []
parent_loop prefix ncols seen ((key, raw) ∷ es) =
    let rest = parent_loop prefix ncols seen es in
    if seen (key_tail key prefix)
    then rest
    else if is_tombstone raw
    then rest
    else (decode_row raw ncols >>= λ cells.
        rest >>= λ rows. ok (record { key = key; cells = cells } ∷ rows))

-- The parent that the rows fall through to: main, unless the branch's metadata names another.
unfoldable pub parent_name : Result Meta → Bytes
parent_name (err x) = codes "main"
parent_name (ok meta) = if eqb meta.parent [] then codes "main" else meta.parent

module _ (unmarshal : Bytes → Option TableSchema) (B : Badger) (R : Replicated B.Db) where
  -- resolveSchema
  unfoldable pub resolve_schema : Engine B R → Txn → Session → Bytes → Result TableSchema
  unfolding load_schema
  resolve_schema e t sess table =
      if eqb table otel_spans_table
      then ok otel_spans_schema
      else load_schema B R unmarshal e t sess table

  -- The branch's rows and, behind them, those of the parent under a prefix.
  unfoldable pub fall_through :
      Engine B R → Txn → Bytes → ℕ → Seen × List ScanRow → Result (List ScanRow)
  unfolding parent_loop
  fall_through e t prefix ncols (seen, rows) =
      parent_loop prefix ncols seen (scan B R e t prefix) >>= λ more. ok (rows ++ more)

  -- scanTable, behind the schema
  unfoldable pub scan_rows :
      Engine B R → Txn → Session → ℕ → Bytes → ℕ → Engine B R × Result (List ScanRow)
  unfolding branch_loop fall_through parent_name branch_local
  scan_rows e t sess wall table ncols =
      let here = row_prefix sess.auth.namespace (branch sess) table in
      elim (branch_loop here ncols (scan B R e t here)) [
        | err x ↦ (e, err x)
        | ok r ↦
            if not (eqb (branch sess) (codes "main")) && not (branch_local table)
            then (let (e', meta) = meta_of B R e sess.auth (branch sess) wall in
                (
                  e',
                  fall_through e' t (row_prefix sess.auth.namespace (parent_name meta) table) ncols
                      r,
                ))
            else (e, ok r.1)
      ]

  -- scanTable
  unfoldable pub scan_table :
      Engine B R → Txn → Session → ℕ → Bytes → Bytes → Engine B R × Result Scanned
  unfolding scan_rows resolve_schema
  scan_table e t sess wall table alias = elim (resolve_schema e t sess table) [
    | err x ↦ (e, err x)
    | ok sch ↦
        let (e', r) = scan_rows e t sess wall table (length sch.cols) in
        (
          e',
          r >>= λ rows.
              ok (record {
                schema = sch;
                alias = if eqb alias [] then table else alias;
                rows = rows;
              }),
        )
  ]
