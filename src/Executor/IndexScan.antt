-- ===== src/Executor/IndexScan.antt =====
-- engine/internal/executor/index_scan.go: the bounds that a WHERE clause puts on a column, the byte range that they become,
-- and the scan of an index in that range.
-- An iterator is the list of the entries that a loop over it meets, behind a Rewind or behind a Seek to a key.
pub mod Window
pub mod Bounds
pub mod Scans
use basuyudb.Base.{
  ℕ, zero, suc, ◌||◌, get_elem?, ◌+◌, Bool, true, false, List, [], ◌∷◌, ◌++◌, Bytes, codes, Option,
  none, some, Result, ok, err, ◌>>=◌, ◌&&◌, eqb, cmp, leb, Ordering, if◌then◌else◌, length,
}
use basuyudb.Auth.Identity.{NamespaceId}
use basuyudb.Session.{Session, branch}
use basuyudb.Storage.Keys.{row_key}
use basuyudb.Storage.Mvcc.{Badger}
use basuyudb.Storage.Mvcc.History.{Entry}
use basuyudb.Storage.Iterator.{seek_forward, seek_reverse}
use basuyudb.Transactions.Engine.{
  Replicated, Engine, Txn, get, scan, seek_scan, scan_reverse, seek_scan_reverse,
}
use basuyudb.Branch.Manager.{is_tombstone}
use basuyudb.Executor.SetOps.{Datum}
use basuyudb.Executor.RowCodec.{decode_row}

-- compareSortKey
unfoldable pub compare_sort_key : Bool → Bytes → Bool → Bytes → Ordering
compare_sort_key true a true b = Ordering.eq
compare_sort_key true a false b = Ordering.gt
compare_sort_key false a true b = Ordering.lt
compare_sort_key false a false b = cmp a b

-- colBounds; an end that is `none` is open.
pub record ColBounds : Type 0 where
  pub col : Bytes
  pub lo : Option Bytes
  pub hi : Option Bytes

-- isEquality
unfoldable pub is_equality : ColBounds → Bool
is_equality b = elim b.lo [ none ↦ false | some l ↦ elim b.hi [ none ↦ false | some h ↦ eqb l h ] ]

unfoldable pub newer : Option Bytes → Option Bytes → Option Bytes
newer a none = a
newer a (some t) = some t

-- mergeBounds
unfoldable pub merge_bounds : ColBounds → ColBounds → ColBounds
unfolding newer
merge_bounds a b = record { col = a.col; lo = newer a.lo b.lo; hi = newer a.hi b.hi }

-- flipOp
unfoldable pub flip_op : Bytes → Bytes
flip_op op =
    if eqb op (codes ">")
    then codes "<"
    else if eqb op (codes ">=")
    then codes "<="
    else if eqb op (codes "<")
    then codes ">"
    else if eqb op (codes "<=")
    then codes ">="
    else op

-- The switch at the end of boundFromComparisonP.
unfoldable pub bounds_of_op : Bytes → Bytes → Bytes → Option ColBounds
bounds_of_op op col text =
    if eqb op (codes "=")
    then some (record { col = col; lo = some text; hi = some text })
    else if eqb op (codes ">")
    then some (record { col = col; lo = some text; hi = none })
    else if eqb op (codes ">=")
    then some (record { col = col; lo = some text; hi = none })
    else if eqb op (codes "<")
    then some (record { col = col; lo = none; hi = some text })
    else if eqb op (codes "<=")
    then some (record { col = col; lo = none; hi = some text })
    else none

-- A node of an expression, as the planner sees it: ColumnRef, A_Const (whether it is NULL, and its text), ParamRef, or another.
pub data Operand : Type 0 where
  column_ref : List Bytes → Operand
  a_const : Bool → Bytes → Operand
  param_ref : ℕ → Operand
  other_operand : Operand

-- colRef
pub record ColRef : Type 0 where
  pub qualifier : Bytes
  pub name : Bytes

-- The last two of the fields, behind these.
unfoldable pub last_fields : Bytes → Bytes → List Bytes → Option ColRef
last_fields before last [] =
    if eqb last (codes "*") then none else some (record { qualifier = before; name = last })
last_fields before last (f ∷ fs) = last_fields last f fs

-- asColRef
unfoldable pub as_col_ref : Operand → Option ColRef
unfolding last_fields
as_col_ref (column_ref []) = none
as_col_ref (column_ref (f ∷ fs)) = last_fields [] f fs
as_col_ref (a_const null text) = none
as_col_ref (param_ref number) = none
as_col_ref other_operand = none

-- isConstNode
unfoldable pub is_const_node : Operand → Bool
is_const_node (column_ref fields) = false
is_const_node (a_const null text) = true
is_const_node (param_ref number) = true
is_const_node other_operand = false

param_text : Option Datum → Option Bytes
param_text none = none
param_text (some p) = if p.is_null then none else some p.text

-- resolveConstText
unfoldable pub resolve_const_text : List Datum → Operand → Option Bytes
unfolding param_text
resolve_const_text params (column_ref fields) = none
resolve_const_text params (a_const null text) = if null then none else some text
resolve_const_text params (param_ref zero) = none
resolve_const_text params (param_ref (suc idx)) = param_text (get_elem? params idx)
resolve_const_text params other_operand = none

-- A_Expr: `is_op` where its Kind is AEXPR_OP.
pub record AExpr : Type 0 where
  pub is_op : Bool
  pub op : Bytes
  pub lexpr : Operand
  pub rexpr : Operand

-- The column and the constant of a comparison, and whether the constant stands on the left.
pub record Sides : Type 0 where
  pub col : ColRef
  pub const : Operand
  pub flipped : Bool

one_way : Option ColRef → Operand → Bool → Option Sides
one_way none k flipped = none
one_way (some c) k flipped =
    if is_const_node k then some (record { col = c; const = k; flipped = flipped }) else none

unfoldable pub read_sides : AExpr → Option Sides
unfolding one_way
read_sides ae = elim (one_way (as_col_ref ae.lexpr) ae.rexpr false) [
  | some s ↦ some s
  | none ↦ one_way (as_col_ref ae.rexpr) ae.lexpr true
]

-- A WHERE clause as extractColBounds sees it: a comparison, an AND, or anything else (an OR, a NOT, no clause).
mutual
  pub data Where : Type 0 where
    comparison : AExpr → Where
    conjunction : Wheres → Where
    other : Where

  pub data Wheres : Type 0 where
    end : Wheres
    also : Where → Wheres → Wheres

module _ (equal_fold : Bytes → Bytes → Bool) (alias rel_name : Bytes) (params : List Datum) where
  -- matchesRel of planIndexScan
  unfoldable pub matches_rel : Bytes → Bool
  matches_rel q = eqb q [] || equal_fold q alias || equal_fold q rel_name

  -- The bounds of a comparison with these sides.
  bounds_of_sides : Bytes → Sides → Option Bytes → Option ColBounds
  bounds_of_sides op s none = none
  bounds_of_sides op s (some text) =
      bounds_of_op (if s.flipped then flip_op op else op) s.col.name text

  sides_bounds : Bytes → Option Sides → Option ColBounds
  unfolding bounds_of_sides
  sides_bounds op none = none
  sides_bounds op (some s) =
      if matches_rel s.col.qualifier
      then bounds_of_sides op s (resolve_const_text params s.const)
      else none

  -- boundFromComparisonP
  unfoldable pub bound_from_comparison : AExpr → Option ColBounds
  unfolding sides_bounds
  bound_from_comparison ae = if ae.is_op then sides_bounds ae.op (read_sides ae) else none

  -- What is had of the column so far, `none` before the first argument, with the bounds of one more argument.
  unfoldable pub join_bounds : Option ColBounds → ColBounds → Option ColBounds
  unfolding merge_bounds
  join_bounds none b = some b
  join_bounds (some acc) b = if equal_fold acc.col b.col then some (merge_bounds acc b) else none

  unfoldable mutual
    unfolding bound_from_comparison join_bounds

    -- extractColBounds
    pub extract_col_bounds : Where → Option ColBounds
    extract_col_bounds (comparison c) = bound_from_comparison c
    extract_col_bounds (conjunction ws) = extract_loop none ws
    extract_col_bounds other = none

    -- The loop of extractColBounds over the arguments of an AND.
    pub extract_loop : Option ColBounds → Wheres → Option ColBounds
    extract_loop acc end = acc
    extract_loop acc (also w ws) = elim (extract_col_bounds w) [
      | none ↦ none
      | some b ↦ elim (join_bounds acc b) [ none ↦ none | some acc' ↦ extract_loop (some acc') ws ]
    ]

-- The ends of the scan in planIndexScan, from the encoded ends of the bounds.
unfoldable pub lo_key : Bytes → Option Bytes → Option Bytes
lo_key col_prefix none = none
lo_key col_prefix (some ev) = some (col_prefix ++ ev)

unfoldable pub hi_key : Bytes → Option Bytes → Option Bytes
hi_key col_prefix none = none
hi_key col_prefix (some ev) = some ((col_prefix ++ ev) ++ (0xFF ∷ []))

abbrev pub is_lt : Ordering → Bool
is_lt Ordering.lt = true
is_lt Ordering.eq = false
is_lt Ordering.gt = false

abbrev pub is_gt : Ordering → Bool
is_gt Ordering.lt = false
is_gt Ordering.eq = false
is_gt Ordering.gt = true

-- bytes.Compare(key, lo) < 0 and bytes.Compare(key, hi) > 0, for ends that may be open
unfoldable pub below : Option Bytes → Bytes → Bool
below none key = false
below (some lo) key = is_lt (cmp key lo)

unfoldable pub above : Option Bytes → Bytes → Bool
above none key = false
above (some hi) key = is_gt (cmp key hi)

-- Where the scan starts: `Rewind` at an open edge, else `Seek` to it.
unfoldable pub seek_edge : List Entry → (Bytes → List Entry) → Option Bytes → List Entry
seek_edge rewound sought none = rewound
seek_edge rewound sought (some k) = sought k

unfoldable pub limit_reached : Option ℕ → ℕ → Bool
limit_reached none n = false
limit_reached (some l) n = leb l n

-- The loop of scanIndexRange: `stop` is the test of the far end, `fetch` reads the row of an entry.
unfoldable pub range_loop :
    (Bytes → Bool)
    → (Bytes → Result (Option (List Datum)))
    → Option ℕ
    → ℕ
    → List Entry
    → Result (List (List Datum))
unfolding limit_reached
range_loop stop fetch limit n [] = ok []
range_loop stop fetch limit n ((key, pk) ∷ es) =
    let skipped = range_loop stop fetch limit n es in
    let next = range_loop stop fetch limit (n + 1) es in
    if stop key
    then ok []
    else (fetch pk >>= λ o. elim o [
      | none ↦ skipped
      | some cells ↦
          if limit_reached limit (n + 1)
          then ok (cells ∷ [])
          else (next >>= λ out. ok (cells ∷ out))
    ])

module _ (B : Badger) (R : Replicated B.Db) (e : Engine B R) (t : Txn) (sess : Session)
    (table : Bytes) (ncols : ℕ) where
  fetched : Result Bytes → Result (Option (List Datum))
  fetched (err x) = ok none
  fetched (ok raw) =
      if is_tombstone raw then ok none else (decode_row raw ncols >>= λ cells. ok (some cells))

  -- The row of an index entry: no live row is not an error.
  unfoldable pub fetch_row : Bytes → Result (Option (List Datum))
  unfolding fetched is_tombstone
  fetch_row pk = fetched (get B R e t (row_key sess.auth.namespace (branch sess) table pk))

  -- pkPointGet, where a row is one list of cells
  unfoldable pub pk_point_get : Bytes → Result (List (List Datum))
  unfolding fetch_row
  pk_point_get pk_text =
      fetch_row pk_text >>= λ o. ok (elim o [ none ↦ [] | some cells ↦ cells ∷ [] ])

  -- scanIndexRange
  unfoldable pub scan_index_range :
      Bytes → Option Bytes → Option Bytes → Bool → Option ℕ → Result (List (List Datum))
  unfolding range_loop fetch_row below above seek_edge
  scan_index_range col_prefix lo hi desc limit =
      if desc
      then range_loop (below lo) fetch_row limit 0
          (seek_edge (scan_reverse B R e t col_prefix) (seek_scan_reverse B R e t col_prefix) hi)
      else range_loop (above hi) fetch_row limit 0
          (seek_edge (scan B R e t col_prefix) (seek_scan B R e t col_prefix) lo)
