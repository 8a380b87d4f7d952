-- ===== src/Executor/SetOps.antt =====
-- engine/internal/executor/setop.go and dedupRows of join.go: the set operations on materialized rows.
-- A map from row keys is a function; a missing key counts 0.
pub mod Counts
use basuyudb.Base.{
  ℕ, ◌+◌, ◌-◌, Bool, true, false, List, [], ◌∷◌, ◌++◌, Bytes, codes, eqb, ltb, if◌then◌else◌, ◌||◌,
}

-- Datum
pub record Datum : Type 0 where
  pub is_null : Bool
  pub text : Bytes

abbrev pub Row : Type 0
Row = List Datum

-- datumRowKey
unfoldable pub datum_row_key : Row → Bytes
datum_row_key [] = []
datum_row_key (d ∷ row) =
    let rest = datum_row_key row in
    if d.is_null then 0x00 ∷ b'N' ∷ b'|' ∷ rest else 0x01 ∷ (d.text ++ (b'|' ∷ rest))

abbrev pub Counts : Type 0
Counts = Bytes → ℕ

abbrev pub Seen : Type 0
Seen = Bytes → Bool

abbrev pub no_counts : Counts
no_counts k = 0

abbrev pub nothing_seen : Seen
nothing_seen k = false

abbrev pub set_seen : Bytes → Seen → Seen
set_seen key seen k = if eqb key k then true else seen k

abbrev pub decrement : Bytes → Counts → Counts
decrement key rc k = if eqb key k then rc k - 1 else rc k

-- The loop that counts the right rows.
unfoldable pub count_rows : List Row → Counts
count_rows [] k = 0
count_rows (r ∷ rows) k =
    if eqb (datum_row_key r) k then count_rows rows k + 1 else count_rows rows k

-- The loop of intersectRows with its two maps.
unfoldable pub intersect_loop : Bool → Counts → Seen → List Row → List Row
intersect_loop every rc seen [] = []
intersect_loop every rc seen (r ∷ left) =
    let k = datum_row_key r in
    let skipped = intersect_loop every rc seen left in
    let counted = r ∷ intersect_loop every (decrement k rc) seen left in
    let marked = r ∷ intersect_loop every rc (set_seen k seen) left in
    if ltb 0 (rc k)
    then (if every then counted else (if seen k then skipped else marked))
    else skipped

unfoldable pub intersect_rows : List Row → List Row → Bool → List Row
intersect_rows left right every = intersect_loop every (count_rows right) nothing_seen left

-- The loop of exceptRows.
unfoldable pub except_loop : Bool → Counts → Seen → List Row → List Row
except_loop every rc seen [] = []
except_loop every rc seen (r ∷ left) =
    let k = datum_row_key r in
    let skipped = except_loop every rc seen left in
    let cancelled = except_loop every (decrement k rc) seen left in
    let kept = r ∷ skipped in
    let marked = r ∷ except_loop every rc (set_seen k seen) left in
    if every
    then (if ltb 0 (rc k) then cancelled else kept)
    else (if ltb 0 (rc k) || seen k then skipped else marked)

unfoldable pub except_rows : List Row → List Row → Bool → List Row
except_rows left right every = except_loop every (count_rows right) nothing_seen left

-- The loop of dedupRows, whose key is built as datumRowKey's.
unfoldable pub dedup_loop : Seen → List Row → List Row
dedup_loop seen [] = []
dedup_loop seen (r ∷ rows) =
    let k = datum_row_key r in
    let skipped = dedup_loop seen rows in
    let marked = r ∷ dedup_loop (set_seen k seen) rows in if seen k then skipped else marked

unfoldable pub dedup_rows : List Row → List Row
dedup_rows rows = dedup_loop nothing_seen rows
