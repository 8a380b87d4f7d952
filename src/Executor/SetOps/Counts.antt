-- ===== src/Executor/SetOps/Counts.antt =====
-- How often each row key stands in the result of a set operation.
use basuyudb.Base.{
  ◌-◌, ◌≡◌, true, false, List, [], ◌∷◌, ◌++◌, append_assoc, Bytes, eqb_iff, ltb, if◌then◌else◌,
  ◌||◌, arith, min,
}
use basuyudb.Executor.SetOps.{
  Row, datum_row_key, Counts, Seen, set_seen, decrement, nothing_seen, count_rows, intersect_loop,
  intersect_rows, except_loop, except_rows, dedup_loop, dedup_rows,
}

intersect_all :
    (rc : Counts) (seen : Seen) (left : List Row) (k : Bytes)
    → count_rows (intersect_loop true rc seen left) k ≡ min (count_rows left k) (rc k)
unfolding intersect_loop count_rows
intersect_all rc seen [] k = omega arith
intersect_all rc seen (r ∷ left) k = ground (
  arith,
  eqb_iff (datum_row_key r) k,
  intersect_all rc seen left k,
  intersect_all (decrement (datum_row_key r) rc) seen left k,
)

intersect_distinct :
    (rc : Counts) (seen : Seen) (left : List Row) (k : Bytes)
    → count_rows (intersect_loop false rc seen left) k
      ≡ (if seen k then 0 else min 1 (min (count_rows left k) (rc k)))
unfolding intersect_loop count_rows
intersect_distinct rc seen [] k = ground arith
intersect_distinct rc seen (r ∷ left) k = ground (
  arith,
  eqb_iff (datum_row_key r) k,
  intersect_distinct rc seen left k,
  intersect_distinct rc (set_seen (datum_row_key r) seen) left k,
)

except_all :
    (rc : Counts) (seen : Seen) (left : List Row) (k : Bytes)
    → count_rows (except_loop true rc seen left) k ≡ count_rows left k - rc k
unfolding except_loop count_rows
except_all rc seen [] k = omega arith
except_all rc seen (r ∷ left) k = ground (
  arith,
  eqb_iff (datum_row_key r) k,
  except_all rc seen left k,
  except_all (decrement (datum_row_key r) rc) seen left k,
)

except_distinct :
    (rc : Counts) (seen : Seen) (left : List Row) (k : Bytes)
    → count_rows (except_loop false rc seen left) k
      ≡ (if seen k || ltb 0 (rc k) then 0 else min 1 (count_rows left k))
unfolding except_loop count_rows
except_distinct rc seen [] k = ground arith
except_distinct rc seen (r ∷ left) k = ground (
  arith,
  eqb_iff (datum_row_key r) k,
  except_distinct rc seen left k,
  except_distinct rc (set_seen (datum_row_key r) seen) left k,
)

dedup_counts :
    (seen : Seen) (rows : List Row) (k : Bytes)
    → count_rows (dedup_loop seen rows) k ≡ (if seen k then 0 else min 1 (count_rows rows k))
unfolding dedup_loop count_rows
dedup_counts seen [] k = ground arith
dedup_counts seen (r ∷ rows) k = ground (
  arith,
  eqb_iff (datum_row_key r) k,
  dedup_counts seen rows k,
  dedup_counts (set_seen (datum_row_key r) seen) rows k,
)

-- Of each row key, INTERSECT ALL leaves the smaller of the two inputs' numbers of rows with it, and
-- INTERSECT one row if both inputs have one and none otherwise.
pub intersect_rows-count :
    (left right : List Row) (k : Bytes)
    → (count_rows (intersect_rows left right true) k ≡ min (count_rows left k) (count_rows right k))
      × (count_rows (intersect_rows left right false) k
          ≡ min 1 (min (count_rows left k) (count_rows right k)))
unfolding intersect_rows
intersect_rows-count left right k = (
  intersect_all (count_rows right) nothing_seen left k,
  intersect_distinct (count_rows right) nothing_seen left k,
)

-- Of each row key, EXCEPT ALL leaves the left input's number of rows with it less the right input's,
-- and EXCEPT one row if the left input alone has one and none otherwise.
pub except_rows-count :
    (left right : List Row) (k : Bytes)
    → (count_rows (except_rows left right true) k ≡ count_rows left k - count_rows right k)
      × (count_rows (except_rows left right false) k
          ≡ (if ltb 0 (count_rows right k) then 0 else min 1 (count_rows left k)))
unfolding except_rows
except_rows-count left right k = (
  except_all (count_rows right) nothing_seen left k,
  except_distinct (count_rows right) nothing_seen left k,
)

-- The removal of duplicates leaves one row of each row key that the input has, and no other.
pub dedup_rows-count :
    (rows : List Row) (k : Bytes) → count_rows (dedup_rows rows) k ≡ min 1 (count_rows rows k)
unfolding dedup_rows
dedup_rows-count rows k = dedup_counts nothing_seen rows k

-- Two rows that differ may have one key, so a set operation takes them for one row: the text of a
-- column is not set off from what follows it.
pub row_key_collision :
    (a b : Bytes)
    → datum_row_key
        (record { is_null = false; text = a } ∷ record { is_null = false; text = b } ∷ [])
      ≡ datum_row_key (record { is_null = false; text = a ++ (b'|' ∷ 0x01 ∷ b) } ∷ [])
unfolding datum_row_key
row_key_collision a b = simp append_assoc
