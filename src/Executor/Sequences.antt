-- ===== src/Executor/Sequences.antt =====
-- engine/internal/executor/sequences.go: the sequences of SERIAL columns, in Go's int64.
-- The map of values is a function, `none` a name that is not in it; the lock makes each call one step.
pub mod Calls
use basuyudb.Base.{
  ◌+◌, ◌-◌, ◌^◌, ◌%◌, Bytes, Option, none, some, Result, ok, err, eqb, if◌then◌else◌, no_sequence,
}
use basuyudb.Base.Int.{ℤ, pos}
use basuyudb.Executor.IntArith.{add_i64, sub_i64}

abbrev pub SeqVals : Type 0
SeqVals = Bytes → Option ℤ

abbrev pub set_val : Bytes → ℤ → SeqVals → SeqVals
set_val name v vals k = if eqb name k then some v else vals k

-- The value at a name, 0 if it is not in the map.
abbrev pub val_or_zero : Option ℤ → ℤ
val_or_zero none = pos 0
val_or_zero (some v) = v

-- SeqNextVal
unfoldable pub seq_next_val : SeqVals → Bytes → SeqVals × ℤ
unfolding add_i64
seq_next_val vals name =
    let v = add_i64 (val_or_zero (vals name)) (pos 1) in (set_val name v vals, v)

-- SeqCurrVal
unfoldable pub seq_curr_val : SeqVals → Bytes → Result ℤ
seq_curr_val vals name = elim (vals name) [ none ↦ err no_sequence | some v ↦ ok v ]

-- SeqSetVal
unfoldable pub seq_set_val : SeqVals → Bytes → ℤ → SeqVals × ℤ
seq_set_val vals name val = (set_val name val vals, val)

-- SeqInit
unfoldable pub seq_init : SeqVals → Bytes → ℤ → SeqVals
unfolding sub_i64
seq_init vals name start = elim (vals name) [
  | none ↦ set_val name (sub_i64 start (pos 1)) vals
  | some v ↦ vals
]
