-- ===== src/Executor/IntArith.antt =====
-- engine/internal/executor/eval.go: the arithmetic of integers, in Go's int64.
-- `strconv.ParseInt` and `strconv.FormatInt` in base 10 are the functions `parse_int` and `format_int`.
pub mod Range
use basuyudb.Base.{
  ℕ, ◌+◌, ◌-◌, ◌*◌, ◌/◌, ◌%◌, ◌^◌, Bool, true, false, Bytes, codes, [], Option, none, some, Result,
  ok, err, ◌>>=◌, eqb, leb, ◌==◌, if◌then◌else◌, Error, division_by_zero, invalid_number,
  invalid_integer,
}
use basuyudb.Base.Int.{ℤ, pos, negsuc, pos_part, neg_part, sub_ℕ, to_uint64, of_uint64}

-- The int64 that remains of an integer's 64 low bits.
abbrev pub wrap : ℕ → ℤ
wrap n = of_uint64 (n % 2 ^ 64)

unfoldable pub add_i64 : ℤ → ℤ → ℤ
add_i64 a b = wrap (to_uint64 a + to_uint64 b)

unfoldable pub sub_i64 : ℤ → ℤ → ℤ
sub_i64 a b = wrap (to_uint64 a + 2 ^ 64 - to_uint64 b)

unfoldable pub mul_i64 : ℤ → ℤ → ℤ
mul_i64 a b = wrap (to_uint64 a * to_uint64 b)

abbrev pub abs : ℤ → ℕ
abs a = pos_part a + neg_part a

-- The integer with a magnitude and the sign that two integers have together.
signed : ℤ → ℤ → ℕ → ℤ
signed (pos a) (pos b) q = pos q
signed (negsuc a) (negsuc b) q = pos q
signed (pos a) (negsuc b) q = sub_ℕ 0 q
signed (negsuc a) (pos b) q = sub_ℕ 0 q

-- Division rounds towards zero; the one quotient that does not fit, of -2^63 by -1, wraps.
unfoldable pub quo_i64 : ℤ → ℤ → ℤ
unfolding signed
quo_i64 a b = wrap (to_uint64 (signed a b (abs a / abs b)))

-- The remainder has the dividend's sign.
unfoldable pub rem_i64 : ℤ → ℤ → ℤ
rem_i64 (pos a) b = pos (a % abs b)
rem_i64 (negsuc a) b = sub_ℕ 0 ((a + 1) % abs b)

abbrev pub is_zero : ℤ → Bool
is_zero b = abs b == 0

-- The switch of arith. An operator that is none of these leaves the result 0.
unfoldable pub int_op : Bytes → ℤ → ℤ → Result ℤ
unfolding add_i64 sub_i64 mul_i64 quo_i64 rem_i64
int_op op a b =
    if eqb op (codes "+")
    then ok (add_i64 a b)
    else if eqb op (codes "-")
    then ok (sub_i64 a b)
    else if eqb op (codes "*")
    then ok (mul_i64 a b)
    else if eqb op (codes "/")
    then (if is_zero b then err division_by_zero else ok (quo_i64 a b))
    else if eqb op (codes "%")
    then (if is_zero b then err division_by_zero else ok (rem_i64 a b))
    else ok (pos 0)

-- strconv.ParseInt with the error of its caller
parsed : Error → Option ℤ → Result ℤ
parsed e none = err e
parsed e (some v) = ok v

module _ (parse_int : Bytes → Option ℤ) (format_int : ℤ → Bytes) where
  -- arith, on integers
  unfoldable pub arith_int : Bytes → Bytes → Bytes → Result Bytes
  unfolding int_op parsed
  arith_int op a b = parsed invalid_number (parse_int a) >>= λ ai.
      parsed invalid_number (parse_int b) >>= λ bi. int_op op ai bi >>= λ r. ok (format_int r)

  -- negate, on integers
  unfoldable pub negate_int : Bytes → Result Bytes
  unfolding parsed sub_i64
  negate_int v = parsed invalid_integer (parse_int v) >>= λ i. ok (format_int (sub_i64 (pos 0) i))
