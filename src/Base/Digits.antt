-- ===== src/Base/Digits.antt =====
-- The byte order of big-endian numbers is the order of the numbers.
use basuyudb.Base.{
  ℕ, ◌+◌, ◌*◌, ◌/◌, ◌%◌, ◌^◌, ◌≤◌, ◌<◌, ◌≡◌, [], ◌∷◌, Bytes, cmp, put_uint64, compare, Ordering,
  arith,
}

-- Two numbers with a high digit and a rest below `m` compare by the digit first.
abbrev by_digit : Ordering → Ordering → Ordering
by_digit Ordering.lt o = Ordering.lt
by_digit Ordering.eq o = o
by_digit Ordering.gt o = Ordering.gt

mul_gap : (m x y : ℕ) → x < y → x * m + m ≤ y * m
mul_gap m x y h = grind arith

compare_digits :
    (m x y r s : ℕ)
    → r < m
    → s < m
    → compare (x * m + r) (y * m + s) ≡ by_digit (compare x y) (compare r s)
compare_digits m x y r s hr hs = ground (arith, mul_gap m x y, mul_gap m y x)

-- One more byte in front of two rests that compare as numbers below `m`, where the bytes and the
-- rests make up `a` and `b`.
cmp_step :
    (m x y r s a b : ℕ) (xs ys : Bytes)
    → r < m
    → s < m
    → x * m + r ≡ a
    → y * m + s ≡ b
    → cmp xs ys ≡ compare r s
    → cmp (x ∷ xs) (y ∷ ys) ≡ compare a b
unfolding cmp
cmp_step m x y r s a b xs ys hr hs p q e =
    rw (← p, ← q) (ground (arith, compare_digits m x y r s hr hs, e))

-- The last bytes of a number, one more at a time.
abbrev last1 : ℕ → Bytes
last1 v = (v % 256) ∷ []

abbrev last2 : ℕ → Bytes
last2 v = (v / 2 ^ 8 % 256) ∷ last1 v

abbrev last3 : ℕ → Bytes
last3 v = (v / 2 ^ 16 % 256) ∷ last2 v

abbrev last4 : ℕ → Bytes
last4 v = (v / 2 ^ 24 % 256) ∷ last3 v

abbrev last5 : ℕ → Bytes
last5 v = (v / 2 ^ 32 % 256) ∷ last4 v

abbrev last6 : ℕ → Bytes
last6 v = (v / 2 ^ 40 % 256) ∷ last5 v

abbrev last7 : ℕ → Bytes
last7 v = (v / 2 ^ 48 % 256) ∷ last6 v

module _ (a b : ℕ) where
  cmp1 : cmp (last1 a) (last1 b) ≡ compare (a % 2 ^ 8) (b % 2 ^ 8)
  unfolding cmp
  cmp1 = ground arith

  cmp2 : cmp (last2 a) (last2 b) ≡ compare (a % 2 ^ 16) (b % 2 ^ 16)
  cmp2 =
      cmp_step (2 ^ 8) (a / 2 ^ 8 % 256) (b / 2 ^ 8 % 256) (a % 2 ^ 8) (b % 2 ^ 8) (a % 2 ^ 16)
        (b % 2 ^ 16) (last1 a) (last1 b) (omega arith) (omega arith) (omega arith) (omega arith)
        cmp1

  cmp3 : cmp (last3 a) (last3 b) ≡ compare (a % 2 ^ 24) (b % 2 ^ 24)
  cmp3 =
      cmp_step (2 ^ 16) (a / 2 ^ 16 % 256) (b / 2 ^ 16 % 256) (a % 2 ^ 16) (b % 2 ^ 16) (a % 2 ^ 24)
        (b % 2 ^ 24) (last2 a) (last2 b) (omega arith) (omega arith) (omega arith) (omega arith)
        cmp2

  cmp4 : cmp (last4 a) (last4 b) ≡ compare (a % 2 ^ 32) (b % 2 ^ 32)
  cmp4 =
      cmp_step (2 ^ 24) (a / 2 ^ 24 % 256) (b / 2 ^ 24 % 256) (a % 2 ^ 24) (b % 2 ^ 24) (a % 2 ^ 32)
        (b % 2 ^ 32) (last3 a) (last3 b) (omega arith) (omega arith) (omega arith) (omega arith)
        cmp3

  cmp5 : cmp (last5 a) (last5 b) ≡ compare (a % 2 ^ 40) (b % 2 ^ 40)
  cmp5 =
      cmp_step (2 ^ 32) (a / 2 ^ 32 % 256) (b / 2 ^ 32 % 256) (a % 2 ^ 32) (b % 2 ^ 32) (a % 2 ^ 40)
        (b % 2 ^ 40) (last4 a) (last4 b) (omega arith) (omega arith) (omega arith) (omega arith)
        cmp4

  cmp6 : cmp (last6 a) (last6 b) ≡ compare (a % 2 ^ 48) (b % 2 ^ 48)
  cmp6 =
      cmp_step (2 ^ 40) (a / 2 ^ 40 % 256) (b / 2 ^ 40 % 256) (a % 2 ^ 40) (b % 2 ^ 40) (a % 2 ^ 48)
        (b % 2 ^ 48) (last5 a) (last5 b) (omega arith) (omega arith) (omega arith) (omega arith)
        cmp5

  cmp7 : cmp (last7 a) (last7 b) ≡ compare (a % 2 ^ 56) (b % 2 ^ 56)
  cmp7 =
      cmp_step (2 ^ 48) (a / 2 ^ 48 % 256) (b / 2 ^ 48 % 256) (a % 2 ^ 48) (b % 2 ^ 48) (a % 2 ^ 56)
        (b % 2 ^ 56) (last6 a) (last6 b) (omega arith) (omega arith) (omega arith) (omega arith)
        cmp6

  -- The encodings of two uint64s stand in the order of the numbers.
  pub cmp-put_uint64 : a < 2 ^ 64 → b < 2 ^ 64 → cmp (put_uint64 a) (put_uint64 b) ≡ compare a b
  unfolding put_uint64
  cmp-put_uint64 ha hb =
      cmp_step (2 ^ 56) (a / 2 ^ 56 % 256) (b / 2 ^ 56 % 256) (a % 2 ^ 56) (b % 2 ^ 56) a b
        (last7 a) (last7 b) (omega arith) (omega arith) (omega arith) (omega arith) cmp7
