-- ===== src/Executor/OrderEnc/Order.antt =====
-- The byte order of the encodings.
use basuyudb.Base.{
  ℕ, ◌+◌, ◌-◌, ◌%◌, ◌^◌, ◌≤◌, ◌<◌, ◌≡◌, ap₂, ◌∙◌, [], ◌∷◌, ◌++◌, Bytes, cmp, compare, Ordering,
  arith, leb, if◌then◌else◌, append_assoc,
}
use basuyudb.Base.Int.{ℤ, pos, negsuc, compare_ℤ, IsI64, to_uint64}
use basuyudb.Base.Digits.{cmp-put_uint64}
use basuyudb.Executor.OrderEnc.{encode_int, encode_float, escape, encode_ordered_text}

-- The encodings of two int64s stand in the order of the integers.
pub encode_int_order :
    (v w : ℤ) → IsI64 v → IsI64 w → cmp (encode_int v) (encode_int w) ≡ compare_ℤ v w
unfolding encode_int
encode_int_order v w hv hw =
    cmp-put_uint64 ((to_uint64 v + 2 ^ 63) % 2 ^ 64) ((to_uint64 w + 2 ^ 63) % 2 ^ 64) (omega arith)
      (omega arith)
    ∙ shifted v w hv hw
  where
    shifted :
        (v w : ℤ)
        → IsI64 v
        → IsI64 w
        → compare ((to_uint64 v + 2 ^ 63) % 2 ^ 64) ((to_uint64 w + 2 ^ 63) % 2 ^ 64)
          ≡ compare_ℤ v w
    shifted (pos a) (pos b) hv hw = ground arith
    shifted (pos a) (negsuc b) hv hw = ground arith
    shifted (negsuc a) (pos b) hv hw = ground arith
    shifted (negsuc a) (negsuc b) hv hw = ground arith

-- The numeric order of two floats by their bits, neither a NaN: by sign and magnitude, where the two
-- zeros are one number.
pub data FloatBefore : ℕ → ℕ → Type 0 where
  both_positive : {a b : ℕ} → a < b → b < 2 ^ 63 → FloatBefore a b
  across_zero : {a b : ℕ} → 2 ^ 63 < a → b < 2 ^ 63 → FloatBefore a b
  from_zero : {a b : ℕ} → 2 ^ 63 ≤ a → 0 < b → b < 2 ^ 63 → FloatBefore a b
  both_negative : {a b : ℕ} → 2 ^ 63 ≤ b → b < a → FloatBefore a b

-- Of two float64s, given by their IEEE-754 bits, of which one is numerically below the other,
-- the encodings stand in that order.
pub encode_float_order :
    (a b : ℕ)
    → a < 2 ^ 64
    → b < 2 ^ 64
    → FloatBefore a b
    → cmp (encode_float a) (encode_float b) ≡ Ordering.lt
unfolding encode_float
encode_float_order a b ha hb h =
    cmp-put_uint64 (if leb (2 ^ 63) a then 2 ^ 64 - 1 - a else a + 2 ^ 63)
      (if leb (2 ^ 63) b then 2 ^ 64 - 1 - b else b + 2 ^ 63) (ground arith) (ground arith)
    ∙ go h
  where
    go :
        FloatBefore a b
        → compare
            (if leb (2 ^ 63) a then 2 ^ 64 - 1 - a else a + 2 ^ 63)
            (if leb (2 ^ 63) b then 2 ^ 64 - 1 - b else b + 2 ^ 63)
          ≡ Ordering.lt
    go (both_positive p q) = ground arith
    go (across_zero p q) = ground arith
    go (from_zero p q r) = ground arith
    go (both_negative p q) = ground arith

-- What follows decides only where the first parts are the same.
abbrev pub then_by : Ordering → Ordering → Ordering
then_by Ordering.lt o = Ordering.lt
then_by Ordering.eq o = o
then_by Ordering.gt o = Ordering.gt

escape_order :
    (s t x y : Bytes)
    → cmp (escape s ++ (0 ∷ 0 ∷ x)) (escape t ++ (0 ∷ 0 ∷ y)) ≡ then_by (cmp s t) (cmp x y)
unfolding escape cmp
escape_order [] [] x y = ground arith
escape_order [] (d ∷ t) x y = ground arith
escape_order (c ∷ s) [] x y = ground arith
escape_order (c ∷ s) (d ∷ t) x y = ground (arith, escape_order s t x y)

-- Two encoded texts, with whatever follows them in the index key, stand in the order of the texts;
-- what follows decides where the texts are the same.
pub encode_text_order :
    (s t x y : Bytes)
    → cmp (encode_ordered_text s ++ x) (encode_ordered_text t ++ y) ≡ then_by (cmp s t) (cmp x y)
unfolding encode_ordered_text
encode_text_order s t x y =
    ap₂ cmp (append_assoc (escape s) (0 ∷ 0 ∷ []) x) (append_assoc (escape t) (0 ∷ 0 ∷ []) y)
    ∙ escape_order s t x y
