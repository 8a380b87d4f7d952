-- ===== src/Executor/IntArith/Range.antt =====
-- The results of the integer operations.
use basuyudb.Base.{
  ◌≡◌, subst, inl, inr, ◌⊎◌, ℕ, ◌+◌, ◌-◌, ◌*◌, ◌/◌, ◌%◌, ◌^◌, ◌≤◌, ◌<◌, true, false, Bytes, codes,
  Result, ok, err, eqb, leb, Bool-cases, eqb→eq, leb→le, Error, arith, division_by_zero,
}
use basuyudb.Base.Int.{ℤ, pos, negsuc, pos_part, neg_part, sub_ℕ, to_uint64, of_uint64, IsI64}
use basuyudb.Executor.IntArith.{
  wrap, add_i64, sub_i64, mul_i64, quo_i64, rem_i64, signed, abs, is_zero, int_op,
}

wrap-IsI64 : (n : ℕ) → IsI64 (wrap n)
wrap-IsI64 n = go (n % 2 ^ 64) (omega arith)
  where
    go : (m : ℕ) → m < 2 ^ 64 → IsI64 (of_uint64 m)
    go m h = elim (Bool-cases (leb (2 ^ 63) m)) [
      | inl e ↦ let g = leb→le (2 ^ 63) m e in rw e (omega arith)
      | inr e ↦ rw e (ground arith)
    ]

in_range : (x r : ℤ) → ◌≡◌ {A = Result ℤ} (ok x) (ok r) → IsI64 x → IsI64 r
in_range x r h i = let e : x ≡ r = cc in subst IsI64 e i

-- An int64 sum or difference that fits is the sum or difference of the integers.
pub add_i64_exact :
    (a b : ℤ)
    → IsI64 a
    → IsI64 b
    → IsI64 (sub_ℕ (pos_part a + pos_part b) (neg_part a + neg_part b))
    → add_i64 a b ≡ sub_ℕ (pos_part a + pos_part b) (neg_part a + neg_part b)
unfolding add_i64
add_i64_exact (pos a) (pos b) p q h = ground arith
add_i64_exact (pos a) (negsuc b) p q h = ground arith
add_i64_exact (negsuc a) (pos b) p q h = ground arith
add_i64_exact (negsuc a) (negsuc b) p q h = ground arith

mod-le : (a b : ℕ) → a % b ≤ a
mod-le a b = grind arith

neg-IsI64 : (n : ℕ) → n ≤ 2 ^ 63 → IsI64 (sub_ℕ 0 n)
neg-IsI64 n h = elim (Bool-cases (leb n 0)) [
  | inl e ↦ rw e (omega arith)
  | inr e ↦ let g : 0 < n = ground arith in rw e (omega arith)
]

rem_i64-IsI64 : (a b : ℤ) → IsI64 a → IsI64 (rem_i64 a b)
unfolding rem_i64
rem_i64-IsI64 (pos a) b p = omega (arith, mod-le a (abs b))
rem_i64-IsI64 (negsuc a) b p = neg-IsI64 ((a + 1) % abs b) (omega (arith, mod-le (a + 1) (abs b)))

-- The switch, as a choice.
pub data IntOp (op : Bytes) (a b : ℤ) : Result ℤ → Type 0 where
  is_add : op ≡ codes "+" → IntOp op a b (ok (add_i64 a b))
  is_sub : op ≡ codes "-" → IntOp op a b (ok (sub_i64 a b))
  is_mul : op ≡ codes "*" → IntOp op a b (ok (mul_i64 a b))
  is_quo : op ≡ codes "/" → is_zero b ≡ false → IntOp op a b (ok (quo_i64 a b))
  is_rem : op ≡ codes "%" → is_zero b ≡ false → IntOp op a b (ok (rem_i64 a b))
  by_zero :
      (op ≡ codes "/") ⊎ (op ≡ codes "%") → is_zero b ≡ true → IntOp op a b (err division_by_zero)
  unknown : IntOp op a b (ok (pos 0))

int_op-IntOp : (op : Bytes) (a b : ℤ) → IntOp op a b (int_op op a b)
unfolding int_op
int_op-IntOp op a b = elim (Bool-cases (eqb op (codes "+"))) [
  | inl e ↦ rw e (is_add (eqb→eq op (codes "+") e))
  | inr e1 ↦ elim (Bool-cases (eqb op (codes "-"))) [
    | inl e ↦ rw (e1, e) (is_sub (eqb→eq op (codes "-") e))
    | inr e2 ↦ elim (Bool-cases (eqb op (codes "*"))) [
      | inl e ↦ rw (e1, e2, e) (is_mul (eqb→eq op (codes "*") e))
      | inr e3 ↦ elim (Bool-cases (eqb op (codes "/"))) [
        | inl e ↦ elim (Bool-cases (is_zero b)) [
          | inl z ↦ rw (e1, e2, e3, e, z) (by_zero (inl (eqb→eq op (codes "/") e)) z)
          | inr z ↦ rw (e1, e2, e3, e, z) (is_quo (eqb→eq op (codes "/") e) z)
        ]
        | inr e4 ↦ elim (Bool-cases (eqb op (codes "%"))) [
          | inl e ↦ elim (Bool-cases (is_zero b)) [
            | inl z ↦ rw (e1, e2, e3, e4, e, z) (by_zero (inr (eqb→eq op (codes "%") e)) z)
            | inr z ↦ rw (e1, e2, e3, e4, e, z) (is_rem (eqb→eq op (codes "%") e) z)
          ]
          | inr e5 ↦ rw (e1, e2, e3, e4, e5) unknown
        ]
      ]
    ]
  ]
]

-- Integer arithmetic on two int64s never leaves int64: a result that would be too large wraps. The only error is the division,
-- or the remainder, by zero.
pub int_op-IsI64 :
    (op : Bytes) (a b : ℤ)
    → IsI64 a
    → IsI64 b
    → ((r : ℤ) → int_op op a b ≡ ok r → IsI64 r)
      × ((x : Error)
          → int_op op a b ≡ err x
          → (x ≡ division_by_zero) × (is_zero b ≡ true) × ((op ≡ codes "/") ⊎ (op ≡ codes "%")))
int_op-IsI64 op a b p q = go (int_op-IntOp op a b)
  where
    go :
        {o : Result ℤ}
        → IntOp op a b o
        → ((r : ℤ) → o ≡ ok r → IsI64 r)
          × ((x : Error)
              → o ≡ err x
              → (x ≡ division_by_zero) × (is_zero b ≡ true) × ((op ≡ codes "/") ⊎ (op ≡ codes "%")))
    go (is_add e) = (
      λ r h. in_range (add_i64 a b) r h (unfold add_i64 in wrap-IsI64 (to_uint64 a + to_uint64 b)),
      λ x h. cc,
    )
    go (is_sub e) = (
      λ r h.
          in_range (sub_i64 a b) r h
            (unfold sub_i64 in wrap-IsI64 (to_uint64 a + 2 ^ 64 - to_uint64 b)),
      λ x h. cc,
    )
    go (is_mul e) = (
      λ r h. in_range (mul_i64 a b) r h (unfold mul_i64 in wrap-IsI64 (to_uint64 a * to_uint64 b)),
      λ x h. cc,
    )
    go (is_quo e z) = (
      λ r h.
          in_range (quo_i64 a b) r h
            (unfold quo_i64 in wrap-IsI64 (to_uint64 (signed a b (abs a / abs b)))),
      λ x h. cc,
    )
    go (is_rem e z) = (λ r h. in_range (rem_i64 a b) r h (rem_i64-IsI64 a b p), λ x h. cc)
    go (by_zero e z) = (λ r h. cc, λ x h. (cc, z, e))
    go unknown = (λ r h. in_range (pos 0) r h (omega arith), λ x h. cc)
