-- ===== src/Executor/OrderEnc/PrefixFree.antt =====
-- No encoding of a column's type is a proper prefix of another one.
use basuyudb.Base.{
  ℕ, ◌≡◌, refl, sym, ap, ◌∙◌, ◌++◌, Bytes, Option, none, some, ok, cmp, cmp_refl, cmp-eq, Ordering,
  put_uint64, arith,
}
use basuyudb.Base.Int.{ℤ}
use basuyudb.Executor.OrderEnc.{
  TypeOid, encode_int, encode_float, encode_ordered_text, encode_parsed, order_encode, trim_space,
}
use basuyudb.Executor.OrderEnc.Order.{then_by, encode_text_order}

-- Two encodings such that one with something behind it is the other with something behind it are one.
abbrev pub NoPrefix : Bytes → Bytes → Type 0
NoPrefix x y = (r s : Bytes) → x ++ r ≡ y ++ s → x ≡ y

uint64-NoPrefix : (a b : ℕ) → NoPrefix (put_uint64 a) (put_uint64 b)
unfolding put_uint64
uint64-NoPrefix a b r s e = cc e

text-NoPrefix : (s t : Bytes) → NoPrefix (encode_ordered_text s) (encode_ordered_text t)
text-NoPrefix s t r u e = ap encode_ordered_text (
    cmp-eq s t (
      same (cmp s t) (
        sym (encode_text_order s t r u)
        ∙ ap (cmp (encode_ordered_text s ++ r)) (sym e)
        ∙ cmp_refl (encode_ordered_text s ++ r))))
  where
    same : (o : Ordering) → then_by o (cmp r u) ≡ Ordering.eq → o ≡ Ordering.eq
    same Ordering.eq f = refl
    same Ordering.lt f = cc
    same Ordering.gt f = cc

module _ (parse_int : Bytes → Option ℤ) (parse_float : Bytes → Option ℕ) where
  parsed-NoPrefix {ℓ} :
      {A : Type ℓ} (f : A → ℕ) (o p : Option A) (x y : Bytes)
      → encode_parsed (λ a. put_uint64 (f a)) o ≡ ok x
      → encode_parsed (λ a. put_uint64 (f a)) p ≡ ok y
      → NoPrefix x y
  unfolding encode_parsed
  parsed-NoPrefix f none p x y g h = cc
  parsed-NoPrefix f (some a) none x y g h = cc
  parsed-NoPrefix f (some a) (some b) x y g h =
      λ r s e. let z = uint64-NoPrefix (f a) (f b) r s (cc (g, h, e)) in cc (g, h, z)

  -- The encodings of two values of one column type are prefix-free: two keys that go on from
  -- them can agree only if the encodings are the same.
  pub order_encode_prefix_free :
      (ty : TypeOid) (a b x y r s : Bytes)
      → order_encode parse_int parse_float ty a ≡ ok x
      → order_encode parse_int parse_float ty b ≡ ok y
      → x ++ r ≡ y ++ s
      → x ≡ y
  unfolding order_encode encode_int encode_float
  order_encode_prefix_free TypeOid.int4 a b x y r s g h e =
      parsed-NoPrefix _ (parse_int (trim_space a)) (parse_int (trim_space b)) x y g h r s e
  order_encode_prefix_free TypeOid.int8 a b x y r s g h e =
      parsed-NoPrefix _ (parse_int (trim_space a)) (parse_int (trim_space b)) x y g h r s e
  order_encode_prefix_free TypeOid.float8 a b x y r s g h e =
      parsed-NoPrefix _ (parse_float (trim_space a)) (parse_float (trim_space b)) x y g h r s e
  order_encode_prefix_free TypeOid.bool a b x y r s g h e = ground (arith, g, h, e)
  order_encode_prefix_free TypeOid.text a b x y r s g h e =
      let z = text-NoPrefix a b r s (cc (g, h, e)) in cc (g, h, z)
