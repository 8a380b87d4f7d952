-- ===== src/Executor/OrderEnc.antt =====
-- engine/internal/executor/orderenc.go: column values as bytes whose order is that of the values.
-- `strconv.ParseInt` and `strconv.ParseFloat` are Go's: the integer and the bits that they read, if
-- any, are given by functions. A float is its IEEE-754 bits.
pub mod Order
pub mod PrefixFree
pub mod Lookup
use basuyudb.Base.{
  ℕ, ◌+◌, ◌-◌, ◌%◌, ◌^◌, ◌≡◌, Bool, true, false, ◌||◌, List, [], ◌∷◌, ◌++◌, Bytes, codes, Option,
  none, some, Result, ok, err, bad_text, leb, ◌==◌, if◌then◌else◌, eqb, put_uint64, ◌&&◌,
}
use basuyudb.Base.Int.{ℤ, to_uint64}

-- The type OIDs that the encoding tells apart.
pub data TypeOid : Type 0 where
  int4 int8 float8 bool text : TypeOid

-- uint64(v)^(1<<63): flipping the top bit is adding 2^63 modulo 2^64.
unfoldable pub encode_int : ℤ → Bytes
encode_int v = put_uint64 ((to_uint64 v + 2 ^ 63) % 2 ^ 64)

-- Flip all bits of a negative number, and the sign bit of any other.
unfoldable pub encode_float : ℕ → Bytes
encode_float bits = put_uint64 (if leb (2 ^ 63) bits then 2 ^ 64 - 1 - bits else bits + 2 ^ 63)

-- The loop of encodeOrderedText.
escape : Bytes → Bytes
escape [] = []
escape (c ∷ s) = let rest = escape s in if c == 0x00 then 0x00 ∷ 0xFF ∷ rest else c ∷ rest

unfoldable pub encode_ordered_text : Bytes → Bytes
unfolding escape
encode_ordered_text s = escape s ++ (0x00 ∷ 0x00 ∷ [])

-- strings.TrimSpace and strings.ToLower, on ASCII
is_space : ℕ → Bool
is_space c = c == 0x20 || (leb 0x09 c && leb c 0x0D)

trim_left : Bytes → Bytes
trim_left [] = []
trim_left (c ∷ s) = let rest = trim_left s in if is_space c then rest else c ∷ s

trim_right : Bytes → Bytes
trim_right [] = []
trim_right (c ∷ s) = elim (trim_right s) [
  | [] ↦ if is_space c then [] else c ∷ []
  | d ∷ r ↦ c ∷ d ∷ r
]

unfoldable pub trim_space : Bytes → Bytes
unfolding trim_left trim_right is_space
trim_space s = trim_right (trim_left s)

unfoldable pub to_lower : Bytes → Bytes
to_lower [] = []
to_lower (c ∷ s) = (if leb b'A' c && leb c b'Z' then c + 32 else c) ∷ to_lower s

-- isTruthy
unfoldable pub is_truthy : Bytes → Bool
unfolding trim_space to_lower
is_truthy t =
    let s = to_lower (trim_space t) in
    eqb s (codes "t")
    || eqb s (codes "true")
    || eqb s (codes "1")
    || eqb s (codes "y")
    || eqb s (codes "yes")
    || eqb s (codes "on")

encode_parsed {ℓ} : {A : Type ℓ} → (A → Bytes) → Option A → Result Bytes
encode_parsed f none = err bad_text
encode_parsed f (some a) = ok (f a)

module _ (parse_int : Bytes → Option ℤ) (parse_float : Bytes → Option ℕ) where
  -- orderEncode
  unfoldable pub order_encode : TypeOid → Bytes → Result Bytes
  unfolding encode_parsed
  order_encode TypeOid.int4 t = encode_parsed encode_int (parse_int (trim_space t))
  order_encode TypeOid.int8 t = encode_parsed encode_int (parse_int (trim_space t))
  order_encode TypeOid.float8 t = encode_parsed encode_float (parse_float (trim_space t))
  order_encode TypeOid.bool t = ok (if is_truthy t then 0x01 ∷ [] else 0x00 ∷ [])
  order_encode TypeOid.text t = ok (encode_ordered_text t)
