-- ===== src/Base/ByteString.antt =====
-- Byte strings, and what the components use of Go's `bytes` and `encoding/binary`.
-- Go's `string` and `[]byte` are both lists of numbers below 256.
use Prim.Native.Nat.{ℕ, ◌+◌, ◌*◌, ◌/◌, ◌%◌, ◌^◌, ◌<◌, compare, Ordering}
use mathlib.Core.Path.{◌≡◌, refl}
use mathlib.Core.Logic.{◌↔◌, ◌≢◌, ◌⊎◌}
use Prim.Native.Char.{code}
use Prim.Native.String.{String}
use mathlib.Core.Bool.{Bool, true, false, ◌&&◌}
use mathlib.Core.List.{List, [], ◌∷◌, ◌++◌}
use native.Mathlib.Omega.{arith}
use basuyudb.Base.Tests.{◌==◌}
use basuyudb.Base.Lists.{All, length}

abbrev pub Bytes : Type 0
Bytes = List ℕ

abbrev pub IsByte : ℕ → Type 0
IsByte b = b < 256

abbrev pub IsBytes : Bytes → Type 0
IsBytes = All IsByte

-- bytes.Equal
unfoldable pub eqb : Bytes → Bytes → Bool
eqb [] [] = true
eqb [] (y ∷ ys) = false
eqb (x ∷ xs) [] = false
eqb (x ∷ xs) (y ∷ ys) = (x == y) && eqb xs ys

pub eqb→eq : (xs ys : Bytes) → eqb xs ys ≡ true → xs ≡ ys
unfolding eqb
eqb→eq [] [] h = refl
eqb→eq [] (y ∷ ys) h = cc
eqb→eq (x ∷ xs) [] h = cc
eqb→eq (x ∷ xs) (y ∷ ys) h = ground (arith, eqb→eq xs ys)

pub eqb_refl : (xs : Bytes) → eqb xs xs ≡ true
unfolding eqb
eqb_refl [] = refl
eqb_refl (x ∷ xs) = ground (arith, eqb_refl xs)

pub eqb_iff : (xs ys : Bytes) → (eqb xs ys ≡ true) ↔ (xs ≡ ys)
eqb_iff xs ys = (eqb→eq xs ys, λ e. cc (eqb_refl xs, e))

-- bytes.HasPrefix(s, prefix)
unfoldable pub has_prefix : Bytes → Bytes → Bool
has_prefix s [] = true
has_prefix [] (p ∷ ps) = false
has_prefix (x ∷ xs) (p ∷ ps) = (x == p) && has_prefix xs ps

pub has_prefix-append : (p s : Bytes) → has_prefix (p ++ s) p ≡ true
unfolding has_prefix
has_prefix-append [] s = refl
has_prefix-append (x ∷ p) s = ground (arith, has_prefix-append p s)

-- The rest of a string that has the prefix.
pub has_prefix→split : (s p : Bytes) → has_prefix s p ≡ true → (r : Bytes) × (s ≡ p ++ r)
unfolding has_prefix
has_prefix→split s [] h = (s, refl)
has_prefix→split [] (p ∷ ps) h = cc
has_prefix→split (x ∷ xs) (p ∷ ps) h =
    let (r, e) = has_prefix→split xs ps (ground arith) in let same : x ≡ p = ground arith in (r, cc)

-- bytes.Compare
unfoldable pub cmp : Bytes → Bytes → Ordering
cmp [] [] = Ordering.eq
cmp [] (y ∷ ys) = Ordering.lt
cmp (x ∷ xs) [] = Ordering.gt
cmp (x ∷ xs) (y ∷ ys) = elim (compare x y) [
  | Ordering.lt ↦ Ordering.lt
  | Ordering.eq ↦ cmp xs ys
  | Ordering.gt ↦ Ordering.gt
]

-- binary.BigEndian.PutUint32 and PutUint64 (of a number that may be wider, which is cut).
unfoldable pub put_uint32 : ℕ → Bytes
put_uint32 v = (v / 2 ^ 24 % 256) ∷ (v / 2 ^ 16 % 256) ∷ (v / 2 ^ 8 % 256) ∷ (v % 256) ∷ []

unfoldable pub put_uint64 : ℕ → Bytes
put_uint64 v =
    (v / 2 ^ 56 % 256)
    ∷ (v / 2 ^ 48 % 256)
    ∷ (v / 2 ^ 40 % 256)
    ∷ (v / 2 ^ 32 % 256)
    ∷ (v / 2 ^ 24 % 256)
    ∷ (v / 2 ^ 16 % 256)
    ∷ (v / 2 ^ 8 % 256)
    ∷ (v % 256)
    ∷ []

-- binary.BigEndian.Uint32 and Uint64 read the first bytes. The callers check that those are there:
-- Go would panic on a shorter slice.
unfoldable pub get_uint32 : Bytes → ℕ
get_uint32 (a ∷ b ∷ c ∷ d ∷ _) = a * 2 ^ 24 + b * 2 ^ 16 + c * 2 ^ 8 + d
get_uint32 _ = 0

unfoldable pub get_uint64 : Bytes → ℕ
get_uint64 (a ∷ b ∷ c ∷ d ∷ e ∷ f ∷ g ∷ h ∷ _) =
    a * 2 ^ 56 + b * 2 ^ 48 + c * 2 ^ 40 + d * 2 ^ 32 + e * 2 ^ 24 + f * 2 ^ 16 + g * 2 ^ 8 + h
get_uint64 _ = 0

pub length-put_uint32 : (v : ℕ) → length (put_uint32 v) ≡ 4
unfolding put_uint32
length-put_uint32 v = refl

pub length-put_uint64 : (v : ℕ) → length (put_uint64 v) ≡ 8
unfolding put_uint64
length-put_uint64 v = refl

pub get_uint32-put : (v : ℕ) (r : Bytes) → v < 2 ^ 32 → get_uint32 (put_uint32 v ++ r) ≡ v
unfolding get_uint32 put_uint32
get_uint32-put v r h = omega arith

pub get_uint64-put : (v : ℕ) (r : Bytes) → v < 2 ^ 64 → get_uint64 (put_uint64 v ++ r) ≡ v
unfolding get_uint64 put_uint64
get_uint64-put v r h = omega arith

-- The bytes of an ASCII literal. `String` has its own `[]` and `∷`.
abbrev pub codes : String → Bytes
codes String.[] = []
codes (String.◌∷◌ c s) = code c ∷ codes s

-- A path segment with no separator in it.
abbrev pub NoSlash : Bytes → Type 0
NoSlash = All (λ c. c ≢ b'/')

-- The order of byte strings.
pub cmp_refl : (x : Bytes) → cmp x x ≡ Ordering.eq
unfolding cmp
cmp_refl [] = refl
cmp_refl (a ∷ x) = ground (arith, cmp_refl x)

pub cmp-eq : (x y : Bytes) → cmp x y ≡ Ordering.eq → x ≡ y
unfolding cmp
cmp-eq [] [] h = refl
cmp-eq [] (b ∷ y) h = cc
cmp-eq (a ∷ x) [] h = cc
cmp-eq (a ∷ x) (b ∷ y) h = ground (arith, cmp-eq x y)

pub cmp_flip : (x y : Bytes) → cmp x y ≡ Ordering.gt → cmp y x ≡ Ordering.lt
unfolding cmp
cmp_flip [] [] h = cc
cmp_flip [] (b ∷ y) h = cc
cmp_flip (a ∷ x) [] h = refl
cmp_flip (a ∷ x) (b ∷ y) h = ground (arith, cmp_flip x y)

pub cmp_flip_lt : (x y : Bytes) → cmp x y ≡ Ordering.lt → cmp y x ≡ Ordering.gt
unfolding cmp
cmp_flip_lt [] [] h = cc
cmp_flip_lt [] (b ∷ y) h = refl
cmp_flip_lt (a ∷ x) [] h = cc
cmp_flip_lt (a ∷ x) (b ∷ y) h = ground (arith, cmp_flip_lt x y)

pub cmp_trans :
    (x y z : Bytes) → cmp x y ≡ Ordering.lt → cmp y z ≡ Ordering.lt → cmp x z ≡ Ordering.lt
unfolding cmp
cmp_trans [] [] z h k = cc
cmp_trans [] (b ∷ y) [] h k = cc
cmp_trans [] (b ∷ y) (c ∷ z) h k = refl
cmp_trans (a ∷ x) [] z h k = cc
cmp_trans (a ∷ x) (b ∷ y) [] h k = cc
cmp_trans (a ∷ x) (b ∷ y) (c ∷ z) h k = ground (arith, cmp_trans x y z)

pub eqb-cmp : (x y : Bytes) → eqb x y ≡ elim (cmp x y) [ Ordering.eq ↦ true | _ ↦ false ]
unfolding eqb cmp
eqb-cmp [] [] = refl
eqb-cmp [] (b ∷ y) = refl
eqb-cmp (a ∷ x) [] = refl
eqb-cmp (a ∷ x) (b ∷ y) = ground (arith, eqb-cmp x y)

pub cmp-self_ne : (x : Bytes) → cmp x x ≢ Ordering.lt
cmp-self_ne x e = cc (cmp_refl x)

pub cmp_total :
    (x y : Bytes) → (cmp x y ≡ Ordering.lt) ⊎ (cmp x y ≡ Ordering.eq) ⊎ (cmp x y ≡ Ordering.gt)
cmp_total x y = ground arith
