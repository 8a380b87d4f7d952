-- ===== src/Storage/Successor.antt =====
-- `prefixSuccessor` of engine/internal/storage/store.go: the bound at which a reverse scan starts.
use mathlib.Core.List.{reverse, reverse-append}
use basuyudb.Base.{
  ℕ, ◌+◌, ◌<◌, ◌≡◌, ◌≢◌, refl, true, [], ◌∷◌, ◌++◌, Bytes, IsBytes, ◌↔◌, cmp, has_prefix, Ordering,
  arith, Option, none, some, ◌==◌, if◌then◌else◌, Option-cases, inl, inr,
}

-- The loop, over `out` read from its end: a trailing 0xFF is dropped, another byte is incremented.
successor_loop : Bytes → Option Bytes
successor_loop [] = none
successor_loop (b ∷ out) =
    let shorter = successor_loop out in
    if b == 0xFF then shorter else some (reverse ((b + 1) ∷ out))

-- `none` is Go's nil.
unfoldable pub prefix_successor : Bytes → Option Bytes
unfolding successor_loop
prefix_successor p = successor_loop (reverse p)

-- The same read from the front: the first byte is incremented if all bytes behind it are 0xFF.
abbrev front : ℕ → Option Bytes → Option Bytes
front b (some s) = some (b ∷ s)
front b none = if b == 0xFF then none else some ((b + 1) ∷ [])

loop-append :
    (out : Bytes) (b : ℕ) → successor_loop (out ++ (b ∷ [])) ≡ front b (successor_loop out)
unfolding successor_loop
loop-append [] b = ground arith
loop-append (c ∷ out) b = ground (arith, loop-append out b, reverse-append ((c + 1) ∷ out) (b ∷ []))

successor-cons : (b : ℕ) (p : Bytes) → prefix_successor (b ∷ p) ≡ front b (prefix_successor p)
unfolding prefix_successor
successor-cons b p = rw (reverse-append (b ∷ []) p) (loop-append (reverse p) b)

-- `s` stands at `p` or above it, and below the bound if there is one.
pub record InRange (p : Bytes) (bound : Option Bytes) (s : Bytes) : Type 0 where
  pub above : cmp s p ≢ Ordering.lt
  pub below : (q : Bytes) → bound ≡ some q → cmp s q ≡ Ordering.lt

prefix→above : (s p : Bytes) → has_prefix s p ≡ true → cmp s p ≢ Ordering.lt
unfolding has_prefix cmp
prefix→above [] [] h e = cc
prefix→above (x ∷ s) [] h e = cc
prefix→above [] (y ∷ p) h e = cc
prefix→above (x ∷ s) (y ∷ p) h e = ground (arith, prefix→above s p)

prefix→below :
    (s p q : Bytes) → has_prefix s p ≡ true → prefix_successor p ≡ some q → cmp s q ≡ Ordering.lt
unfolding has_prefix cmp
prefix→below s [] q h e = unfold prefix_successor in cc
prefix→below [] (y ∷ p) q h e = cc
prefix→below (x ∷ s) (y ∷ p) q h e = elim (Option-cases (prefix_successor p)) [
  | inl f ↦ ground (arith, successor-cons y p, f)
  | inr (t, f) ↦ ground (arith, successor-cons y p, f, prefix→below s p t)
]

cmp-nil : (s : Bytes) → cmp s [] ≢ Ordering.lt
unfolding cmp
cmp-nil [] e = cc
cmp-nil (x ∷ s) e = cc

-- Between `y ∷ p` and its bound all texts begin with `y`.
same_head :
    (x y : ℕ) (s p : Bytes) → x < 256 → InRange (y ∷ p) (prefix_successor (y ∷ p)) (x ∷ s) → x ≡ y
unfolding cmp
same_head x y s p hx r = elim (Option-cases (prefix_successor p)) [
  | inl f ↦ ground (arith, r.above, r.below ((y + 1) ∷ []), successor-cons y p, f, cmp-nil s)
  | inr (t, f) ↦ ground (arith, r.above, r.below (y ∷ t), successor-cons y p, f)
]

tail-InRange :
    (y : ℕ) (s p : Bytes)
    → InRange (y ∷ p) (prefix_successor (y ∷ p)) (y ∷ s)
    → InRange p (prefix_successor p) s
unfolding cmp
tail-InRange y s p r = record {
  above = λ e. r.above (ground arith);
  below = λ q e. ground (arith, r.below (y ∷ q), successor-cons y p, e);
}

range→prefix : (s p : Bytes) → IsBytes s → InRange p (prefix_successor p) s → has_prefix s p ≡ true
unfolding has_prefix
range→prefix s [] hs r = refl
range→prefix [] (y ∷ p) hs r = absurd (r.above (unfold cmp in refl))
range→prefix (x ∷ s) (y ∷ p) hs r =
    let e = same_head x y s p hs.0 r in
    let r' : InRange (y ∷ p) (prefix_successor (y ∷ p)) (y ∷ s) = rw e at r in
    ground (arith, e, range→prefix s p hs.1 (tail-InRange y s p r'))

-- The byte strings from `p` up to, and without, `prefixSuccessor(p)` are exactly those with
-- prefix `p`; where there is no successor, those from `p` on are.
pub prefix_successor_exact :
    (p s : Bytes) → IsBytes s → (has_prefix s p ≡ true) ↔ InRange p (prefix_successor p) s
prefix_successor_exact p s hs = (
  λ h. record { above = prefix→above s p h; below = λ q e. prefix→below s p q h e },
  range→prefix s p hs,
)
