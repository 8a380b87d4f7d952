-- ===== src/Transactions/Overlay/Buffer.antt =====
-- The overlay that `bufferedForPrefix` makes: sorted, with the last mutation of each key.
use basuyudb.Base.{
  ◌≡◌, refl, ◌∙◌, true, false, List, [], ◌∷◌, Bytes, Option, none, some, eqb, eqb_iff, has_prefix,
  cmp, cmp-eq, cmp_refl, cmp_total, subst, sym, inl, inr, Bool-cases, cmp_flip, Ordering,
  if◌then◌else◌, arith,
}
use basuyudb.Transactions.Overlay.{
  Mutation, newest_mutation, put_latest, collect, buffered_for_prefix,
}
use basuyudb.Transactions.Overlay.Scan.{find_mutation, AboveMutations, IsSorted}

above-put_latest :
    (k : Bytes) (m : Mutation) (l : List Mutation)
    → AboveMutations k l
    → cmp k m.key ≡ Ordering.lt
    → AboveMutations k (put_latest m l)
unfolding put_latest
above-put_latest k m [] h e = e
above-put_latest k m (x ∷ l) h e = ground arith

put_latest-IsSorted : (m : Mutation) (l : List Mutation) → IsSorted l → IsSorted (put_latest m l)
unfolding put_latest
put_latest-IsSorted m [] s = (tt, tt)
put_latest-IsSorted m (x ∷ l) s = elim (cmp_total m.key x.key) [
  | inl e ↦ rw (e, IsSorted) (e, s)
  | inr (inl e) ↦
      rw (e, IsSorted) (subst (λ k. AboveMutations k l) (sym (cmp-eq m.key x.key e)) s.0, s.1)
  | inr (inr e) ↦
      rw (e, IsSorted)
        (above-put_latest x.key m l s.0 (cmp_flip m.key x.key e), put_latest-IsSorted m l s.1)
]

find-put_latest :
    (k : Bytes) (m : Mutation) (l : List Mutation)
    → IsSorted l
    → find_mutation k (put_latest m l) ≡ (if eqb m.key k then some m else find_mutation k l)
unfolding put_latest
find-put_latest k m [] s = refl
find-put_latest k m (x ∷ l) s = ground (
  arith,
  find-put_latest k m l s.1,
  cmp-eq m.key x.key,
  eqb_iff m.key k,
  eqb_iff x.key k,
  cmp_refl m.key,
)

collect-IsSorted : (p : Bytes) (muts l : List Mutation) → IsSorted l → IsSorted (collect p muts l)
unfolding collect
collect-IsSorted p [] l s = s
collect-IsSorted p (m ∷ muts) l s = elim (Bool-cases (has_prefix m.key p)) [
  | inl e ↦ rw e (collect-IsSorted p muts (put_latest m l) (put_latest-IsSorted m l s))
  | inr e ↦ rw e (collect-IsSorted p muts l s)
]

-- The last mutation that the loop collects for a key, or what the map held before.
abbrev later : Option Mutation → Option Mutation → Option Mutation
later none old = old
later (some m) old = some m

find-collect :
    (k p : Bytes) (muts l : List Mutation)
    → IsSorted l
    → has_prefix k p ≡ true
    → find_mutation k (collect p muts l) ≡ later (newest_mutation k muts) (find_mutation k l)
unfolding collect newest_mutation
find-collect k p [] l s h = refl
find-collect k p (m ∷ muts) l s h = elim (Bool-cases (has_prefix m.key p)) [
  | inl e ↦ rw e (
      ground (
        arith,
        find-collect k p muts (put_latest m l) (put_latest-IsSorted m l s) h,
        find-put_latest k m l s,
      ))
  | inr e ↦ rw e (ground (arith, find-collect k p muts l s h, eqb_iff m.key k, e, h))
]

pub buffered-IsSorted : (muts : List Mutation) (p : Bytes) → IsSorted (buffered_for_prefix muts p)
unfolding buffered_for_prefix
buffered-IsSorted muts p = collect-IsSorted p muts [] tt

-- The overlay holds, of each key with the prefix, the mutation that was buffered last.
pub find-buffered :
    (k : Bytes) (muts : List Mutation) (p : Bytes)
    → has_prefix k p ≡ true
    → find_mutation k (buffered_for_prefix muts p) ≡ newest_mutation k muts
unfolding buffered_for_prefix
find-buffered k muts p h = find-collect k p muts [] tt h ∙ ground arith

find-collect_outside :
    (k p : Bytes) (muts l : List Mutation)
    → IsSorted l
    → has_prefix k p ≡ false
    → find_mutation k (collect p muts l) ≡ find_mutation k l
unfolding collect
find-collect_outside k p [] l s h = refl
find-collect_outside k p (m ∷ muts) l s h = elim (Bool-cases (has_prefix m.key p)) [
  | inl e ↦ rw e (
      ground (
        arith,
        find-collect_outside k p muts (put_latest m l) (put_latest-IsSorted m l s) h,
        find-put_latest k m l s,
        eqb_iff m.key k,
        e,
        h,
      ))
  | inr e ↦ rw e (find-collect_outside k p muts l s h)
]

-- A key without the prefix is not in the overlay.
pub find-buffered_outside :
    (k : Bytes) (muts : List Mutation) (p : Bytes)
    → has_prefix k p ≡ false
    → find_mutation k (buffered_for_prefix muts p) ≡ none
unfolding buffered_for_prefix
find-buffered_outside k muts p h = find-collect_outside k p muts [] tt h
