-- ===== src/Storage/Mvcc/Entries.antt =====
-- Sorted entries: a key below the first is not among them.
use basuyudb.Base.{
  ◌≡◌, refl, List, [], ◌∷◌, Bytes, none, cmp, cmp_refl, cmp_trans, Ordering, eqb_iff, arith,
}
use basuyudb.Storage.Mvcc.History.{Entry, lookup, Above, IsAscending}

pub lookup-low : (k : Bytes) (es : List Entry) → IsAscending es → Above k es → lookup k es ≡ none
unfolding lookup
lookup-low k [] a h = refl
lookup-low k ((j, v) ∷ []) a h = ground (arith, eqb_iff j k, cmp_refl k)
lookup-low k ((j, v) ∷ (i, w) ∷ es) a h =
    ground (arith, eqb_iff j k, cmp_refl k, lookup-low k ((i, w) ∷ es) a.1 (cmp_trans k j i h a.0))

pub Above-entries :
    (k j v : Bytes) (es : List Entry)
    → IsAscending ((j, v) ∷ es)
    → cmp k j ≡ Ordering.lt
    → Above k es
Above-entries k j v [] a h = tt
Above-entries k j v ((i, w) ∷ es) a h = cmp_trans k j i h a.0
