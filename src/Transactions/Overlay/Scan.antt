-- ===== src/Transactions/Overlay/Scan.antt =====
-- What a loop over the merged iterator meets.
use basuyudb.Base.{
  ℕ, zero, suc, ◌+◌, ◌≤◌, ◌≡◌, refl, sym, ap, ◌∙◌, List, [], ◌∷◌, Bytes, Option, none, some, eqb,
  eqb_iff, cmp, cmp-eq, cmp_refl, cmp_flip, cmp_trans, eqb-cmp, Ordering, length, if◌then◌else◌,
  arith, inl, inr, Bool-cases, subst, cmp_total,
}
use basuyudb.Storage.Mvcc.History.{Entry, lookup, Above, IsAscending}
use basuyudb.Storage.Mvcc.Entries.{lookup-low, Above-entries}
use basuyudb.Transactions.Overlay.{Mutation, produce, rewind, next, drain, scan_all}

-- The plain merge of the two sorted sequences.
abbrev emit : Mutation → List Entry → List Entry
emit b es = if b.delete then es else (b.key, b.value) ∷ es

merge : List Entry → List Mutation → List Entry
merge [] [] = []
merge (e ∷ es) [] = e ∷ merge es []
merge [] (b ∷ buf) = emit b (merge [] buf)
merge ((k, v) ∷ es) (b ∷ buf) = elim (cmp b.key k) [
  | Ordering.lt ↦ emit b (merge ((k, v) ∷ es) buf)
  | Ordering.eq ↦ emit b (merge es buf)
  | Ordering.gt ↦ (k, v) ∷ merge es (b ∷ buf)
]

drain-produce :
    (n : ℕ) (store : List Entry) (buf : List Mutation)
    → length store + length buf ≤ n
    → drain n (produce store buf) ≡ merge store buf
unfolding drain next produce merge
drain-produce zero [] [] h = refl
drain-produce zero [] (b ∷ buf) h = absurd (omega arith)
drain-produce zero (e ∷ es) buf h = absurd (omega arith)
drain-produce (suc n) [] [] h = refl
drain-produce (suc n) ((k, v) ∷ es) [] h =
    ap (λ l. (k, v) ∷ l) (drain-produce n es [] (omega arith))
drain-produce (suc n) [] (b ∷ buf) h =
    ground (arith, drain-produce n [] buf, drain-produce (suc n) [] buf)
drain-produce (suc n) ((k, v) ∷ es) (b ∷ buf) h = ground (
  arith,
  eqb-cmp b.key k,
  drain-produce n es (b ∷ buf),
  drain-produce (suc n) es buf,
  drain-produce n es buf,
  drain-produce (suc n) ((k, v) ∷ es) buf,
  drain-produce n ((k, v) ∷ es) buf,
)

abbrev pub find_mutation : Bytes → List Mutation → Option Mutation
find_mutation k [] = none
find_mutation k (b ∷ buf) = let rest = find_mutation k buf in if eqb b.key k then some b else rest

-- What is read of a key: the mutation if there is one, or else the snapshot's value.
abbrev pub shown : Option Mutation → Option Bytes → Option Bytes
shown none old = old
shown (some m) old = if m.delete then none else some m.value

abbrev pub AboveMutations : Bytes → List Mutation → Type 0
AboveMutations k [] = Unit
AboveMutations k (b ∷ buf) = cmp k b.key ≡ Ordering.lt

abbrev pub IsSorted : List Mutation → Type 0
IsSorted [] = Unit
IsSorted (b ∷ buf) = AboveMutations b.key buf × IsSorted buf

pub low_buf :
    (k : Bytes) (buf : List Mutation)
    → IsSorted buf
    → AboveMutations k buf
    → find_mutation k buf ≡ none
low_buf k [] a h = refl
low_buf k (b ∷ []) a h = ground (arith, eqb_iff b.key k, cmp_refl k)
low_buf k (b ∷ c ∷ buf) a h =
    ground
      (arith, eqb_iff b.key k, cmp_refl k, low_buf k (c ∷ buf) a.1 (cmp_trans k b.key c.key h a.0))

-- One round of the merge on a front entry and a front mutation, from what the three rests show.
merge_step :
    (k j v : Bytes) (es : List Entry) (b : Mutation) (buf : List Mutation)
    (passed both hidden : List Entry)
    → IsAscending ((j, v) ∷ es)
    → IsSorted (b ∷ buf)
    → lookup k passed ≡ shown (find_mutation k (b ∷ buf)) (lookup k es)
    → lookup k both ≡ shown (find_mutation k buf) (lookup k es)
    → lookup k hidden ≡ shown (find_mutation k buf) (lookup k ((j, v) ∷ es))
    → lookup k (elim (cmp b.key j) [
      | Ordering.lt ↦ emit b hidden
      | Ordering.eq ↦ emit b both
      | Ordering.gt ↦ (j, v) ∷ passed
    ])
      ≡ shown (find_mutation k (b ∷ buf)) (lookup k ((j, v) ∷ es))
unfolding lookup
merge_step k j v es b buf passed both hidden a s p q r = ground (
  arith,
  lookup-low j es a.1 a.0,
  low_buf b.key buf s.1 s.0,
  lookup-low b.key ((j, v) ∷ es) a,
  low_buf j (b ∷ buf) s,
  cmp_flip b.key j,
  cmp-eq b.key j,
  eqb_iff b.key k,
  eqb_iff j k,
)

merge-lookup :
    (k : Bytes) (store : List Entry) (buf : List Mutation)
    → IsAscending store
    → IsSorted buf
    → lookup k (merge store buf) ≡ shown (find_mutation k buf) (lookup k store)
unfolding merge lookup
merge-lookup k [] [] a s = refl
merge-lookup k ((j, v) ∷ es) [] a s = ground (arith, merge-lookup k es [] a.1 tt)
merge-lookup k [] (b ∷ buf) a s =
    ground (arith, eqb_iff b.key k, low_buf b.key buf s.1 s.0, merge-lookup k [] buf tt s.1)
merge-lookup k ((j, v) ∷ es) (b ∷ buf) a s =
    merge_step k j v es b buf (merge es (b ∷ buf)) (merge es buf) (merge ((j, v) ∷ es) buf) a s
      (merge-lookup k es (b ∷ buf) a.1 s) (merge-lookup k es buf a.1 s.1)
      (merge-lookup k ((j, v) ∷ es) buf a s.1)

-- Where the snapshot's entries and the buffered mutations stand in ascending order of their
-- keys, a loop over the merged iterator finds for each key what the transaction sees: its own
-- write if there is one, nothing where that is a delete, and the snapshot's value otherwise.
pub scan_all-lookup :
    (k : Bytes) (store : List Entry) (buf : List Mutation)
    → IsAscending store
    → IsSorted buf
    → lookup k (scan_all store buf) ≡ shown (find_mutation k buf) (lookup k store)
unfolding scan_all rewind
scan_all-lookup k store buf a s =
    ap (lookup k) (drain-produce (length store + length buf) store buf (omega arith))
    ∙ merge-lookup k store buf a s

above_mutations :
    (k : Bytes) (b : Mutation) (buf : List Mutation)
    → IsSorted (b ∷ buf)
    → cmp k b.key ≡ Ordering.lt
    → AboveMutations k buf
above_mutations k b [] s h = tt
above_mutations k b (c ∷ buf) s h = cmp_trans k b.key c.key h s.0

emit-Above :
    (k : Bytes) (b : Mutation) (es : List Entry)
    → cmp k b.key ≡ Ordering.lt
    → Above k es
    → Above k (emit b es)
emit-Above k b es h a = elim (Bool-cases b.delete) [
  | inl e ↦ rw (e, Above) a
  | inr e ↦ rw (e, Above) h
]

emit-IsAscending :
    (b : Mutation) (es : List Entry) → Above b.key es → IsAscending es → IsAscending (emit b es)
emit-IsAscending b es h a = elim (Bool-cases b.delete) [
  | inl e ↦ rw (e, IsAscending) a
  | inr e ↦ rw (e, IsAscending) (h, a)
]

merge-Above :
    (k : Bytes) (store : List Entry) (buf : List Mutation)
    → IsAscending store
    → IsSorted buf
    → Above k store
    → AboveMutations k buf
    → Above k (merge store buf)
unfolding merge
merge-Above k [] [] a s h l = tt
merge-Above k ((j, v) ∷ es) [] a s h l = h
merge-Above k [] (b ∷ buf) a s h l =
    emit-Above k b (merge [] buf) l (merge-Above k [] buf a s.1 tt (above_mutations k b buf s l))
merge-Above k ((j, v) ∷ es) (b ∷ buf) a s h l = elim (cmp_total b.key j) [
  | inl e ↦
      rw (e, Above)
        (emit-Above k b _ l (merge-Above k ((j, v) ∷ es) buf a s.1 h (above_mutations k b buf s l)))
  | inr (inl e) ↦
      rw (e, Above)
        (emit-Above k b _ l
          (merge-Above k es buf a.1 s.1 (Above-entries k j v es a h) (above_mutations k b buf s l)))
  | inr (inr e) ↦ rw (e, Above) h
]

merge-IsAscending :
    (store : List Entry) (buf : List Mutation)
    → IsAscending store
    → IsSorted buf
    → IsAscending (merge store buf)
unfolding merge
merge-IsAscending [] [] a s = tt
merge-IsAscending ((j, v) ∷ es) [] a s =
    (merge-Above j es [] a.1 tt a.0 tt, merge-IsAscending es [] a.1 tt)
merge-IsAscending [] (b ∷ buf) a s =
    emit-IsAscending b (merge [] buf) (merge-Above b.key [] buf tt s.1 tt s.0)
      (merge-IsAscending [] buf tt s.1)
merge-IsAscending ((j, v) ∷ es) (b ∷ buf) a s = elim (cmp_total b.key j) [
  | inl e ↦
      rw (e, IsAscending)
        (emit-IsAscending b _ (merge-Above b.key ((j, v) ∷ es) buf a s.1 e s.0)
          (merge-IsAscending ((j, v) ∷ es) buf a s.1))
  | inr (inl e) ↦
      rw (e, IsAscending)
        (emit-IsAscending b _
          (merge-Above b.key es buf a.1 s.1 (subst (λ k. Above k es) (sym (cmp-eq b.key j e)) a.0)
            s.0)
          (merge-IsAscending es buf a.1 s.1))
  | inr (inr e) ↦
      rw (e, IsAscending)
        (
          merge-Above j es (b ∷ buf) a.1 s a.0 (cmp_flip b.key j e),
          merge-IsAscending es (b ∷ buf) a.1 s,
        )
]

-- A loop over the merged iterator meets its keys in strictly ascending order, where the store's entries and the
-- buffered mutations stand in that order.
pub scan_all-IsAscending :
    (store : List Entry) (buf : List Mutation)
    → IsAscending store
    → IsSorted buf
    → IsAscending (scan_all store buf)
unfolding scan_all rewind
scan_all-IsAscending store buf a s =
    subst IsAscending (sym (drain-produce (length store + length buf) store buf (omega arith)))
      (merge-IsAscending store buf a s)
