-- ===== src/Executor/Scan/View.antt =====
-- The rows that a table scan answers with are the rows that the branch shows.
use basuyudb.Base.{
  ◌≡◌, ◌⊎◌, inl, inr, refl, sym, ap, ◌∙◌, subst, ℕ, true, false, List, [], ◌++◌, Bytes, some,
  Result, ok, err, Error, All, Any, All-weaken, Any-weaken, Any-witness, Any-left, Any-right,
  Any-with, arith, Bool-cases, Result-cases, key_not_found, has_prefix, has_prefix-append,
  has_prefix→split,
}
use basuyudb.Storage.Mvcc.{Badger, BadgerLaws}
use basuyudb.Storage.Mvcc.History.{Entry, lookup}
use basuyudb.Transactions.Engine.{Replicated, Engine, Txn, get, scan}
use basuyudb.Transactions.Engine.Scans.{value_of, scan-get}
use basuyudb.Branch.Manager.{is_tombstone}
use basuyudb.Branch.Manager.Effect.{row_on_branch}
use basuyudb.Executor.SetOps.{Seen}
use basuyudb.Executor.RowCodec.{decode_row}
use basuyudb.Executor.Scan.{ScanRow, key_tail, branch_loop, parent_loop}
use basuyudb.Executor.Scan.Rows.{
  All-lookup, lookup-Any, key_tail-append, branch_loop-seen, branch_loop_complete,
  branch_loop_sound, parent_loop_complete, parent_loop_sound,
}

value_of_ok : (r : Result Bytes) (v : Bytes) → value_of r ≡ some v → r ≡ ok v
value_of_ok (ok x) v h = ground arith
value_of_ok (err x) v h = cc

-- The row that is shown has these cells, under one of the prefixes.
abbrev pub IsRowOf : ℕ → Bytes → Bytes → Bytes → Bytes → ScanRow → Type 0
IsRowOf ncols here there tail raw r =
    (decode_row raw ncols ≡ ok r.cells) × ((r.key ≡ here ++ tail) ⊎ (r.key ≡ there ++ tail))

module _ (B : Badger) (L : BadgerLaws B) (R : Replicated B.Db) (e : Engine B R) (t : Txn)
    (undone : t.done ≡ false) where
  -- An entry of a scan is an answer of Get.
  abbrev Found : Bytes → Entry → Type 0
  Found p en = (tail : Bytes) × (en.0 ≡ p ++ tail) × (get B R e t (p ++ tail) ≡ ok en.1)

  scan-Found : (p : Bytes) → All (Found p) (scan B R e t p)
  scan-Found p =
      All-weaken (scan B R e t p) found
        (All-lookup (scan B R e t p) (scan-get B L R e t p [] undone).0)
    where
      found : (en : Entry) → lookup en.0 (scan B R e t p) ≡ some en.1 → Found p en
      found (k, v) h = elim (Bool-cases (has_prefix k p)) [
        | inr f ↦ absurd (let g = (scan-get B L R e t p k undone).1 in let m = rw f at g in cc)
        | inl f ↦
            let g = (scan-get B L R e t p k undone).1 in
            let m = rw f at g in
            let (tail, s) = has_prefix→split k p f in
            (
              tail,
              s,
              subst (λ x. get B R e t x ≡ ok v) s (value_of_ok (get B R e t k) v (sym m ∙ h)),
            )
      ]

  scan-finds :
      (p tail v : Bytes)
      → get B R e t (p ++ tail) ≡ ok v
      → Any (λ en. (en.0 ≡ p ++ tail) × (en.1 ≡ v)) (scan B R e t p)
  scan-finds p tail v h =
      let g = (scan-get B L R e t p (p ++ tail) undone).1 in
      let m = rw (has_prefix-append p tail) at g in
      lookup-Any (p ++ tail) v (scan B R e t p) (m ∙ ap value_of h)

  live_shown :
      (p tail raw : Bytes)
      → get B R e t (p ++ tail) ≡ ok raw
      → is_tombstone raw ≡ false
      → (o : Result Bytes) → row_on_branch (get B R e t (p ++ tail)) o ≡ ok raw
  live_shown p tail raw g l o = rw (g, l) refl

  pub shown_live :
      (r o : Result Bytes) (raw : Bytes)
      → row_on_branch r o ≡ ok raw
      → ((r ≡ ok raw) × (is_tombstone raw ≡ false)) ⊎ (((x : Error) × (r ≡ err x)) × (o ≡ ok raw))
  shown_live (err x) o raw h = inr ((x, refl), h)
  shown_live (ok v) o raw h = elim (Bool-cases (is_tombstone v)) [
    | inl f ↦ absurd (let k = rw f at h in cc)
    | inr f ↦ let k = rw f at h in let s : v ≡ raw = cc in inl (k, rw (← s) f)
  ]

  module _ (here : Bytes) (ncols : ℕ) (seen : Seen) (rows : List ScanRow)
      (looped : branch_loop here ncols (scan B R e t here) ≡ ok (seen, rows)) where
    -- A tail is seen if the branch has any value for it.
    seen_found :
        (tail : Bytes) → seen tail ≡ true → (raw : Bytes) × (get B R e t (here ++ tail) ≡ ok raw)
    seen_found tail s =
        Any-witness (scan B R e t here)
          (λ en m.
            let (tail', k, g) = m.0 in
            let same : tail' ≡ tail =
              sym (key_tail-append here tail') ∙ ap (λ k. key_tail k here) (sym k) ∙ m.1 in
            (en.1, subst (λ x. get B R e t (here ++ x) ≡ ok en.1) same g))
          (Any-with (Found here) (λ en. key_tail en.0 here ≡ tail) (scan B R e t here)
            (scan-Found here)
            ((branch_loop-seen here ncols (scan B R e t here) seen rows tail looped).0 s))

    unseen_missing :
        (tail : Bytes) → seen tail ≡ false → (x : Error) × (get B R e t (here ++ tail) ≡ err x)
    unseen_missing tail s = elim (Result-cases (get B R e t (here ++ tail))) [
      | inr m ↦ m
      | inl (raw, g) ↦ absurd (
          let k = (branch_loop-seen here ncols (scan B R e t here) seen rows tail looped).1 (
            Any-weaken (scan B R e t here)
              (λ en m. ap (λ k. key_tail k here) m.0 ∙ key_tail-append here tail)
              (scan-finds here tail raw g)) in
          cc)
    ]

    pub branch_sound :
        (there : Bytes) (o : Bytes → Result Bytes)
        → All
            (λ r.
              (tail : Bytes) × (raw : Bytes) × (row_on_branch (get B R e t (here ++ tail)) (o tail)
                ≡ ok raw)
              × IsRowOf ncols here there tail raw r)
            rows
    branch_sound there o =
        All-weaken rows
          (λ r m.
            let (en, (tail, k, g), made) = m in
            (
              tail,
              en.1,
              live_shown here tail en.1 g made.live (o tail),
              (made.decoded, inl (made.key_same ∙ k)),
            ))
          (branch_loop_sound here ncols (Found here) (scan B R e t here) seen rows looped
            (scan-Found here))

    pub branch_complete :
        (there tail raw : Bytes)
        → get B R e t (here ++ tail) ≡ ok raw
        → is_tombstone raw ≡ false
        → Any (IsRowOf ncols here there tail raw) rows
    branch_complete there tail raw g l =
        Any-weaken rows
          (λ r m.
            let (en, (k, v), made) = m in
            (subst (λ x. decode_row x ncols ≡ ok r.cells) v made.decoded, inl (made.key_same ∙ k)))
          (branch_loop_complete here ncols (λ en. (en.0 ≡ here ++ tail) × (en.1 ≡ raw))
            (scan B R e t here) seen rows looped
            (Any-weaken (scan B R e t here)
              (λ en m. (m, subst (λ x. is_tombstone x ≡ false) (sym m.1) l))
              (scan-finds here tail raw g)))

    module _ (there : Bytes) (more : List ScanRow)
        (parent_looped : parent_loop there ncols seen (scan B R e t there) ≡ ok more) where
      pub parent_sound :
          All
            (λ r.
              (tail : Bytes) × (raw : Bytes) × (row_on_branch
                  (get B R e t (here ++ tail))
                  (row_on_branch (get B R e t (there ++ tail)) (err key_not_found))
                ≡ ok raw)
              × IsRowOf ncols here there tail raw r)
            more
      parent_sound =
          All-weaken more
            (λ r m.
              let (en, (tail, k, g), unseen, made) = m in
              let (x, missing) = unseen_missing tail (
                subst (λ y. seen y ≡ false)
                  (ap (λ k. key_tail k there) k ∙ key_tail-append there tail) unseen) in
              (
                tail,
                en.1,
                rw missing (live_shown there tail en.1 g made.live (err key_not_found)),
                (made.decoded, inr (made.key_same ∙ k)),
              ))
            (parent_loop_sound there ncols seen (Found there) (scan B R e t there) more
              parent_looped (scan-Found there))

      parent_complete :
          (tail raw : Bytes)
          → seen tail ≡ false
          → get B R e t (there ++ tail) ≡ ok raw
          → is_tombstone raw ≡ false
          → Any (IsRowOf ncols here there tail raw) more
      parent_complete tail raw unseen g l =
          Any-weaken more
            (λ r m.
              let (en, (k, v), made) = m in
              (
                subst (λ x. decode_row x ncols ≡ ok r.cells) v made.decoded,
                inr (made.key_same ∙ k),
              ))
            (parent_loop_complete there ncols seen (λ en. (en.0 ≡ there ++ tail) × (en.1 ≡ raw))
              (scan B R e t there) more parent_looped
              (Any-weaken (scan B R e t there)
                (λ en m. (
                  m,
                  subst (λ y. seen y ≡ false)
                      (sym (ap (λ k. key_tail k there) m.0 ∙ key_tail-append there tail)) unseen,
                  subst (λ x. is_tombstone x ≡ false) (sym m.1) l,
                ))
                (scan-finds there tail raw g)))

      pub through_complete :
          (tail raw : Bytes)
          → row_on_branch
              (get B R e t (here ++ tail))
              (row_on_branch (get B R e t (there ++ tail)) (err key_not_found))
            ≡ ok raw
          → Any (IsRowOf ncols here there tail raw) (rows ++ more)
      through_complete tail raw h =
          elim (shown_live (get B R e t (here ++ tail))
            (row_on_branch (get B R e t (there ++ tail)) (err key_not_found)) raw h) [
              | inl (g, l) ↦
                  Any-left (IsRowOf ncols here there tail raw) rows more
                    (branch_complete there tail raw g l)
              | inr ((x, g), o) ↦
                  elim (shown_live (get B R e t (there ++ tail)) (err key_not_found) raw o) [
                    | inl (p, l) ↦ Any-right (IsRowOf ncols here there tail raw) rows more (
                        parent_complete tail raw
                          (elim (Bool-cases (seen tail)) [
                            | inr f ↦ f
                            | inl f ↦ absurd (let (v, w) = seen_found tail f in cc)
                          ])
                          p l)
                    | inr (y, q) ↦ absurd (cc)
                  ]
            ]
