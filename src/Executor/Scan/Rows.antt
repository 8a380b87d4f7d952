-- ===== src/Executor/Scan/Rows.antt =====
-- The loops of a table scan over any entries.
use basuyudb.Base.{
  ◌≡◌, ◌↔◌, ◌⊎◌, inl, inr, refl, sym, subst, ℕ, true, false, List, [], ◌∷◌, ◌++◌, Bytes, some, ok,
  All, Any, All-weaken, arith, Bool-cases, Result-cases, eqb, eqb→eq, eqb_refl, eqb_iff, length,
  length-append, drop-length, ltb-false,
}
use basuyudb.Storage.Mvcc.History.{Entry, lookup, IsAscending}
use basuyudb.Storage.Mvcc.Entries.{lookup-low}
use basuyudb.Branch.Manager.{is_tombstone}
use basuyudb.Executor.SetOps.{Datum, Seen, set_seen, nothing_seen}
use basuyudb.Executor.RowCodec.{decode_row}
use basuyudb.Executor.Scan.{ScanRow, key_tail, branch_loop, parent_loop}

pub key_tail-append : (prefix tail : Bytes) → key_tail (prefix ++ tail) prefix ≡ tail
unfolding key_tail
key_tail-append prefix tail =
    rw
      (ltb-false (length (prefix ++ tail)) (length prefix)
        (omega (arith, length-append {0} prefix tail)))
      (drop-length prefix tail)

-- An entry of an ascending list is what a lookup of its key finds.
pub All-lookup : (es : List Entry) → IsAscending es → All (λ e. lookup e.0 es ≡ some e.1) es
unfolding lookup
All-lookup [] a = tt
All-lookup ((k, v) ∷ es) (up, a) = (rw (eqb_refl k) refl, All-weaken es behind (All-lookup es a))
  where
    behind : (e : Entry) → lookup e.0 es ≡ some e.1 → lookup e.0 ((k, v) ∷ es) ≡ some e.1
    behind (j, w) h = elim (Bool-cases (eqb k j)) [
      | inr f ↦ rw f h
      | inl f ↦ absurd (let g = lookup-low k es a up in let s = eqb→eq k j f in cc)
    ]

pub lookup-Any :
    (k v : Bytes) (es : List Entry) → lookup k es ≡ some v → Any (λ e. (e.0 ≡ k) × (e.1 ≡ v)) es
unfolding lookup
lookup-Any k v [] h = cc
lookup-Any k v ((j, w) ∷ es) h = elim (Bool-cases (eqb j k)) [
  | inl f ↦ let g : some w ≡ some v = rw (lookup, f) at h in inl (eqb→eq j k f, cc)
  | inr f ↦ inr (lookup-Any k v es (rw (lookup, f) at h))
]

module _ (prefix : Bytes) (ncols : ℕ) where
  -- What the loop over the branch's rows has returned, for the first of its entries.
  branch_turn :
      (key raw : Bytes) (es : List Entry) (seen : Seen) (rows : List ScanRow)
      → branch_loop prefix ncols ((key, raw) ∷ es) ≡ ok (seen, rows)
      → (seen' : Seen) × (rows' : List ScanRow) × (branch_loop prefix ncols es ≡ ok (seen', rows'))
        × (seen ≡ set_seen (key_tail key prefix) seen')
        × (((is_tombstone raw ≡ true) × (rows ≡ rows'))
            ⊎ ((cells : List Datum) × (is_tombstone raw ≡ false)
                × (decode_row raw ncols ≡ ok cells)
                × (rows ≡ record { key = key; cells = cells } ∷ rows')))
  unfolding branch_loop
  branch_turn key raw es seen rows h = elim (Result-cases (branch_loop prefix ncols es)) [
    | inr (x, o) ↦ absurd (elim (Bool-cases (is_tombstone raw)) [
      | inl f ↦ let k = rw (branch_loop, f, o) at h in cc
      | inr f ↦ elim (Result-cases (decode_row raw ncols)) [
        | inl (cells, p) ↦ let k = rw (branch_loop, f, p, o) at h in cc
        | inr (y, p) ↦ let k = rw (branch_loop, f, p) at h in cc
      ]
    ])
    | inl ((seen', rows'), o) ↦ elim (Bool-cases (is_tombstone raw)) [
      | inl f ↦
          let k : ok (set_seen (key_tail key prefix) seen', rows') ≡ ok (seen, rows) =
            rw (branch_loop, f, o) at h in
          (seen', rows', o, sym (cc), inl (f, cc))
      | inr f ↦ elim (Result-cases (decode_row raw ncols)) [
        | inr (y, p) ↦ absurd (let k = rw (branch_loop, f, p) at h in cc)
        | inl (cells, p) ↦
            let k : ok (
              set_seen (key_tail key prefix) seen',
              record { key = key; cells = cells } ∷ rows',
            )
                ≡ ok (seen, rows) =
              rw (branch_loop, f, p, o) at h in
            (seen', rows', o, sym (cc), inr (cells, f, p, cc))
      ]
    ]
  ]

  -- A row that was emitted for an entry.
  pub record Made (e : Entry) (r : ScanRow) : Type 0 where
    pub key_same : r.key ≡ e.0
    pub live : is_tombstone e.1 ≡ false
    pub decoded : decode_row e.1 ncols ≡ ok r.cells

  set_seen_iff :
      (key tail : Bytes) (seen : Seen)
      → (set_seen key seen tail ≡ true) ↔ ((key ≡ tail) ⊎ (seen tail ≡ true))
  set_seen_iff key tail seen = elim (Bool-cases (eqb key tail)) [
    | inl f ↦ (λ h. inl (eqb→eq key tail f), λ h. rw f refl)
    | inr f ↦ (
      λ h. inr (rw f at h),
      λ h. rw f (elim h [ inl e ↦ absurd (let g = (eqb_iff key tail).1 e in cc) | inr s ↦ s ]),
    )
  ]

  pub branch_loop-seen :
      (es : List Entry) (seen : Seen) (rows : List ScanRow) (tail : Bytes)
      → branch_loop prefix ncols es ≡ ok (seen, rows)
      → (seen tail ≡ true) ↔ Any (λ e. key_tail e.0 prefix ≡ tail) es
  unfolding branch_loop
  branch_loop-seen [] seen rows tail h =
      let e : nothing_seen ≡ seen = cc in
      (λ s. let k = subst (λ f. f tail ≡ true) (sym e) s in cc, λ n. absurd n)
  branch_loop-seen ((key, raw) ∷ es) seen rows tail h =
      let (seen', rows', o, s, c) = branch_turn key raw es seen rows h in
      let (a, b) = set_seen_iff (key_tail key prefix) tail seen' in
      let (to, from) = branch_loop-seen es seen' rows' tail o in
      (
        λ k. elim (a (subst (λ f. f tail ≡ true) s k)) [ inl x ↦ inl x | inr y ↦ inr (to y) ],
        λ k.
            subst (λ f. f tail ≡ true) (sym s)
              (b (elim k [ inl x ↦ inl x | inr y ↦ inr (from y) ])),
      )

  pub branch_loop_complete :
      (P : Entry → Type 0) (es : List Entry) (seen : Seen) (rows : List ScanRow)
      → branch_loop prefix ncols es ≡ ok (seen, rows)
      → Any (λ e. P e × (is_tombstone e.1 ≡ false)) es
      → Any (λ r. (e : Entry) × P e × Made e r) rows
  branch_loop_complete P [] seen rows h n = absurd n
  branch_loop_complete P ((key, raw) ∷ es) seen rows h n =
      let (seen', rows', o, s, c) = branch_turn key raw es seen rows h in
      elim c [
        | inl (t, e) ↦ subst (Any (λ r. (e : Entry) × P e × Made e r)) (sym e) (elim n [
          | inl (x, l) ↦ absurd (cc)
          | inr m ↦ branch_loop_complete P es seen' rows' o m
        ])
        | inr (cells, t, d, e) ↦ subst (Any (λ r. (e : Entry) × P e × Made e r)) (sym e) (elim n [
          | inl (x, l) ↦ inl ((key, raw), x, record { key_same = refl; live = t; decoded = d })
          | inr m ↦ inr (branch_loop_complete P es seen' rows' o m)
        ])
      ]

  pub branch_loop_sound :
      (P : Entry → Type 0) (es : List Entry) (seen : Seen) (rows : List ScanRow)
      → branch_loop prefix ncols es ≡ ok (seen, rows)
      → All P es
      → All (λ r. (e : Entry) × P e × Made e r) rows
  unfolding branch_loop
  branch_loop_sound P [] seen rows h a =
      let e : [] ≡ rows = cc in subst (All (λ r. (e : Entry) × P e × Made e r)) e tt
  branch_loop_sound P ((key, raw) ∷ es) seen rows h (a, b) =
      let (seen', rows', o, s, c) = branch_turn key raw es seen rows h in
      let more = branch_loop_sound P es seen' rows' o b in
      elim c [
        | inl (t, e) ↦ subst (All (λ r. (e : Entry) × P e × Made e r)) (sym e) more
        | inr (cells, t, d, e) ↦
            subst (All (λ r. (e : Entry) × P e × Made e r)) (sym e)
              (((key, raw), a, record { key_same = refl; live = t; decoded = d }), more)
      ]

  module _ (seen : Seen) where
    -- What the loop over the parent's rows has returned, for the first of its entries.
    parent_turn :
        (key raw : Bytes) (es : List Entry) (rows : List ScanRow)
        → parent_loop prefix ncols seen ((key, raw) ∷ es) ≡ ok rows
        → (rows' : List ScanRow) × (parent_loop prefix ncols seen es ≡ ok rows')
          × ((((seen (key_tail key prefix) ≡ true) ⊎ (is_tombstone raw ≡ true)) × (rows ≡ rows'))
              ⊎ ((cells : List Datum) × (seen (key_tail key prefix) ≡ false)
                  × (is_tombstone raw ≡ false)
                  × (decode_row raw ncols ≡ ok cells)
                  × (rows ≡ record { key = key; cells = cells } ∷ rows')))
    unfolding parent_loop
    parent_turn key raw es rows h = elim (Bool-cases (seen (key_tail key prefix))) [
      | inl f ↦ let k = rw (parent_loop, f) at h in (rows, k, inl (inl f, refl))
      | inr f ↦ elim (Bool-cases (is_tombstone raw)) [
        | inl g ↦ let k = rw (parent_loop, f, g) at h in (rows, k, inl (inr g, refl))
        | inr g ↦ elim (Result-cases (decode_row raw ncols)) [
          | inr (y, p) ↦ absurd (let k = rw (parent_loop, f, g, p) at h in cc)
          | inl (cells, p) ↦ elim (Result-cases (parent_loop prefix ncols seen es)) [
            | inr (y, o) ↦ absurd (let k = rw (parent_loop, f, g, p, o) at h in cc)
            | inl (rows', o) ↦
                let k : ok (record { key = key; cells = cells } ∷ rows') ≡ ok rows =
                  rw (parent_loop, f, g, p, o) at h in
                (rows', o, inr (cells, f, g, p, cc))
          ]
        ]
      ]
    ]

    pub parent_loop_complete :
        (P : Entry → Type 0) (es : List Entry) (rows : List ScanRow)
        → parent_loop prefix ncols seen es ≡ ok rows
        → Any (λ e. P e × (seen (key_tail e.0 prefix) ≡ false) × (is_tombstone e.1 ≡ false)) es
        → Any (λ r. (e : Entry) × P e × Made e r) rows
    parent_loop_complete P [] rows h n = absurd n
    parent_loop_complete P ((key, raw) ∷ es) rows h n =
        let (rows', o, c) = parent_turn key raw es rows h in
        elim c [
          | inl (t, e) ↦ subst (Any (λ r. (e : Entry) × P e × Made e r)) (sym e) (elim n [
            | inl (x, l, m) ↦ absurd (elim t [ inl y ↦ cc | inr y ↦ cc ])
            | inr m ↦ parent_loop_complete P es rows' o m
          ])
          | inr (cells, f, t, d, e) ↦
              subst (Any (λ r. (e : Entry) × P e × Made e r)) (sym e) (elim n [
                | inl (x, l, m) ↦
                    inl ((key, raw), x, record { key_same = refl; live = t; decoded = d })
                | inr m ↦ inr (parent_loop_complete P es rows' o m)
              ])
        ]

    pub parent_loop_sound :
        (P : Entry → Type 0) (es : List Entry) (rows : List ScanRow)
        → parent_loop prefix ncols seen es ≡ ok rows
        → All P es
        → All (λ r. (e : Entry) × P e × (seen (key_tail e.0 prefix) ≡ false) × Made e r) rows
    unfolding parent_loop
    parent_loop_sound P [] rows h a =
        let e : [] ≡ rows = cc in
        subst (All (λ r. (e : Entry) × P e × (seen (key_tail e.0 prefix) ≡ false) × Made e r)) e tt
    parent_loop_sound P ((key, raw) ∷ es) rows h (a, b) =
        let (rows', o, c) = parent_turn key raw es rows h in
        let more = parent_loop_sound P es rows' o b in
        elim c [
          | inl (t, e) ↦
              subst (All (λ r. (e : Entry) × P e × (seen (key_tail e.0 prefix) ≡ false) × Made e r))
                (sym e) more
          | inr (cells, f, t, d, e) ↦
              subst (All (λ r. (e : Entry) × P e × (seen (key_tail e.0 prefix) ≡ false) × Made e r))
                (sym e)
                (((key, raw), a, f, record { key_same = refl; live = t; decoded = d }), more)
        ]
