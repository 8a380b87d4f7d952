-- ===== src/Executor/IndexScan/Bounds.antt =====
-- The bounds that are read off a WHERE clause hold of the column in every row that satisfies it.
use basuyudb.Base.{
  ◌≡◌, refl, subst, inl, inr, Bool, true, false, List, Bytes, codes, Option, none, some, eqb,
  eqb_iff, if◌then◌else◌, Bool-cases, Option-cases,
}
use basuyudb.Executor.SetOps.{Datum}
use basuyudb.Executor.IndexScan.{
  ColBounds, merge_bounds, newer, flip_op, bounds_of_op, Operand, column_ref, a_const, param_ref,
  other_operand, ColRef, as_col_ref, is_const_node, resolve_const_text, AExpr, Sides, one_way,
  read_sides, Where, Wheres, comparison, conjunction, other, end, also, matches_rel,
  bounds_of_sides, sides_bounds, bound_from_comparison, join_bounds, extract_loop,
  extract_col_bounds,
}

-- What an operator compares.
pub data OpKind : Type 0 where
  equal greater less unknown : OpKind

unfoldable pub op_kind : Bytes → OpKind
op_kind op =
    if eqb op (codes "=")
    then equal
    else if eqb op (codes ">")
    then greater
    else if eqb op (codes ">=")
    then greater
    else if eqb op (codes "<")
    then less
    else if eqb op (codes "<=")
    then less
    else unknown

-- The order of the values that texts stand for, and a row: the text of each of its columns.
module _ (Le : Bytes → Bytes → Type 0) (row : Bytes → Bytes) where
  abbrev AtLeast : Option Bytes → Bytes → Type 0
  AtLeast none v = Unit {0}
  AtLeast (some l) v = Le l v

  abbrev AtMost : Option Bytes → Bytes → Type 0
  AtMost none v = Unit {0}
  AtMost (some h) v = Le v h

  -- The row's value of the column lies between the ends of the bounds.
  pub record Within (b : ColBounds) : Type 0 where
    pub from_lo : AtLeast b.lo (row b.col)
    pub to_hi : AtMost b.hi (row b.col)

  -- What a comparison that holds says of the values on its sides, without its strictness.
  abbrev Compares : OpKind → Bytes → Bytes → Type 0
  Compares equal x y = Le x y × Le y x
  Compares greater x y = Le y x
  Compares less x y = Le x y
  Compares unknown x y = Unit {0}

  abbrev ComparesSome : OpKind → Option Bytes → Option Bytes → Type 0
  ComparesSome k none y = Unit {0}
  ComparesSome k (some x) none = Unit {0}
  ComparesSome k (some x) (some y) = Compares k x y

  merge-Within :
      (a b : ColBounds) → row a.col ≡ row b.col → Within a → Within b → Within (merge_bounds a b)
  unfolding merge_bounds newer
  merge-Within a b same p q = record {
    from_lo = lower a.lo b.lo p.from_lo (rw same q.from_lo);
    to_hi = upper a.hi b.hi p.to_hi (rw same q.to_hi);
  }
    where
      lower :
          (x y : Option Bytes)
          → AtLeast x (row a.col)
          → AtLeast y (row a.col)
          → AtLeast (newer x y) (row a.col)
      lower x none p q = p
      lower x (some y) p q = q

      upper :
          (x y : Option Bytes)
          → AtMost x (row a.col)
          → AtMost y (row a.col)
          → AtMost (newer x y) (row a.col)
      upper x none p q = p
      upper x (some y) p q = q

  abbrev WithinSome : Option ColBounds → Type 0
  WithinSome none = Unit {0}
  WithinSome (some b) = Within b

  op-WithinSome :
      (op col text : Bytes)
      → Compares (op_kind op) (row col) text
      → WithinSome (bounds_of_op op col text)
  unfolding op_kind bounds_of_op
  op-WithinSome op col text h = elim (Bool-cases (eqb op (codes "="))) [
    | inl e ↦ let k = rw (op_kind, e) at h in rw e (record { from_lo = k.1; to_hi = k.0 })
    | inr e ↦ elim (Bool-cases (eqb op (codes ">"))) [
      | inl f ↦ let k = rw (op_kind, e, f) at h in rw (e, f) (record { from_lo = k; to_hi = tt })
      | inr f ↦ elim (Bool-cases (eqb op (codes ">="))) [
        | inl g ↦
            let k = rw (op_kind, e, f, g) at h in rw (e, f, g) (record { from_lo = k; to_hi = tt })
        | inr g ↦ elim (Bool-cases (eqb op (codes "<"))) [
          | inl i ↦
              let k = rw (op_kind, e, f, g, i) at h in
              rw (e, f, g, i) (record { from_lo = tt; to_hi = k })
          | inr i ↦ elim (Bool-cases (eqb op (codes "<="))) [
            | inl j ↦
                let k = rw (op_kind, e, f, g, i, j) at h in
                rw (e, f, g, i, j) (record { from_lo = tt; to_hi = k })
            | inr j ↦ rw (e, f, g, i, j) tt
          ]
        ]
      ]
    ]
  ]

  -- The flipped operator says the same of the sides exchanged.
  flip-Compares : (op x y : Bytes) → Compares (op_kind op) x y → Compares (op_kind (flip_op op)) y x
  unfolding op_kind flip_op eqb
  flip-Compares op x y h = elim (Bool-cases (eqb op (codes ">"))) [
    | inl e ↦ let o = (eqb_iff op (codes ">")).0 e in rw o (rw o at h)
    | inr e ↦ elim (Bool-cases (eqb op (codes ">="))) [
      | inl f ↦ let o = (eqb_iff op (codes ">=")).0 f in rw o (rw o at h)
      | inr f ↦ elim (Bool-cases (eqb op (codes "<"))) [
        | inl g ↦ let o = (eqb_iff op (codes "<")).0 g in rw o (rw o at h)
        | inr g ↦ elim (Bool-cases (eqb op (codes "<="))) [
          | inl i ↦ let o = (eqb_iff op (codes "<=")).0 i in rw o (rw o at h)
          | inr i ↦ elim (Bool-cases (eqb op (codes "="))) [
            | inl j ↦ let o = (eqb_iff op (codes "=")).0 j in let k = rw o at h in rw o (k.1, k.0)
            | inr j ↦ rw (flip_op, e, f, g, i) (rw (op_kind, j, e, f, g, i) tt)
          ]
        ]
      ]
    ]
  ]

  flip-ComparesSome :
      (op : Bytes) (x y : Option Bytes)
      → ComparesSome (op_kind op) x y
      → ComparesSome (op_kind (flip_op op)) y x
  flip-ComparesSome op none none h = tt
  flip-ComparesSome op none (some y) h = tt
  flip-ComparesSome op (some x) none h = tt
  flip-ComparesSome op (some x) (some y) h = flip-Compares op x y h

  module _ (equal_fold : Bytes → Bytes → Bool) (alias rel_name : Bytes) (params : List Datum) where
    -- The text of a column of the row, if the reference is one to the scanned table.
    unfoldable pub column_text : Option ColRef → Option Bytes
    column_text none = none
    column_text (some c) =
        if matches_rel equal_fold alias rel_name params c.qualifier then some (row c.name) else none

    -- The text of a side of a comparison in the row: of a constant, or of a column of the scanned table. Nothing is known of
    -- other operands.
    unfoldable pub side_text : Operand → Option Bytes
    side_text o =
        if is_const_node o then resolve_const_text params o else column_text (as_col_ref o)

    abbrev Holds : AExpr → Type 0
    Holds ae = ComparesSome (op_kind ae.op) (side_text ae.lexpr) (side_text ae.rexpr)

    const-no_col : (o : Operand) (c : ColRef) → as_col_ref o ≡ some c → is_const_node o ≡ false
    unfolding as_col_ref is_const_node
    const-no_col (column_ref fields) c h = refl
    const-no_col (a_const null text) c h = cc
    const-no_col (param_ref number) c h = cc
    const-no_col other_operand c h = refl

    one_way-some :
        (oc : Option ColRef) (k : Operand) (fl : Bool) (s : Sides)
        → one_way oc k fl ≡ some s
        → (c : ColRef) × (oc ≡ some c) × (is_const_node k ≡ true)
    unfolding one_way
    one_way-some none k fl s h = cc
    one_way-some (some c) k fl s h = elim (Bool-cases (is_const_node k)) [
      | inl e ↦ (c, refl, e)
      | inr e ↦ absurd (let r = rw (one_way, e) at h in cc)
    ]

    one_way-WithinSome :
        (op : Bytes) (oc : Option ColRef) (k : Operand) (fl : Bool)
        → ComparesSome
            (op_kind (if fl then flip_op op else op))
            (column_text oc)
            (resolve_const_text params k)
        → WithinSome (sides_bounds equal_fold alias rel_name params op (one_way oc k fl))
    unfolding one_way sides_bounds bounds_of_sides column_text
    one_way-WithinSome op none k fl h = tt
    one_way-WithinSome op (some c) k fl h = elim (Bool-cases (is_const_node k)) [
      | inr e ↦ rw e tt
      | inl e ↦ elim (Bool-cases (matches_rel equal_fold alias rel_name params c.qualifier)) [
        | inr f ↦ rw (e, f) tt
        | inl f ↦ elim (Option-cases (resolve_const_text params k)) [
          | inl n ↦ rw (e, f, n) tt
          | inr (text, n) ↦
              rw (e, f, n)
                (op-WithinSome (if fl then flip_op op else op) c.name text
                  (rw (column_text, f, n) at h))
        ]
      ]
    ]

    read-WithinSome :
        (ae : AExpr)
        → Holds ae
        → WithinSome (sides_bounds equal_fold alias rel_name params ae.op (read_sides ae))
    unfolding read_sides side_text
    read-WithinSome ae h = elim (Option-cases (one_way (as_col_ref ae.lexpr) ae.rexpr false)) [
      | inr (s, e) ↦
          let (c, f, g) = one_way-some (as_col_ref ae.lexpr) ae.rexpr false s e in
          let k = const-no_col ae.lexpr c f in
          let w =
            one_way-WithinSome ae.op (as_col_ref ae.lexpr) ae.rexpr false
              (rw (side_text, k, g) at h) in
          rw (read_sides, e) (rw e at w)
      | inl n ↦ elim (Option-cases (one_way (as_col_ref ae.rexpr) ae.lexpr true)) [
        | inl e ↦ rw (read_sides, n, e) (unfold sides_bounds in tt)
        | inr (s, e) ↦
            let (c, f, g) = one_way-some (as_col_ref ae.rexpr) ae.lexpr true s e in
            let k = const-no_col ae.rexpr c f in
            let h' = flip-ComparesSome ae.op (side_text ae.lexpr) (side_text ae.rexpr) h in
            let w =
              one_way-WithinSome ae.op (as_col_ref ae.rexpr) ae.lexpr true
                (rw (side_text, k, g) at h') in
            rw (read_sides, n) w
      ]
    ]

    gate-WithinSome :
        (c : Bool) (o : Option ColBounds) → WithinSome o → WithinSome (if c then o else none)
    gate-WithinSome true o w = w
    gate-WithinSome false o w = tt

    comparison-WithinSome :
        (ae : AExpr)
        → Holds ae
        → WithinSome (bound_from_comparison equal_fold alias rel_name params ae)
    unfolding bound_from_comparison
    comparison-WithinSome ae h = gate-WithinSome ae.is_op _ (read-WithinSome ae h)

    -- What a clause that holds of the row says. Nothing is known of the clauses that are not read.
    unfoldable mutual
      pub Meets : Where → Type 0
      Meets (comparison c) = Holds c
      Meets (conjunction ws) = MeetsAll ws
      Meets other = Unit {0}

      pub MeetsAll : Wheres → Type 0
      MeetsAll end = Unit {0}
      MeetsAll (also w ws) = Meets w × MeetsAll ws

    chain-WithinSome :
        (o : Option ColBounds) (next : ColBounds → Option ColBounds)
        → WithinSome o
        → ((b : ColBounds) → Within b → WithinSome (next b))
        → WithinSome (elim o [ none ↦ none | some b ↦ next b ])
    chain-WithinSome none next w f = tt
    chain-WithinSome (some b) next w f = f b w

    -- Two names of one column have one value in the row.
    module _ (folds : (a b : Bytes) → equal_fold a b ≡ true → row a ≡ row b) where
      join_bounds-Within :
          (acc : Option ColBounds) (b : ColBounds)
          → WithinSome acc
          → Within b
          → WithinSome (join_bounds equal_fold alias rel_name params acc b)
      unfolding join_bounds
      join_bounds-Within none b w p = p
      join_bounds-Within (some a) b w p = elim (Bool-cases (equal_fold a.col b.col)) [
        | inl f ↦ rw f (merge-Within a b (folds a.col b.col f) w p)
        | inr f ↦ rw f tt
      ]

      mutual
        unfolding extract_col_bounds Meets

        extract-WithinSome :
            (w : Where)
            → Meets w
            → WithinSome (extract_col_bounds equal_fold alias rel_name params w)
        extract-WithinSome (comparison c) m = comparison-WithinSome c m
        extract-WithinSome (conjunction ws) m = loop-WithinSome none ws tt m
        extract-WithinSome other m = tt

        loop-WithinSome :
            (acc : Option ColBounds) (ws : Wheres)
            → WithinSome acc
            → MeetsAll ws
            → WithinSome (extract_loop equal_fold alias rel_name params acc ws)
        loop-WithinSome acc end p m = p
        loop-WithinSome acc (also w ws) p (q, m) =
            let o = extract-WithinSome w q in
            chain-WithinSome (extract_col_bounds equal_fold alias rel_name params w)
              (λ b. elim (join_bounds equal_fold alias rel_name params acc b) [
                | none ↦ none
                | some acc' ↦ extract_loop equal_fold alias rel_name params (some acc') ws
              ])
              o
              (λ b r.
                chain-WithinSome (join_bounds equal_fold alias rel_name params acc b)
                  (λ acc'. extract_loop equal_fold alias rel_name params (some acc') ws)
                  (join_bounds-Within acc b p r) (λ acc' p'. loop-WithinSome (some acc') ws p' m))

      -- The bounds that extractColBounds reads off a WHERE clause (a comparison of a column of the scanned table with a
      -- constant or a bound parameter, on either side, or an AND of such clauses, nested at will) hold of the value of their
      -- column in every row of which the clause holds, for any order of the values, where two names that are equal up to
      -- letter case name one column.
      pub extract_col_bounds-Within :
          (w : Where) (b : ColBounds)
          → extract_col_bounds equal_fold alias rel_name params w ≡ some b
          → Meets w
          → Within b
      extract_col_bounds-Within w b h m = subst (λ o. WithinSome o) h (extract-WithinSome w m)
