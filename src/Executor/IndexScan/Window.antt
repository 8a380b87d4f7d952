-- ===== src/Executor/IndexScan/Window.antt =====
-- The byte range of an index scan holds exactly the entries whose values are in the bounds, and the scan meets exactly those.
use basuyudb.Base.{
  ◌≡◌, ◌≢◌, refl, sym, ap, ◌∙◌, inl, inr, ℕ, ◌+◌, Bool, true, false, not, ◌&&◌, List, [], ◌∷◌, ◌++◌,
  append_assoc, append-nil, subst, ap₂, ◌==◌, eqb, eqb→eq, eqb_iff, All, All-weaken, cmp_flip,
  cmp_flip_lt, cmp_total, Bytes, Option, none, some, Result, ok, err, ◌>>=◌, if◌then◌else◌, cmp,
  cmp_trans, cmp_refl, Ordering, arith, Bool-cases,
}
use basuyudb.Storage.Mvcc.History.{Entry, IsAscending}
use basuyudb.Storage.Iterator.{seek_forward}
use basuyudb.Executor.SetOps.{Datum}
use basuyudb.Executor.OrderEnc.PrefixFree.{NoPrefix}
use basuyudb.Executor.IndexScan.{
  is_lt, is_gt, lo_key, hi_key, below, above, limit_reached, range_loop,
}

-- A common prefix does not count.
cmp-append : (p x y : Bytes) → cmp (p ++ x) (p ++ y) ≡ cmp x y
unfolding cmp
cmp-append [] x y = refl
cmp-append (c ∷ p) x y = ground (arith, cmp-append p x y)

-- With something behind one of them, two strings of which neither begins with the other compare as before.
NoPrefix-tail : (a : ℕ) (x y : Bytes) → NoPrefix (a ∷ x) (a ∷ y) → NoPrefix x y
NoPrefix-tail a x y n r s e = let k = n r s (ap (λ l. a ∷ l) e) in cc

cmp-behind : (x y r s : Bytes) → NoPrefix x y → x ≢ y → cmp (x ++ r) (y ++ s) ≡ cmp x y
unfolding cmp
cmp-behind [] y r s n d = absurd (d (n y [] (sym (append-nil y))))
cmp-behind (a ∷ x) [] r s n d = absurd (d (n [] (a ∷ x) (append-nil (a ∷ x))))
cmp-behind (a ∷ x) (b ∷ y) r s n d = elim (Bool-cases (a == b)) [
  | inr f ↦ ground arith
  | inl f ↦
      let e : a ≡ b = ground arith in
      let same =
        cmp-behind x y r s (NoPrefix-tail a x y (subst (λ c. NoPrefix (a ∷ x) (c ∷ y)) (sym e) n))
          (λ k. d (ap₂ (λ c l. c ∷ l) e k)) in
      ground (arith, same)
]

cmp-longer : (x r : Bytes) (c : ℕ) → cmp (x ++ (c ∷ r)) x ≡ Ordering.gt
unfolding cmp
cmp-longer [] r c = refl
cmp-longer (a ∷ x) r c = ground (arith, cmp-longer x r c)

-- An index entry: the prefix of the index, the encoded value, a separator and the key of the row.
abbrev entry_key : Bytes → Bytes → Bytes → Bytes
entry_key p x rest = (p ++ x) ++ (b'/' ∷ rest)

-- The value's encoding and the end's do not begin with one another.
abbrev pub Apart : Bytes → Option Bytes → Type 0
Apart x none = Unit {0}
Apart x (some l) = NoPrefix x l

below_entry :
    (p x rest : Bytes) (lo : Option Bytes)
    → Apart x lo
    → below (lo_key p lo) (entry_key p x rest) ≡ below lo x
unfolding below lo_key
below_entry p x rest none n = refl
below_entry p x rest (some l) n =
    ap is_lt (
      ap (λ k. cmp k (p ++ l)) (append_assoc p x (b'/' ∷ rest))
      ∙ cmp-append p (x ++ (b'/' ∷ rest)) l)
    ∙ elim (Bool-cases (eqb x l)) [
      | inl f ↦ let e = eqb→eq x l f in rw (e, cmp-longer l rest b'/', cmp_refl l) refl
      | inr f ↦ ap is_lt (
          ap (cmp (x ++ (b'/' ∷ rest))) (sym (append-nil l))
          ∙ cmp-behind x l (b'/' ∷ rest) [] n (λ e. let g = (eqb_iff x l).1 e in cc))
    ]

above_entry :
    (p x rest : Bytes) (hi : Option Bytes)
    → Apart x hi
    → above (hi_key p hi) (entry_key p x rest) ≡ above hi x
unfolding above hi_key cmp
above_entry p x rest none n = refl
above_entry p x rest (some l) n =
    ap is_gt (
      ap₂ cmp (append_assoc p x (b'/' ∷ rest)) (append_assoc p l (0xFF ∷ []))
      ∙ cmp-append p (x ++ (b'/' ∷ rest)) (l ++ (0xFF ∷ [])))
    ∙ elim (Bool-cases (eqb x l)) [
      | inl f ↦
          let e = eqb→eq x l f in rw (e, cmp-append l (b'/' ∷ rest) (0xFF ∷ []), cmp_refl l) refl
      | inr f ↦
          ap is_gt
            (cmp-behind x l (b'/' ∷ rest) (0xFF ∷ []) n (λ e. let g = (eqb_iff x l).1 e in cc))
    ]

-- An entry of the index lies in the byte range of a scan exactly if its encoded value lies between the encoded ends of the bounds,
-- whatever the key of its row is, where no encoding begins with another one: the 0xFF behind the upper end takes in
-- every entry with that value and none beyond it.
pub window-exact :
    (p x rest : Bytes) (lo hi : Option Bytes)
    → Apart x lo
    → Apart x hi
    → (below (lo_key p lo) ((p ++ x) ++ (b'/' ∷ rest)) ≡ below lo x)
      × (above (hi_key p hi) ((p ++ x) ++ (b'/' ∷ rest)) ≡ above hi x)
window-exact p x rest lo hi n m = (below_entry p x rest lo n, above_entry p x rest hi m)

-- What a loop over all the entries would fetch.
unfoldable pub fetch_all :
    (Bytes → Result (Option (List Datum))) → List Entry → Result (List (List Datum))
fetch_all fetch [] = ok []
fetch_all fetch ((key, pk) ∷ es) = fetch pk >>= λ o. elim o [
  | none ↦ fetch_all fetch es
  | some cells ↦ fetch_all fetch es >>= λ out. ok (cells ∷ out)
]

unfoldable pub select : (Bytes → Bool) → List Entry → List Entry
select test [] = []
select test ((key, pk) ∷ es) =
    let rest = select test es in if test key then (key, pk) ∷ rest else rest

abbrev pub in_window : Option Bytes → Option Bytes → Bytes → Bool
in_window lo hi key = not (below lo key) && not (above hi key)

Above-All :
    (k v : Bytes) (es : List Entry)
    → IsAscending ((k, v) ∷ es)
    → All (λ e. cmp k e.0 ≡ Ordering.lt) es
Above-All k v [] a = tt
Above-All k v ((j, w) ∷ es) (up, a) =
    (up, All-weaken es (λ e h. cmp_trans k j e.0 up h) (Above-All j w es a))

gt_of : (o : Ordering) → is_gt o ≡ true → o ≡ Ordering.gt
gt_of Ordering.lt h = cc
gt_of Ordering.eq h = cc
gt_of Ordering.gt h = refl

above_later :
    (hi : Option Bytes) (k j : Bytes)
    → cmp k j ≡ Ordering.lt
    → above hi k ≡ true
    → above hi j ≡ true
unfolding above
above_later none k j l h = cc
above_later (some hi) k j l h =
    let g : cmp k hi ≡ Ordering.gt = gt_of (cmp k hi) h in
    ap is_gt (cmp_flip_lt hi j (cmp_trans hi k j (cmp_flip k hi g) l))

not_below_later :
    (lo : Option Bytes) (k j : Bytes)
    → cmp k j ≡ Ordering.lt
    → below lo k ≡ false
    → below lo j ≡ false
unfolding below
not_below_later none k j l h = refl
not_below_later (some lo) k j l h = elim (cmp_total j lo) [
  | inl m ↦ absurd (let g = ap is_lt (cmp_trans k j lo l m) in cc)
  | inr (inl m) ↦ ap is_lt m
  | inr (inr m) ↦ ap is_lt m
]

select_none :
    (test : Bytes → Bool) (es : List Entry) → All (λ e. test e.0 ≡ false) es → select test es ≡ []
unfolding select
select_none test [] a = refl
select_none test ((k, v) ∷ es) (f, a) = rw f (select_none test es a)

module _ (fetch : Bytes → Result (Option (List Datum))) (lo hi : Option Bytes) where
  loop-select :
      (n : ℕ) (es : List Entry)
      → IsAscending es
      → All (λ e. below lo e.0 ≡ false) es
      → range_loop (above hi) fetch none n es ≡ fetch_all fetch (select (in_window lo hi) es)
  unfolding range_loop fetch_all select limit_reached
  loop-select n [] a b = refl
  loop-select n ((k, pk) ∷ es) a (f, b) = elim (Bool-cases (above hi k)) [
    | inl h ↦
        let none_left = select_none (in_window lo hi) es (
          All-weaken es (λ e l. rw (above_later hi k e.0 l h) (ground arith))
            (Above-All k pk es a)) in
        rw (range_loop, select, f, h, none_left) refl
    | inr h ↦
        rw (range_loop, select, f, h)
          (fetched (fetch pk) (loop-select n es a.1 b) (loop-select (n + 1) es a.1 b))
  ]
    where
      fetched :
          (r : Result (Option (List Datum)))
          → range_loop (above hi) fetch none n es ≡ fetch_all fetch (select (in_window lo hi) es)
          → range_loop (above hi) fetch none (n + 1) es
            ≡ fetch_all fetch (select (in_window lo hi) es)
          → (r >>= λ o. elim o [
            | none ↦ range_loop (above hi) fetch none n es
            | some cells ↦ range_loop (above hi) fetch none (n + 1) es >>= λ out. ok (cells ∷ out)
          ])
            ≡ (r >>= λ o. elim o [
              | none ↦ fetch_all fetch (select (in_window lo hi) es)
              | some cells ↦
                  fetch_all fetch (select (in_window lo hi) es) >>= λ out. ok (cells ∷ out)
            ])
      fetched (err x) p q = refl
      fetched (ok none) p q = p
      fetched (ok (some cells)) p q = ap (λ r. r >>= λ out. ok (cells ∷ out)) q

  not_below-All :
      (k v : Bytes) (es : List Entry)
      → IsAscending ((k, v) ∷ es)
      → below lo k ≡ false
      → All (λ e. below lo e.0 ≡ false) ((k, v) ∷ es)
  not_below-All k v es a f =
      (f, All-weaken es (λ e l. not_below_later lo k e.0 l f) (Above-All k v es a))

-- What a Seek leaves of the whole scan.
abbrev pub skip_to : Option Bytes → List Entry → List Entry
skip_to none es = es
skip_to (some k) es = seek_forward k es

seek_from_lo :
    (lo : Bytes) (hi : Option Bytes) (es : List Entry)
    → IsAscending es
    → (select (in_window (some lo) hi) (seek_forward lo es) ≡ select (in_window (some lo) hi) es)
      × IsAscending (seek_forward lo es)
      × All (λ e. below (some lo) e.0 ≡ false) (seek_forward lo es)
unfolding seek_forward select below
seek_from_lo lo hi [] a = (refl, tt, tt)
seek_from_lo lo hi ((k, v) ∷ es) a =
    let (p, q, r) = seek_from_lo lo hi es a.1 in
    elim (cmp_total k lo) [
      | inl m ↦ rw (seek_forward, select, below, m) (p, q, r)
      | inr (inl m) ↦
          stays (rw (seek_forward, m) refl)
            (not_below-All (λ pk. ok none) (some lo) hi k v es a (ap is_lt m))
      | inr (inr m) ↦
          stays (rw (seek_forward, m) refl)
            (not_below-All (λ pk. ok none) (some lo) hi k v es a (ap is_lt m))
    ]
  where
    stays :
        seek_forward lo ((k, v) ∷ es) ≡ (k, v) ∷ es
        → All (λ e. below (some lo) e.0 ≡ false) ((k, v) ∷ es)
        → (select (in_window (some lo) hi) (seek_forward lo ((k, v) ∷ es))
            ≡ select (in_window (some lo) hi) ((k, v) ∷ es))
          × IsAscending (seek_forward lo ((k, v) ∷ es))
          × All (λ e. below (some lo) e.0 ≡ false) (seek_forward lo ((k, v) ∷ es))
    stays s b = (
      ap (select (in_window (some lo) hi)) s,
      subst IsAscending (sym s) a,
      subst (All (λ e. below (some lo) e.0 ≡ false)) (sym s) b,
    )

All-not_below : (es : List Entry) → All (λ e. below none e.0 ≡ false) es
unfolding below
All-not_below [] = tt
All-not_below (e ∷ es) = (refl, All-not_below es)

seek-select :
    (lo hi : Option Bytes) (es : List Entry)
    → IsAscending es
    → (select (in_window lo hi) (skip_to lo es) ≡ select (in_window lo hi) es)
      × IsAscending (skip_to lo es)
      × All (λ e. below lo e.0 ≡ false) (skip_to lo es)
seek-select none hi es a = (refl, a, All-not_below es)
seek-select (some lo) hi es a = seek_from_lo lo hi es a

-- A forward scan of an index with no limit, over entries in ascending order of their keys, fetches the rows of exactly the entries
-- that lie in the byte range, in their order: the skip to the lower end and the stop behind the upper end lose none.
pub range_loop-select :
    (fetch : Bytes → Result (Option (List Datum))) (lo hi : Option Bytes) (es : List Entry)
    → IsAscending es
    → range_loop (above hi) fetch none 0 (skip_to lo es)
      ≡ fetch_all fetch (select (in_window lo hi) es)
range_loop-select fetch lo hi es a =
    let (p, q, r) = seek-select lo hi es a in
    loop-select fetch lo hi 0 (skip_to lo es) q r ∙ ap (fetch_all fetch) p
