-- ===== src/Branch/Manager/Merging.antt =====
-- What the loop of Merge collects.
use basuyudb.Base.{
  ℕ, zero, suc, ◌+◌, ◌≡◌, refl, sym, ap, ◌∙◌, inl, inr, Bool, true, false, Bool-cases, Option-cases,
  List, [], ◌∷◌, ◌++◌, Bytes, Option, none, some, Result, eqb, eqb_iff, eqb_refl, eqb→eq, subst,
  if◌then◌else◌, length, arith, leb, le→leb, take, drop, take-length, drop-length, length-append,
  ◌&&◌,
}
use basuyudb.Storage.Mvcc.{Badger}
use basuyudb.Storage.Mvcc.History.{Entry, lookup, Above, IsAscending}
use basuyudb.Storage.Mvcc.Entries.{lookup-low}
use basuyudb.Transactions.Overlay.{Mutation, newest_mutation}
use basuyudb.Transactions.Engine.{Replicated}
use basuyudb.Branch.Prefix.{after_root}
use basuyudb.Branch.Manager.{MergeResult, is_tombstone, has_key, add_op, no_rows, collect_ops}

-- What the merge does to a parent row, from the branch's value of it.
abbrev pub operation : Bytes → Bool → Option Bytes → Option Mutation
operation key parent_has none = none
operation key parent_has (some val) =
    if is_tombstone val
    then (if parent_has then some (record { key = key; value = []; delete = true }) else none)
    else some (record { key = key; value = val; delete = false })

-- A key is under a root exactly if it is the root with its tail behind it.
after_root-append : (root tail : Bytes) → after_root (root ++ tail) root ≡ some tail
unfolding after_root
after_root-append root tail = rw (
  le→leb (length root) (length (root ++ tail)) (omega (arith, length-append root tail)),
  take-length root tail,
  drop-length root tail,
  eqb_refl root,
)

take-drop : (n : ℕ) (s : Bytes) → take n s ++ drop n s ≡ s
take-drop zero s = refl
take-drop (suc n) [] = refl
take-drop (suc n) (c ∷ s) = ap (λ l. c ∷ l) (take-drop n s)

after_root→split : (key root tail : Bytes) → after_root key root ≡ some tail → key ≡ root ++ tail
unfolding after_root
after_root→split key root tail =
    elim (Bool-cases (leb (length root) (length key) && eqb (take (length root) key) root)) [
      | inl f ↦ rw f (λ e.
          sym (take-drop (length root) key) ∙ ground (arith, eqb_iff (take (length root) key) root))
      | inr f ↦ rw f (λ e. absurd (cc))
    ]

eqb-append : (root a b : Bytes) → eqb (root ++ a) (root ++ b) ≡ eqb a b
unfolding eqb
eqb-append [] a b = refl
eqb-append (c ∷ root) a b = ground (arith, eqb-append root a b)

-- A mutation in front is the newest of its key where none behind it has that key.
abbrev either : Option Mutation → Option Mutation → Option Mutation
either (some m) o = some m
either none o = o

newest-front :
    (k : Bytes) (m : Mutation) (ops : List Mutation)
    → newest_mutation k (m ∷ ops)
      ≡ either (newest_mutation k ops) (if eqb m.key k then some m else none)
unfolding newest_mutation
newest-front k m ops = ground arith

unless : (b : Bool) → either none (if b then none else none) ≡ none
unless true = refl
unless false = refl

keep_first : (b : Bool) (o : Option Mutation) → o ≡ either o (if b then none else none)
keep_first b (some m) = refl
keep_first b none = sym (unless b)

module _ (B : Badger) (R : Replicated B.Db) where
  newest-add_op :
      (k pk val : Bytes) (has : Bool) (ops : List Mutation) (res : MergeResult)
      → newest_mutation k (add_op B R pk val has (ops, res)).0
        ≡ either (newest_mutation k ops) (if eqb pk k then operation pk has (some val) else none)
  unfolding add_op
  newest-add_op k pk val has ops res = elim (Bool-cases (is_tombstone val)) [
    | inr f ↦ rw f (newest-front k (record { key = pk; value = val; delete = false }) ops)
    | inl f ↦ elim (Bool-cases has) [
      | inl h ↦ rw (f, h) (newest-front k (record { key = pk; value = []; delete = true }) ops)
      | inr h ↦ rw (f, h) (keep_first (eqb pk k) (newest_mutation k ops))
    ]
  ]

  skipped :
      (get_row : Bytes → Result Bytes) (pr br bkey val : Bytes) (rows : List Entry)
      → after_root bkey br ≡ none
      → collect_ops B R get_row pr br ((bkey, val) ∷ rows) ≡ collect_ops B R get_row pr br rows
  unfolding collect_ops
  skipped get_row pr br bkey val rows f = rw (collect_ops, f) refl

  taken :
      (get_row : Bytes → Result Bytes) (pr br bkey val t : Bytes) (rows : List Entry)
      → after_root bkey br ≡ some t
      → collect_ops B R get_row pr br ((bkey, val) ∷ rows)
        ≡ add_op B R
            (pr ++ t)
            val
            (has_key B R (get_row (pr ++ t)))
            (collect_ops B R get_row pr br rows)
  unfolding collect_ops
  taken get_row pr br bkey val t rows f = rw (collect_ops, f) refl

  add_counts :
      (pk val : Bytes) (has : Bool) (later : List Mutation × MergeResult)
      → (later.1.conflicts ≡ []) × (length later.0 ≡ later.1.rows_merged + later.1.rows_deleted)
      → ((add_op B R pk val has later).1.conflicts ≡ [])
        × (length (add_op B R pk val has later).0
            ≡ (add_op B R pk val has later).1.rows_merged
              + (add_op B R pk val has later).1.rows_deleted)
  unfolding add_op
  add_counts pk val has (ops, res) (c, n) = elim (Bool-cases (is_tombstone val)) [
    | inr f ↦ rw f (c, omega (arith, n))
    | inl f ↦ elim (Bool-cases has) [
      | inl h ↦ rw (f, h) (c, omega (arith, n))
      | inr h ↦ rw (f, h) (c, n)
    ]
  ]

  -- One turn that takes the row with tail `t`, from what the later turns have collected.
  one_turn :
      (get_row : Bytes → Result Bytes) (pr br tail t val : Bytes) (rows : List Entry)
      (later : List Mutation × MergeResult)
      → IsAscending ((br ++ t, val) ∷ rows)
      → newest_mutation (pr ++ tail) later.0
        ≡ operation (pr ++ tail) (has_key B R (get_row (pr ++ tail))) (lookup (br ++ tail) rows)
      → newest_mutation
          (pr ++ tail)
          (add_op B R (pr ++ t) val (has_key B R (get_row (pr ++ t))) later).0
        ≡ operation
            (pr ++ tail)
            (has_key B R (get_row (pr ++ tail)))
            (lookup (br ++ tail) ((br ++ t, val) ∷ rows))
  unfolding lookup
  one_turn get_row pr br tail t val rows later a rest =
      newest-add_op (pr ++ tail) (pr ++ t) val (has_key B R (get_row (pr ++ t))) later.0 later.1
      ∙ elim (Bool-cases (eqb t tail)) [
        | inl f ↦
            let same : t ≡ tail = eqb→eq t tail f in
            let gone =
              rest
              ∙ ap (operation (pr ++ tail) (has_key B R (get_row (pr ++ tail))))
                  (lookup-low (br ++ tail) rows a.1 (subst (λ s. Above (br ++ s) rows) same a.0)) in
            rw (gone, same, eqb_refl (pr ++ tail), eqb_refl (br ++ tail)) refl
        | inr f ↦
            rw (eqb-append pr t tail, eqb-append br t tail, f, rest) (sym (keep_first false _))
      ]

  -- After the loop of a merge over the branch's rows in ascending order, the last operation on a
  -- parent's row is that which the branch's row of the same table and key asks for: none where
  -- the branch has no such row, a write of its value where it is live, and a deletion where it
  -- is a tombstone and the parent has the row.
  pub newest-collect_ops :
      (get_row : Bytes → Result Bytes) (parent_root branch_root tail : Bytes) (rows : List Entry)
      → IsAscending rows
      → newest_mutation
          (parent_root ++ tail)
          (collect_ops B R get_row parent_root branch_root rows).0
        ≡ operation
            (parent_root ++ tail)
            (has_key B R (get_row (parent_root ++ tail)))
            (lookup (branch_root ++ tail) rows)
  unfolding collect_ops no_rows lookup newest_mutation
  newest-collect_ops get_row pr br tail [] a = refl
  newest-collect_ops get_row pr br tail ((bkey, val) ∷ rows) a =
      elim (Option-cases (after_root bkey br)) [
        | inl f ↦
            let other : eqb bkey (br ++ tail) ≡ false =
              ground (arith, eqb_iff bkey (br ++ tail), after_root-append br tail) in
            rw (skipped get_row pr br bkey val rows f, other)
              (newest-collect_ops get_row pr br tail rows a.1)
        | inr (t, f) ↦
            let e : bkey ≡ br ++ t = after_root→split bkey br t f in
            rw (taken get_row pr br bkey val t rows f, e)
              (one_turn get_row pr br tail t val rows (collect_ops B R get_row pr br rows)
                (subst (λ k. IsAscending ((k, val) ∷ rows)) e a)
                (newest-collect_ops get_row pr br tail rows a.1))
      ]

  -- The loop never records a conflict, and counts each operation once, as a merged or as a deleted row.
  pub collect_ops-counts :
      (get_row : Bytes → Result Bytes) (parent_root branch_root : Bytes) (rows : List Entry)
      → ((collect_ops B R get_row parent_root branch_root rows).1.conflicts ≡ [])
        × (length (collect_ops B R get_row parent_root branch_root rows).0
            ≡ (collect_ops B R get_row parent_root branch_root rows).1.rows_merged
              + (collect_ops B R get_row parent_root branch_root rows).1.rows_deleted)
  unfolding collect_ops no_rows
  collect_ops-counts get_row pr br [] = (refl, refl)
  collect_ops-counts get_row pr br ((bkey, val) ∷ rows) = elim (Option-cases (after_root bkey br)) [
    | inl f ↦ rw (skipped get_row pr br bkey val rows f) (collect_ops-counts get_row pr br rows)
    | inr (t, f) ↦ rw (taken get_row pr br bkey val t rows f) (
        add_counts (pr ++ t) val (has_key B R (get_row (pr ++ t)))
          (collect_ops B R get_row pr br rows) (collect_ops-counts get_row pr br rows))
  ]
