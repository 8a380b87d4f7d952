-- ===== src/Transactions/Engine/Seeking.antt =====
-- A scan that seeks meets what the whole scan meets from there on.
use basuyudb.Base.{
  subst, Bool-cases, ◌≡◌, ◌≢◌, refl, sym, ap₂, ◌∙◌, inl, inr, true, false, List, [], ◌∷◌, Bytes,
  none, some, cmp, cmp_total, cmp-eq, cmp_flip, Ordering, has_prefix, eqb, eqb_refl, eqb_iff, ltb,
  lt→ltb, length, if◌then◌else◌, arith,
}
use basuyudb.Storage.Mvcc.{Badger, BadgerLaws}
use basuyudb.Storage.Mvcc.History.{Entry, lookup, Above, IsAscending}
use basuyudb.Storage.Mvcc.Entries.{lookup-low}
use basuyudb.Storage.Iterator.{new_iterator, rewind, seek, seek_forward, drain}
use basuyudb.Storage.Iterator.Forward.{
  low_of, forward_scan_exact, kept, lookup-seek, seek_scan_exact, seek_forward-IsAscending,
}
use basuyudb.Transactions.Overlay.{Mutation, buffered_for_prefix, scan_all, seek_all, seek_buf}
use basuyudb.Transactions.Overlay
use basuyudb.Transactions.Overlay.Scan.{
  find_mutation, IsSorted, scan_all-lookup, scan_all-IsAscending, low_buf,
}
use basuyudb.Transactions.Overlay.Buffer.{buffered-IsSorted}
use basuyudb.Transactions.Engine.{Replicated, Engine, Txn, scan, seek_scan}
use basuyudb.Transactions.Engine.Scans.{shown_overlay}

found_first : (i u : Bytes) (xs : List Entry) → lookup i ((i, u) ∷ xs) ≡ some u
unfolding lookup
found_first i u xs = rw (lookup, eqb_refl i) refl

-- Ascending entries are known by what is found in them.
ascending_ext :
    (xs ys : List Entry)
    → IsAscending xs
    → IsAscending ys
    → ((k : Bytes) → lookup k xs ≡ lookup k ys)
    → xs ≡ ys
unfolding lookup
ascending_ext [] [] a b f = refl
ascending_ext [] ((j, v) ∷ ys) a b f =
    absurd (let g = f j in let h = rw (lookup, eqb_refl j) at g in cc)
ascending_ext ((i, u) ∷ xs) [] a b f =
    absurd (let g = f i in let h = rw (lookup, eqb_refl i) at g in cc)
ascending_ext ((i, u) ∷ xs) ((j, v) ∷ ys) a b f = elim (cmp_total i j) [
  | inl e ↦ absurd (cc (sym (found_first i u xs) ∙ f i ∙ lookup-low i ((j, v) ∷ ys) b e))
  | inr (inr e) ↦
      absurd (cc (sym (lookup-low j ((i, u) ∷ xs) a (cmp_flip i j e)) ∙ f j ∙ found_first j v ys))
  | inr (inl e) ↦ same (cmp-eq i j e) (λ g. ascending_ext xs ys a.1 b.1 g)
]
  where
    rest : i ≡ j → (k : Bytes) → lookup k xs ≡ lookup k ys
    rest e k = elim (Bool-cases (eqb i k)) [
      | inl g ↦
          let ik = (eqb_iff i k).0 g in
          lookup-low k xs a.1 (subst (λ z. Above z xs) ik a.0)
          ∙ sym (lookup-low k ys b.1 (subst (λ z. Above z ys) (sym e ∙ ik) b.0))
      | inr g ↦
          let g' : eqb j k ≡ false = subst (λ z. eqb z k ≡ false) e g in rw (lookup, g, g') at (f k)
    ]

    same :
        i ≡ j
        → (((k : Bytes) → lookup k xs ≡ lookup k ys) → xs ≡ ys)
        → ◌≡◌ {A = List Entry} ((i, u) ∷ xs) ((j, v) ∷ ys)
    same e tails =
        let w : some u ≡ some v =
          sym (found_first i u xs)
          ∙ f i
          ∙ subst (λ z. lookup z ((j, v) ∷ ys) ≡ some v) (sym e) (found_first j v ys) in
        let uv : u ≡ v = cc in
        ap₂ (λ (x : Entry) (l : List Entry). x ∷ l) (ap₂ (λ (x : Bytes) (y : Bytes). (x, y)) e uv)
          (tails (rest e))

find-seek_buf :
    (k q : Bytes) (buf : List Mutation)
    → IsSorted buf
    → (cmp q k ≡ Ordering.lt → find_mutation q (seek_buf k buf) ≡ none)
      × (cmp q k ≢ Ordering.lt → find_mutation q (seek_buf k buf) ≡ find_mutation q buf)
      × IsSorted (seek_buf k buf)
unfolding seek_buf
find-seek_buf k q [] s = (λ h. refl, λ h. refl, tt)
find-seek_buf k q (b ∷ buf) s = elim (cmp_total b.key k) [
  | inl e ↦
      let (x, y, z) = find-seek_buf k q buf s.1 in
      rw (seek_buf, e)
        (
          x,
          λ n. y n ∙ (elim (Bool-cases (eqb b.key q)) [
            | inl g ↦ absurd (n (subst (λ z. cmp z k ≡ Ordering.lt) ((eqb_iff b.key q).0 g) e))
            | inr g ↦ rw g refl
          ]),
          z,
        )
  | inr (inl e) ↦
      rw (seek_buf, e) (λ h. low_buf q (b ∷ buf) s (low_of q k b.key h (λ f. cc)), λ n. refl, s)
  | inr (inr e) ↦
      rw (seek_buf, e) (λ h. low_buf q (b ∷ buf) s (low_of q k b.key h (λ f. cc)), λ n. refl, s)
]

-- The overlay of a seek.
seek_overlay :
    (k q : Bytes) (base sought : List Entry) (buf : List Mutation)
    → IsAscending base
    → IsAscending sought
    → IsSorted buf
    → lookup q sought ≡ kept (cmp q k) (lookup q base)
    → IsAscending (if ltb 0 (length buf) then seek_all k sought buf else sought)
      × (lookup q (if ltb 0 (length buf) then seek_all k sought buf else sought)
          ≡ kept (cmp q k) (lookup q (if ltb 0 (length buf) then scan_all base buf else base)))
unfolding seek_all scan_all Overlay.seek Overlay.rewind
seek_overlay k q base sought [] a c s h = (c, h)
seek_overlay k q base sought (b ∷ buf) a c s h = rw (lt→ltb 0 (length (b ∷ buf)) (omega arith)) (
  scan_all-IsAscending sought (seek_buf k (b ∷ buf)) c z,
  scan_all-lookup q sought (seek_buf k (b ∷ buf)) c z ∙ (elim (cmp_total q k) [
    | inl e ↦ rw (x e, h, e) refl
    | inr (inl e) ↦ rw (y (λ f. cc), h, e, scan_all-lookup q base (b ∷ buf) a s) refl
    | inr (inr e) ↦ rw (y (λ f. cc), h, e, scan_all-lookup q base (b ∷ buf) a s) refl
  ]),
)
  where
    x : cmp q k ≡ Ordering.lt → find_mutation q (seek_buf k (b ∷ buf)) ≡ none
    x = (find-seek_buf k q (b ∷ buf) s).0

    y : cmp q k ≢ Ordering.lt → find_mutation q (seek_buf k (b ∷ buf)) ≡ find_mutation q (b ∷ buf)
    y = (find-seek_buf k q (b ∷ buf) s).1

    z : IsSorted (seek_buf k (b ∷ buf))
    z = (find-seek_buf k q (b ∷ buf) s).2

module _ (B : Badger) (L : BadgerLaws B) (R : Replicated B.Db) where
  -- A loop behind a Seek to a key with the prefix meets what the loop over the whole scan meets from that key on.
  pub seek_scan_lem :
      (e : Engine B R) (t : Txn) (p k : Bytes)
      → has_prefix k p ≡ true
      → seek_scan B R e t p k ≡ seek_forward k (scan B R e t p)
  unfolding scan seek_scan
  seek_scan_lem e t p k h =
      ascending_ext (seek_scan B R e t p k) (seek_forward k (scan B R e t p)) (looked []).0
        (seek_forward-IsAscending k (scan B R e t p) whole)
        (λ q. (looked q).1 ∙ sym (lookup-seek q k (scan B R e t p) whole))
    where
      es : List Entry
      es = B.scan_at e.store t.read_uint

      up : IsAscending es
      up = L.scan_at-IsAscending e.store t.read_uint

      whole : IsAscending (scan B R e t p)
      whole =
          (shown_overlay k (drain (rewind (new_iterator es p))) (buffered_for_prefix t.mutations p)
            (forward_scan_exact es p k up).0 (buffered-IsSorted t.mutations p)).0

      looked :
          (q : Bytes)
          → IsAscending (seek_scan B R e t p k)
            × (lookup q (seek_scan B R e t p k) ≡ kept (cmp q k) (lookup q (scan B R e t p)))
      looked q =
          let (c, m) = seek_scan_exact es p k q up h in
          seek_overlay k q (drain (rewind (new_iterator es p))) (drain (seek (new_iterator es p) k))
            (buffered_for_prefix t.mutations p) (forward_scan_exact es p k up).0 c
            (buffered-IsSorted t.mutations p) m
