-- ===== src/Storage/Iterator/Forward.antt =====
-- What a scan over a prefix meets.
use basuyudb.Base.{
  Option, Bool, sym, ap, subst, cmp-eq, cmp_flip, ◌≡◌, ◌≢◌, refl, ◌∙◌, true, false, List, [], ◌∷◌,
  Bytes, none, cmp, cmp_trans, cmp_total, Ordering, has_prefix, eqb_iff, if◌then◌else◌, arith,
  Bool-cases, inl, inr,
}
use basuyudb.Storage.Mvcc.History.{Entry, lookup, Above, IsAscending}
use basuyudb.Storage.Mvcc.Entries.{lookup-low}
use basuyudb.Storage.Iterator.{new_iterator, seek_forward, rewind, run, drain, seek}

-- A text without the prefix that is not below it is above all that have the prefix.
past_prefix :
    (p a c : Bytes)
    → has_prefix a p ≡ false
    → cmp a p ≢ Ordering.lt
    → has_prefix c p ≡ true
    → cmp c a ≡ Ordering.lt
unfolding has_prefix cmp
past_prefix [] a c h n k = cc
past_prefix (y ∷ p) [] c h n k = absurd (n refl)
past_prefix (y ∷ p) (x ∷ a) [] h n k = cc
past_prefix (y ∷ p) (x ∷ a) (z ∷ c) h n k = ground (arith, past_prefix p a c)

-- and one below the prefix does not have it
below_prefix : (p a : Bytes) → cmp a p ≡ Ordering.lt → has_prefix a p ≡ false
unfolding has_prefix cmp
below_prefix [] [] h = cc
below_prefix [] (x ∷ a) h = cc
below_prefix (y ∷ p) [] h = refl
below_prefix (y ∷ p) (x ∷ a) h = ground (arith, below_prefix p a)

lookup-seek_forward :
    (k p : Bytes) (es : List Entry)
    → cmp k p ≢ Ordering.lt
    → lookup k (seek_forward p es) ≡ lookup k es
unfolding seek_forward lookup
lookup-seek_forward k p [] n = refl
lookup-seek_forward k p ((j, v) ∷ es) n = ground (arith, lookup-seek_forward k p es n, eqb_iff j k)

-- All entries that are left stand at the bound or above it, as the first one does.
NotBelow : Bytes → List Entry → Type 0
NotBelow p [] = Unit
NotBelow p ((j, v) ∷ es) = cmp j p ≢ Ordering.lt

seek_forward-NotBelow : (p : Bytes) (es : List Entry) → NotBelow p (seek_forward p es)
unfolding seek_forward NotBelow
seek_forward-NotBelow p [] = tt
seek_forward-NotBelow p ((j, v) ∷ es) = elim (cmp_total j p) [
  | inl e ↦ rw (e, NotBelow) (seek_forward-NotBelow p es)
  | inr (inl e) ↦ rw (e, NotBelow) (λ f. cc)
  | inr (inr e) ↦ rw (e, NotBelow) (λ f. cc)
]

pub seek_forward-IsAscending :
    (p : Bytes) (es : List Entry) → IsAscending es → IsAscending (seek_forward p es)
unfolding seek_forward
seek_forward-IsAscending p [] a = tt
seek_forward-IsAscending p ((j, v) ∷ es) a = elim (cmp_total j p) [
  | inl e ↦ rw (e, IsAscending) (seek_forward-IsAscending p es a.1)
  | inr (inl e) ↦ rw (e, IsAscending) a
  | inr (inr e) ↦ rw (e, IsAscending) a
]

-- Behind an entry that is not below the bound, none is.
NotBelow-next :
    (p j v : Bytes) (es : List Entry)
    → IsAscending ((j, v) ∷ es)
    → cmp j p ≢ Ordering.lt
    → NotBelow p es
unfolding NotBelow
NotBelow-next p j v [] a n = tt
NotBelow-next p j v ((i, w) ∷ es) a n = λ e. n (cmp_trans j i p a.0 e)

lookup-run :
    (k p : Bytes) (es : List Entry)
    → IsAscending es
    → NotBelow p es
    → lookup k (run p es) ≡ (if has_prefix k p then lookup k es else none)
unfolding run lookup NotBelow
lookup-run k p [] a n = ground arith
lookup-run k p ((j, v) ∷ es) a n = elim (Bool-cases (has_prefix j p)) [
  | inl h ↦ ground (arith, h, lookup-run k p es a.1 (NotBelow-next p j v es a n), eqb_iff j k)
  | inr h ↦ ground (arith, h, past_prefix p j k h n, lookup-low k ((j, v) ∷ es) a)
]

run-Above : (k p : Bytes) (es : List Entry) → Above k es → Above k (run p es)
unfolding run
run-Above k p [] h = tt
run-Above k p ((j, v) ∷ es) h = elim (Bool-cases (has_prefix j p)) [
  | inl e ↦ rw (e, Above) h
  | inr e ↦ rw (e, Above) tt
]

run-IsAscending : (p : Bytes) (es : List Entry) → IsAscending es → IsAscending (run p es)
unfolding run
run-IsAscending p [] a = tt
run-IsAscending p ((j, v) ∷ es) a = elim (Bool-cases (has_prefix j p)) [
  | inl e ↦ rw (e, IsAscending) (run-Above j p es a.0, run-IsAscending p es a.1)
  | inr e ↦ rw (e, IsAscending) tt
]

-- Over entries in ascending order of their keys, a forward scan over a prefix meets exactly the
-- entries whose key has it, in ascending order.
pub forward_scan_exact :
    (es : List Entry) (p k : Bytes)
    → IsAscending es
    → IsAscending (drain (rewind (new_iterator es p)))
      × (lookup k (drain (rewind (new_iterator es p)))
          ≡ (if has_prefix k p then lookup k es else none))
unfolding drain rewind new_iterator
forward_scan_exact es p k a = (
  run-IsAscending p (seek_forward p es) (seek_forward-IsAscending p es a),
  lookup-run k p (seek_forward p es) (seek_forward-IsAscending p es a) (seek_forward-NotBelow p es)
      ∙ ground (arith, lookup-seek_forward k p es, below_prefix p k),
)

-- What is left of a finding in front of a bound.
abbrev pub kept : Ordering → Option Bytes → Option Bytes
kept Ordering.lt o = none
kept Ordering.eq o = o
kept Ordering.gt o = o

kept-none : (o : Ordering) → kept o none ≡ none
kept-none Ordering.lt = refl
kept-none Ordering.eq = refl
kept-none Ordering.gt = refl

kept_if :
    (o : Ordering) (c : Bool) (x : Option Bytes)
    → (if c then kept o x else none) ≡ kept o (if c then x else none)
kept_if o true x = refl
kept_if o false x = sym (kept-none o)

pub low_of : (q k j : Bytes) → cmp q k ≡ Ordering.lt → cmp j k ≢ Ordering.lt → cmp q j ≡ Ordering.lt
low_of q k j h n = elim (cmp_total j k) [
  | inl e ↦ absurd (n e)
  | inr (inl e) ↦ subst (λ z. cmp q z ≡ Ordering.lt) (sym (cmp-eq j k e)) h
  | inr (inr e) ↦ cmp_trans q k j h (cmp_flip j k e)
]

-- In ascending entries of which the first is not below a bound, nothing below it is found.
lookup-below :
    (k q : Bytes) (es : List Entry)
    → IsAscending es
    → NotBelow k es
    → cmp q k ≡ Ordering.lt
    → lookup q es ≡ none
unfolding NotBelow lookup
lookup-below k q [] a n h = refl
lookup-below k q ((j, v) ∷ es) a n h = lookup-low q ((j, v) ∷ es) a (low_of q k j h n)

pub lookup-seek :
    (q k : Bytes) (es : List Entry)
    → IsAscending es
    → lookup q (seek_forward k es) ≡ kept (cmp q k) (lookup q es)
lookup-seek q k es a = elim (cmp_total q k) [
  | inl e ↦ rw e (
      lookup-below k q (seek_forward k es) (seek_forward-IsAscending k es a)
        (seek_forward-NotBelow k es) e)
  | inr (inl e) ↦ rw e (lookup-seek_forward q k es (λ f. cc))
  | inr (inr e) ↦ rw e (lookup-seek_forward q k es (λ f. cc))
]

NotBelow-weaken :
    (p k : Bytes) (es : List Entry) → has_prefix k p ≡ true → NotBelow k es → NotBelow p es
unfolding NotBelow
NotBelow-weaken p k [] h n = tt
NotBelow-weaken p k ((j, v) ∷ es) h n = λ e. n (low_of j p k e (λ f. cc (below_prefix p k f, h)))

-- A forward iterator over a prefix that seeks a key with the prefix meets what a whole scan meets, but the keys below it.
pub seek_scan_exact :
    (es : List Entry) (p k q : Bytes)
    → IsAscending es
    → has_prefix k p ≡ true
    → IsAscending (drain (seek (new_iterator es p) k))
      × (lookup q (drain (seek (new_iterator es p) k))
          ≡ kept (cmp q k) (lookup q (drain (rewind (new_iterator es p)))))
unfolding drain seek new_iterator
seek_scan_exact es p k q a h =
    let b = seek_forward-IsAscending k es a in
    let n = NotBelow-weaken p k (seek_forward k es) h (seek_forward-NotBelow k es) in
    let (c, l) = forward_scan_exact es p q a in
    (
      run-IsAscending p (seek_forward k es) b,
      lookup-run q p (seek_forward k es) b n
          ∙ ap (λ o. if has_prefix q p then o else none) (lookup-seek q k es a)
          ∙ kept_if (cmp q k) (has_prefix q p) (lookup q es)
          ∙ ap (kept (cmp q k)) (sym l),
    )
