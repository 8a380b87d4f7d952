-- ===== src/Storage/Memory/Laws.antt =====
-- The store in memory meets the documented behaviour of the managed store.
use basuyudb.Base.{
  ℕ, ◌≤◌, ◌≡◌, refl, ◌∙◌, inl, inr, Bool, true, false, List, [], ◌∷◌, ◌++◌, Bytes, Option, none,
  some, Result, ok, Bool-cases, arith, max, cmp, cmp_trans, cmp_flip, cmp-eq, cmp_refl, cmp_total,
  Ordering, eqb, eqb_iff, if◌then◌else◌, subst,
}
use basuyudb.Storage.Mvcc.{BadgerLaws}
use basuyudb.Storage.Mvcc.History.{
  Version, Write, stamp, newest, live, lookup, Above, IsAscending, without_prefix,
}
use basuyudb.Storage.Mvcc.Reads.{UpTo, UpTo-mono}
use basuyudb.Storage.Memory.{insert_key, all_keys, entry_of, gather, latest_ts, memory}

latest_ts_bound : (h : List Version) → UpTo (latest_ts h) h
unfolding latest_ts
latest_ts_bound [] = tt
latest_ts_bound (v ∷ h) = (
  omega arith,
  UpTo-mono h (latest_ts h) (max v.ts (latest_ts h)) (omega arith) (latest_ts_bound h),
)

latest_ts-stamp :
    (ws : List Write) (ts : ℕ) (h : List Version)
    → latest_ts (stamp ts ws ++ h) ≤ max (latest_ts h) ts
unfolding latest_ts
latest_ts-stamp [] ts h = omega arith
latest_ts-stamp ((k, v) ∷ ws) ts h = omega (arith, latest_ts-stamp ws ts h)

latest_ts-without : (p : Bytes) (h : List Version) → latest_ts (without_prefix p h) ≤ latest_ts h
unfolding latest_ts without_prefix
latest_ts-without p [] = omega arith
latest_ts-without p (v ∷ h) = ground (arith, latest_ts-without p h)

ok_flush :
    (ws : List Write) (ts : ℕ) (h h' : List Version)
    → ◌≡◌ {A = Result (List Version)} (ok (stamp ts ws ++ h)) (ok h')
    → latest_ts h' ≤ max (latest_ts h) ts
ok_flush ws ts h h' e =
    subst (λ l. latest_ts l ≤ max (latest_ts h) ts) (cc e) (latest_ts-stamp ws ts h)

ok_drop :
    (p : Bytes) (h h' : List Version)
    → ◌≡◌ {A = Result (List Version)} (ok (without_prefix p h)) (ok h')
    → latest_ts h' ≤ latest_ts h
ok_drop p h h' e = subst (λ l. latest_ts l ≤ latest_ts h) (cc e) (latest_ts-without p h)

-- Ascending keys.
abbrev KeyAbove : Bytes → List Bytes → Type 0
KeyAbove k [] = Unit
KeyAbove k (j ∷ js) = cmp k j ≡ Ordering.lt

abbrev AreSorted : List Bytes → Type 0
AreSorted [] = Unit
AreSorted (k ∷ ks) = KeyAbove k ks × AreSorted ks

abbrev mem_key : Bytes → List Bytes → Bool
mem_key k [] = false
mem_key k (j ∷ js) = if eqb j k then true else mem_key k js

above-insert_key :
    (i k : Bytes) (js : List Bytes)
    → cmp i k ≡ Ordering.lt
    → KeyAbove i js
    → KeyAbove i (insert_key k js)
unfolding insert_key
above-insert_key i k [] h a = h
above-insert_key i k (j ∷ js) h a = elim (cmp_total k j) [
  | inl e ↦ rw (e, KeyAbove) h
  | inr (inl e) ↦ rw (e, KeyAbove) a
  | inr (inr e) ↦ rw (e, KeyAbove) a
]

insert_key-AreSorted : (k : Bytes) (js : List Bytes) → AreSorted js → AreSorted (insert_key k js)
unfolding insert_key
insert_key-AreSorted k [] s = (tt, tt)
insert_key-AreSorted k (j ∷ js) s = elim (cmp_total k j) [
  | inl e ↦ rw (e, AreSorted) (e, s)
  | inr (inl e) ↦ rw (e, AreSorted) s
  | inr (inr e) ↦
      rw (e, AreSorted)
        (above-insert_key j k js (cmp_flip k j e) s.0, insert_key-AreSorted k js s.1)
]

all_keys-AreSorted : (h : List Version) → AreSorted (all_keys h)
unfolding all_keys
all_keys-AreSorted [] = tt
all_keys-AreSorted (v ∷ h) = insert_key-AreSorted v.key (all_keys h) (all_keys-AreSorted h)

mem-insert_key :
    (i k : Bytes) (js : List Bytes)
    → mem_key i (insert_key k js) ≡ (if eqb k i then true else mem_key i js)
unfolding insert_key
mem-insert_key i k [] = refl
mem-insert_key i k (j ∷ js) =
    ground (arith, mem-insert_key i k js, cmp-eq k j, eqb_iff k i, eqb_iff j i)

-- A key that is not collected has no version.
newest-not_mem :
    (h : List Version) (ts : ℕ) (k : Bytes) → mem_key k (all_keys h) ≡ false → newest h ts k ≡ none
unfolding all_keys newest
newest-not_mem [] ts k f = refl
newest-not_mem (v ∷ h) ts k f =
    ground (arith, mem-insert_key k v.key (all_keys h), newest-not_mem h ts k)

low_keys : (k : Bytes) (ks : List Bytes) → AreSorted ks → KeyAbove k ks → mem_key k ks ≡ false
low_keys k [] s a = refl
low_keys k (j ∷ []) s a = ground (arith, eqb_iff j k, cmp_refl k)
low_keys k (j ∷ i ∷ ks) s a =
    ground (arith, eqb_iff j k, cmp_refl k, low_keys k (i ∷ ks) s.1 (cmp_trans k j i a s.0))

lookup-gather :
    (h : List Version) (ts : ℕ) (k : Bytes) (ks : List Bytes)
    → AreSorted ks
    → lookup k (gather h ts ks) ≡ (if mem_key k ks then live (newest h ts k) else none)
unfolding gather lookup
lookup-gather h ts k [] s = refl
lookup-gather h ts k (j ∷ ks) s = elim (Bool-cases (eqb j k)) [
  | inl e ↦ ground (arith, e, (eqb_iff j k).0 e, lookup-gather h ts k ks s.1, low_keys j ks s.1 s.0)
  | inr e ↦ ground (arith, e, lookup-gather h ts k ks s.1)
]

keys_above :
    (i k : Bytes) (ks : List Bytes) → AreSorted (k ∷ ks) → cmp i k ≡ Ordering.lt → KeyAbove i ks
keys_above i k [] s a = tt
keys_above i k (j ∷ ks) s a = cmp_trans i k j a s.0

gather-Above :
    (h : List Version) (ts : ℕ) (i : Bytes) (ks : List Bytes)
    → AreSorted ks
    → KeyAbove i ks
    → Above i (gather h ts ks)
unfolding gather
gather-Above h ts i [] s a = tt
gather-Above h ts i (k ∷ ks) s a =
    go (live (newest h ts k)) (gather-Above h ts i ks s.1 (keys_above i k ks s a))
  where
    go : (o : Option Bytes) → Above i (gather h ts ks) → Above i (entry_of k o (gather h ts ks))
    go none rest = rest
    go (some v) rest = a

gather-IsAscending :
    (h : List Version) (ts : ℕ) (ks : List Bytes) → AreSorted ks → IsAscending (gather h ts ks)
unfolding gather
gather-IsAscending h ts [] s = tt
gather-IsAscending h ts (k ∷ ks) s =
    go (live (newest h ts k)) (gather-IsAscending h ts ks s.1) (gather-Above h ts k ks s.1 s.0)
  where
    go :
        (o : Option Bytes)
        → IsAscending (gather h ts ks)
        → Above k (gather h ts ks)
        → IsAscending (entry_of k o (gather h ts ks))
    go none a b = a
    go (some v) a b = (b, a)

scan_memory :
    (h : List Version) (ts : ℕ) (k : Bytes)
    → lookup k (gather h ts (all_keys h)) ≡ live (newest h ts k)
scan_memory h ts k =
    lookup-gather h ts k (all_keys h) (all_keys-AreSorted h) ∙ ground (arith, newest-not_mem h ts k)

-- The store in memory has the documented behaviour.
pub memory_laws : BadgerLaws memory
memory_laws = record {
  history = λ h. h;
  pending = λ b. b.items;
  batch_ts = λ b. b.ts;
  max_version_bound = latest_ts_bound;
  max_version-flush = λ h h' b e. ok_flush b.items b.ts h h' e;
  get_at_lem = λ h ts k. refl;
  scan_at-lookup = scan_memory;
  scan_at-IsAscending = λ h ts. gather-IsAscending h ts (all_keys h) (all_keys-AreSorted h);
  pending-new_batch = λ h ts. refl;
  batch_ts-new_batch = λ h ts. refl;
  pending-batch_set = λ b c k v e. ground arith;
  pending-batch_delete = λ b c k e. ground arith;
  history-flush = λ h h' b e. cc;
  history-abandon = λ h b. (b.items, refl);
  max_version-abandon = λ h b. latest_ts-stamp b.items b.ts h;
  batch_set_io = λ b k v x e. cc;
  batch_delete_io = λ b k x e. cc;
  flush_io = λ h b x e. cc;
  history-drop_prefix = λ h h' p e. cc;
  max_version-drop_prefix = λ h h' p e. ok_drop p h h' e;
}

-- A database in memory is its versions.
pub memory_history : (h : List Version) → memory_laws.history h ≡ h
unfolding memory_laws
memory_history h = refl
