-- ===== src/Transactions/Overlay.antt =====
-- engine/internal/transactions/merge_iter.go: the overlay of a transaction's own writes on a scan.
pub mod Buffer
pub mod Scan
use basuyudb.Base.{
  ℕ, ◌+◌, ◌≡◌, Bool, true, false, ◌&&◌, List, [], ◌∷◌, ◌++◌, Bytes, Option, none, some, eqb, cmp,
  Ordering, has_prefix, length, if◌then◌else◌, zero, suc,
}
use basuyudb.Storage.Mvcc.History.{Entry}

-- Mutation; `value` is empty for a delete.
pub record Mutation : Type 0 where
  pub key : Bytes
  pub value : Bytes
  pub delete : Bool

-- The scan of the buffered mutations from the last one back, as `Get` makes it.
unfoldable pub newest_mutation : Bytes → List Mutation → Option Mutation
newest_mutation k [] = none
newest_mutation k (m ∷ muts) = elim (newest_mutation k muts) [
  | some later ↦ some later
  | none ↦ if eqb m.key k then some m else none
]

-- The map `latest`, kept in the order of its keys: `latest[k] = m` inserts or overwrites. Go sorts
-- the map's values by key afterwards (`sort.Slice`); one key stands there once.
unfoldable pub put_latest : Mutation → List Mutation → List Mutation
put_latest m [] = m ∷ []
put_latest m (x ∷ xs) =
    let rest = put_latest m xs in
    elim (cmp m.key x.key) [
      | Ordering.lt ↦ m ∷ x ∷ xs
      | Ordering.eq ↦ m ∷ xs
      | Ordering.gt ↦ x ∷ rest
    ]

-- The loop over the mutations.
unfoldable pub collect : Bytes → List Mutation → List Mutation → List Mutation
collect prefix [] latest = latest
collect prefix (m ∷ muts) latest =
    collect prefix muts (if has_prefix m.key prefix then put_latest m latest else latest)

-- bufferedForPrefix
unfoldable pub buffered_for_prefix : List Mutation → Bytes → List Mutation
unfolding collect put_latest
buffered_for_prefix muts prefix = collect prefix muts []

-- mergedIterator. The snapshot's iterator is the list of entries that it has not passed, and
-- `buf[bi:]` the list of mutations not passed. `cur` is none where `valid` is false.
pub record MergedIterator : Type 0 where
  pub store : List Entry
  pub buf : List Mutation
  pub cur : Option Entry

-- Whether the case of the snapshot's entry being overridden holds, and the entries after it.
skip_same : Bytes → List Entry → List Entry
skip_same k [] = []
skip_same k ((j, v) ∷ es) = if eqb k j then es else (j, v) ∷ es

-- bytes.Compare(buf key, store key) <= 0, or no store entry left
buffer_first : Bytes → List Entry → Bool
buffer_first k [] = true
buffer_first k ((j, v) ∷ es) = elim (cmp k j) [ Ordering.gt ↦ false | _ ↦ true ]

take_store : List Entry → List Mutation → MergedIterator
take_store [] buf = record { store = []; buf = buf; cur = none }
take_store ((k, v) ∷ es) buf = record { store = es; buf = buf; cur = some (k, v) }

-- produce: each `continue` passes a mutation, so the loop recurs on the buffer. The snapshot's
-- values are at hand in its entries, so the branch on a failed `Value()` is not taken.
unfoldable pub produce : List Entry → List Mutation → MergedIterator
unfolding skip_same buffer_first take_store
produce store [] = take_store store []
produce store (b ∷ buf) =
    let hidden = produce (skip_same b.key store) buf in
    if buffer_first b.key store
    then (if b.delete
        then hidden
        else record { store = skip_same b.key store; buf = buf; cur = some (b.key, b.value) })
    else take_store store (b ∷ buf)

-- Rewind, of the iterators that have passed nothing yet
unfoldable pub rewind : List Entry → List Mutation → MergedIterator
unfolding produce
rewind store buf = produce store buf

-- Seek: the snapshot's iterator does its own Seek first, and `store` is what it meets from there; `sort.Search` finds the first
-- mutation whose key is not below `k` in the sorted buffer.
unfoldable pub seek_buf : Bytes → List Mutation → List Mutation
seek_buf k [] = []
seek_buf k (b ∷ buf) =
    let rest = seek_buf k buf in elim (cmp b.key k) [ Ordering.lt ↦ rest | _ ↦ b ∷ buf ]

unfoldable pub seek : Bytes → List Entry → List Mutation → MergedIterator
unfolding seek_buf produce
seek k store buf = produce store (seek_buf k buf)

unfoldable pub next : MergedIterator → MergedIterator
unfolding produce
next it = produce it.store it.buf

-- `for it.Rewind(); it.Valid(); it.Next()`: the entries that a caller's loop meets.
unfoldable pub drain : ℕ → MergedIterator → List Entry
unfolding next
drain zero it = []
drain (suc fuel) it = elim it.cur [ none ↦ [] | some e ↦ e ∷ drain fuel (next it) ]

-- Each entry comes from the snapshot or from the buffer.
unfoldable pub scan_all : List Entry → List Mutation → List Entry
unfolding rewind drain
scan_all store buf = drain (length store + length buf) (rewind store buf)

-- `for it.Seek(k); it.Valid(); it.Next()`
unfoldable pub seek_all : Bytes → List Entry → List Mutation → List Entry
unfolding seek seek_buf drain
seek_all k store buf = drain (length store + length (seek_buf k buf)) (seek k store buf)
