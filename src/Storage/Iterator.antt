-- ===== src/Storage/Iterator.antt =====
-- `badgerIterator` of engine/internal/storage/store.go, over the entries of BadgerDB's own iterator.
-- `rest` is what the iterator has not passed, in the order of the iteration.
pub mod Forward
use mathlib.Core.List.{reverse}
use basuyudb.Base.{
  ℕ, zero, suc, Bool, true, false, List, [], ◌∷◌, Bytes, Option, none, some, cmp, Ordering,
  has_prefix, if◌then◌else◌,
}
use basuyudb.Storage.Mvcc.History.{Entry}
use basuyudb.Storage.Successor.{prefix_successor}

pub record BadgerIterator : Type 0 where
  pub entries : List Entry
  pub rest : List Entry
  pub prefix : Bytes
  pub reverse : Bool

-- NewIterator and NewReverseIterator, over the whole iteration of a transaction
unfoldable pub new_iterator : List Entry → Bytes → BadgerIterator
new_iterator es prefix = record { entries = es; rest = es; prefix = prefix; reverse = false }

unfoldable pub new_reverse_iterator : List Entry → Bytes → BadgerIterator
new_reverse_iterator es prefix = record {
  entries = reverse es;
  rest = reverse es;
  prefix = prefix;
  reverse = true;
}

-- BadgerDB's Seek: the first key from `k` on, in the order of the iteration.
unfoldable pub seek_forward : Bytes → List Entry → List Entry
seek_forward k [] = []
seek_forward k ((j, v) ∷ es) =
    let rest = seek_forward k es in elim (cmp j k) [ Ordering.lt ↦ rest | _ ↦ (j, v) ∷ es ]

unfoldable pub seek_reverse : Bytes → List Entry → List Entry
seek_reverse k [] = []
seek_reverse k ((j, v) ∷ es) =
    let rest = seek_reverse k es in elim (cmp j k) [ Ordering.gt ↦ rest | _ ↦ (j, v) ∷ es ]

unfoldable pub seek : BadgerIterator → Bytes → BadgerIterator
seek it k = record it {
  rest = if it.reverse then seek_reverse k it.entries else seek_forward k it.entries;
}

-- An empty bound (a nil successor) seeks to the start of the iteration.
rewind_reverse : Option Bytes → List Entry → List Entry
unfolding seek_reverse
rewind_reverse none es = es
rewind_reverse (some k) es = seek_reverse k es

unfoldable pub rewind : BadgerIterator → BadgerIterator
unfolding rewind_reverse seek_forward
rewind it = record it {
  rest =
      if it.reverse
      then rewind_reverse (prefix_successor it.prefix) it.entries
      else seek_forward it.prefix it.entries;
}

-- ValidForPrefix
valid_for_prefix : Bytes → List Entry → Bool
valid_for_prefix p [] = false
valid_for_prefix p ((k, v) ∷ es) = has_prefix k p

unfoldable pub valid : BadgerIterator → Bool
unfolding valid_for_prefix
valid it = valid_for_prefix it.prefix it.rest

-- The entries that a loop `for ; it.Valid(); it.Next()` meets from here.
unfoldable pub run : Bytes → List Entry → List Entry
run p [] = []
run p ((k, v) ∷ es) = let rest = run p es in if has_prefix k p then (k, v) ∷ rest else []

unfoldable pub drain : BadgerIterator → List Entry
unfolding run
drain it = run it.prefix it.rest
