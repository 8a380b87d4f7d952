-- ===== src/Transactions/Engine/Scans.antt =====
-- A transaction's scans and its reads agree.
use basuyudb.Base.{
  ℕ, ◌≡◌, refl, ◌∙◌, inl, inr, false, List, [], ◌∷◌, ◌++◌, Bytes, Option, none, some, Result, ok,
  err, Bool-cases, arith, if◌then◌else◌, has_prefix, ltb, lt→ltb, length, eqb, key_not_found,
}
use basuyudb.Storage.Mvcc.{Badger, BadgerLaws, txn_get}
use basuyudb.Storage.Mvcc.History.{Entry, newest, live, lookup, IsAscending}
use basuyudb.Storage.Iterator.{new_iterator, rewind, drain}
use basuyudb.Storage.Iterator.Forward.{forward_scan_exact}
use basuyudb.Transactions.Overlay.{Mutation, newest_mutation, buffered_for_prefix, scan_all}
use basuyudb.Transactions.Overlay.Scan.{
  find_mutation, shown, IsSorted, scan_all-lookup, scan_all-IsAscending,
}
use basuyudb.Transactions.Overlay.Buffer.{buffered-IsSorted, find-buffered, find-buffered_outside}
use basuyudb.Transactions.Engine.{Replicated, Engine, Txn, get, scan, buffer, own_write}
use basuyudb.Transactions.Engine.Isolation.{txn_get_lem}

-- The value of a read, if there is one.
abbrev pub value_of : Result Bytes → Option Bytes
value_of (ok v) = some v
value_of (err x) = none

-- Merging with an empty overlay changes nothing; the code skips it then.
pub shown_overlay :
    (k : Bytes) (base : List Entry) (buf : List Mutation)
    → IsAscending base
    → IsSorted buf
    → IsAscending (if ltb 0 (length buf) then scan_all base buf else base)
      × (lookup k (if ltb 0 (length buf) then scan_all base buf else base)
          ≡ shown (find_mutation k buf) (lookup k base))
shown_overlay k base [] a s = (a, refl)
shown_overlay k base (b ∷ buf) a s =
    rw (lt→ltb 0 (length (b ∷ buf)) (omega arith))
      (scan_all-IsAscending base (b ∷ buf) a s, scan_all-lookup k base (b ∷ buf) a s)

module _ (B : Badger) (L : BadgerLaws B) (R : Replicated B.Db) where
  stored_value :
      (db : B.Db) (t : ℕ) (k : Bytes)
      → value_of (txn_get B db t k) ≡ live (newest (L.history db) t k)
  stored_value db t k = rw (txn_get_lem B L R db t k) (ground arith)

  -- In a transaction that is not finished, a loop over a scan of a prefix meets, in strictly
  -- ascending order, exactly the keys with the prefix that the transaction's `Get` finds, with
  -- the values that it finds: its own uncommitted writes and deletes included.
  pub scan-get :
      (e : Engine B R) (t : Txn) (p k : Bytes)
      → t.done ≡ false
      → IsAscending (scan B R e t p)
        × (lookup k (scan B R e t p) ≡ (if has_prefix k p then value_of (get B R e t k) else none))
  unfolding scan
  scan-get e t p k undone =
      let base = drain (rewind (new_iterator (B.scan_at e.store t.read_uint) p)) in
      let (a, l) =
        forward_scan_exact (B.scan_at e.store t.read_uint) p k
          (L.scan_at-IsAscending e.store t.read_uint) in
      let (b, m) =
        shown_overlay k base (buffered_for_prefix t.mutations p) a
          (buffered-IsSorted t.mutations p) in
      (
        b,
        m ∙ elim (Bool-cases (has_prefix k p)) [
          | inl h ↦
              unfold get own_write in
              ground (
                arith,
                undone,
                l,
                h,
                find-buffered k t.mutations p h,
                L.scan_at-lookup e.store t.read_uint k,
                stored_value e.store t.read_uint k,
              )
          | inr h ↦ ground (arith, l, h, find-buffered_outside k t.mutations p h)
        ],
      )

  newest-append :
      (k : Bytes) (muts : List Mutation) (m : Mutation)
      → newest_mutation k (muts ++ (m ∷ []))
        ≡ (if eqb m.key k then some m else newest_mutation k muts)
  unfolding newest_mutation
  newest-append k [] m = refl
  newest-append k (x ∷ muts) m = ground (arith, newest-append k muts m)

  -- Read your writes, in a transaction that is not finished: after a mutation is buffered, `Get`
  -- of its key answers by it, a delete with "key not found"; the answers for other keys do not
  -- change.
  pub get-buffer :
      (e : Engine B R) (t : Txn) (m : Mutation) (k : Bytes)
      → t.done ≡ false
      → get B R e (buffer B R t m) k ≡ (
          if eqb m.key k
          then (if m.delete then err key_not_found else ok m.value)
          else get B R e t k)
  unfolding get buffer own_write
  get-buffer e t m k undone = ground (arith, undone, newest-append k t.mutations m)
