-- ===== src/Storage/Backup/RoundTrip.antt =====
-- What is restored from a backup.
use basuyudb.Base.{
  ℕ, zero, suc, ◌%◌, ◌^◌, ◌≤◌, ◌<◌, ◌≡◌, refl, sym, ap, ap₂, ◌∙◌, List, [], ◌∷◌, ◌++◌, append-nil,
  append_assoc, Bytes, Option, none, some, Result, ok, ◌>>=◌, put_uint32, get_uint32,
  get_uint32-put, length, length-append, length-put_uint32, take, drop, take-length, drop-length,
  ltb-false, arith, eqb, eqb_iff, Bool-cases, inl, inr, All, Result-cases,
}
use basuyudb.Storage.Mvcc.{Badger, BadgerLaws}
use basuyudb.Storage.Mvcc.History.{Entry, Write, lookup, IsAscending, live, newest, stamp}
use basuyudb.Storage.Mvcc.Reads.{find_write, newest-commit, overlay}
use basuyudb.Storage.Mvcc.Entries.{lookup-low}
use basuyudb.Storage.Backup.{
  write_chunk, read_full, chunk_body, read_chunk, write_entries, backup, restore_value,
  restore_loop, restore,
}

-- The key and the value have lengths that a uint32 holds.
pub record FitsChunks (e : Entry) : Type 0 where
  pub key_fits : length e.0 < 2 ^ 32
  pub value_fits : length e.1 < 2 ^ 32

small_mod : (n : ℕ) → n < 2 ^ 32 → n % 2 ^ 32 ≡ n
small_mod n h = omega arith

take-put_uint32 : (n : ℕ) (r : Bytes) → take 4 (put_uint32 n ++ r) ≡ put_uint32 n
unfolding put_uint32
take-put_uint32 n r = refl

drop-put_uint32 : (n : ℕ) (r : Bytes) → drop 4 (put_uint32 n ++ r) ≡ r
unfolding put_uint32
drop-put_uint32 n r = refl

get_put : (n : ℕ) → n < 2 ^ 32 → get_uint32 (put_uint32 n) ≡ n
get_put n h = ap get_uint32 (sym (append-nil (put_uint32 n))) ∙ get_uint32-put n [] h

read_full_enough : (n : ℕ) (r : Bytes) → n ≤ length r → read_full n r ≡ ok (take n r, drop n r)
unfolding read_full
read_full_enough n r h = rw (ltb-false (length r) n h) refl

-- A chunk that was written is read back, and what follows it is left.
read_chunk-write_chunk :
    (b r : Bytes) → length b < 2 ^ 32 → read_chunk (write_chunk b ++ r) ≡ ok (b, r)
unfolding read_chunk write_chunk chunk_body
read_chunk-write_chunk b r h =
    let e : (put_uint32 (length b % 2 ^ 32) ++ b) ++ r ≡ put_uint32 (length b) ++ (b ++ r) =
      ap (λ n. (put_uint32 n ++ b) ++ r) (small_mod (length b) h)
      ∙ append_assoc (put_uint32 (length b)) b r in
    rw
      (
        e,
        read_full_enough 4 (put_uint32 (length b) ++ (b ++ r)) (
            omega (
              arith,
              length-append (put_uint32 (length b)) (b ++ r),
              length-put_uint32 (length b),
            )),
        take-put_uint32 (length b) (b ++ r),
        drop-put_uint32 (length b) (b ++ r),
        get_put (length b) h,
        read_full_enough (length b) (b ++ r) (omega (arith, length-append b r)),
        take-length b r,
        drop-length b r,
      )
      refl

module _ (B : Badger) where
  -- The entries set in their order.
  unfoldable pub set_all : B.Batch → List Entry → Result B.Batch
  set_all b [] = ok b
  set_all b ((k, v) ∷ es) = B.batch_set b k v >>= λ b'. set_all b' es

  restore_step :
      (n : ℕ) (b : B.Batch) (r : Bytes) (p : Bytes × Bytes)
      → read_chunk r ≡ ok p
      → restore_loop B (suc n) b r ≡ (restore_value B b p >>= λ q. restore_loop B n q.0 q.1)
  unfolding restore_loop
  restore_step n b r p e = rw (restore_loop, e) refl

  restore_end : (n : ℕ) (b : B.Batch) → restore_loop B (suc n) b [] ≡ ok b
  unfolding restore_loop read_chunk read_full
  restore_end n b = refl

  restore_value_step :
      (b : B.Batch) (k v r s : Bytes)
      → read_chunk r ≡ ok (v, s)
      → restore_value B b (k, r) ≡ (B.batch_set b k v >>= λ b'. ok (b', s))
  unfolding restore_value
  restore_value_step b k v r s e = rw (restore_value, e) refl

  restore_loop-write_entries :
      (n : ℕ) (b : B.Batch) (es : List Entry)
      → All FitsChunks es
      → length es < n
      → restore_loop B n b (write_entries B es) ≡ set_all b es
  unfolding write_entries set_all
  restore_loop-write_entries zero b es f h = absurd (omega arith)
  restore_loop-write_entries (suc n) b [] f h = restore_end n b
  restore_loop-write_entries (suc n) b ((k, v) ∷ es) f h =
      restore_step n b _ _
        (read_chunk-write_chunk k (write_chunk v ++ write_entries B es) f.0.key_fits)
      ∙ ap (λ s. s >>= λ q. restore_loop B n q.0 q.1)
          (restore_value_step b k v _ _
            (read_chunk-write_chunk v (write_entries B es) f.0.value_fits))
      ∙ elim (Result-cases (B.batch_set b k v)) [
        | inr (x, e) ↦ rw e refl
        | inl (c, e) ↦ rw e (restore_loop-write_entries n c es f.1 (omega arith))
      ]

  -- A chunk has a length prefix, so the stream is longer than the list of the entries.
  enough_fuel : (es : List Entry) → length es ≤ length (write_entries B es)
  unfolding write_entries write_chunk
  enough_fuel [] = omega arith
  enough_fuel ((k, v) ∷ es) = omega (
    arith,
    enough_fuel es,
    length-append (write_chunk k) (write_chunk v ++ write_entries B es),
    length-append (write_chunk v) (write_entries B es),
    length-append (put_uint32 (length k % 2 ^ 32)) k,
    length-put_uint32 (length k % 2 ^ 32),
  )

  restore-write_entries :
      (db : B.Db) (es : List Entry)
      → All FitsChunks es
      → restore B db (write_entries B es) ≡ (set_all (B.new_batch db 1) es >>= λ b. B.flush db b)
  unfolding restore
  restore-write_entries db es f =
      ap (λ r. r >>= λ b. B.flush db b)
        (restore_loop-write_entries (suc (length (write_entries B es))) (B.new_batch db 1) es f
          (omega (arith, enough_fuel es)))

-- The writes of a list of entries, the latest first.
abbrev entry_writes : List Entry → List Write → List Write
entry_writes [] before = before
entry_writes ((k, v) ∷ es) before = entry_writes es ((k, some v) ∷ before)

abbrev found_or : Option Bytes → Option (Option Bytes) → Option (Option Bytes)
found_or none before = before
found_or (some v) before = some (some v)

find-entry_writes :
    (es : List Entry) (before : List Write) (k : Bytes)
    → IsAscending es
    → find_write (entry_writes es before) k ≡ found_or (lookup k es) (find_write before k)
unfolding find_write lookup
find-entry_writes [] before k a = refl
find-entry_writes ((j, v) ∷ es) before k a = elim (Bool-cases (eqb j k)) [
  | inl e ↦ ground (
    arith,
    e,
    find-entry_writes es ((j, some v) ∷ before) k a.1,
    eqb_iff j k,
    lookup-low j es a.1 a.0,
  )
  | inr e ↦ ground (arith, e, find-entry_writes es ((j, some v) ∷ before) k a.1)
]

module _ (B : Badger) (L : BadgerLaws B) where
  set_all_writes :
      (b b' : B.Batch) (es : List Entry)
      → set_all B b es ≡ ok b'
      → (L.pending b' ≡ entry_writes es (L.pending b)) × (L.batch_ts b' ≡ L.batch_ts b)
  unfolding set_all
  set_all_writes b b' [] e = (cc, cc)
  set_all_writes b b' ((k, v) ∷ es) e = elim (Result-cases (B.batch_set b k v)) [
    | inl (c, f) ↦
        let (p, q) = L.pending-batch_set b c k v f in
        let (r, s) = set_all_writes c b' es (rw f at e) in (r ∙ ap (entry_writes es) p, s ∙ q)
    | inr (x, f) ↦ let z = rw f at e in cc
  ]

  -- A backup that is restored into an empty store, without an error of the library, gives each key at every
  -- timestamp from 1 on the value that the backed-up store had at its version: live keys with their
  -- values, and no others. The keys and values have lengths that a uint32 holds.
  pub restore-backup :
      (db empty db' : B.Db) (ts : ℕ) (k : Bytes)
      → All FitsChunks (B.scan_at db (B.max_version db))
      → L.history empty ≡ []
      → 1 ≤ ts
      → restore B empty (backup B db).0 ≡ ok db'
      → lookup k (B.scan_at db' ts) ≡ lookup k (B.scan_at db (B.max_version db))
  unfolding backup newest find_write lookup
  restore-backup db empty db' ts k f e h r =
      elim (Result-cases (set_all B (B.new_batch empty 1) es)) [
        | inr (x, g) ↦ let z = rw g at done in cc
        | inl (b, g) ↦
            let (p, q) = set_all_writes (B.new_batch empty 1) b es g in
            L.scan_at-lookup db' ts k
            ∙ ap (λ h. live (newest h ts k))
                (L.history-flush empty db' b (rw g at done)
                  ∙ ap₂ (λ n ws. stamp n ws ++ L.history empty) (q ∙ L.batch_ts-new_batch empty 1)
                      (p ∙ ap (entry_writes es) (L.pending-new_batch empty 1))
                  ∙ ap (λ h. stamp 1 (entry_writes es []) ++ h) e)
            ∙ ap live (
                newest-commit (entry_writes es []) [] 1 ts k tt h
                ∙ ap (λ o. overlay k 1 o none)
                    (find-entry_writes es [] k (L.scan_at-IsAscending db (B.max_version db))))
            ∙ shows (lookup k es)
      ]
    where
      es : List Entry
      es = B.scan_at db (B.max_version db)

      done : (set_all B (B.new_batch empty 1) es >>= λ b. B.flush empty b) ≡ ok db'
      done = sym (restore-write_entries B empty es f) ∙ r

      shows : (o : Option Bytes) → live (overlay k 1 (found_or o none) none) ≡ o
      shows none = refl
      shows (some v) = refl
