-- ===== src/Storage/Backup.antt =====
-- engine/internal/storage/store.go: Backup and Restore. A writer that fails is not modelled; a reader
-- is the bytes that are left.
pub mod RoundTrip
use basuyudb.Base.{
  ℕ, zero, suc, ◌+◌, ◌%◌, ◌^◌, List, [], ◌∷◌, ◌++◌, Bytes, Result, ok, err, eof, unexpected_eof,
  put_uint32, get_uint32, length, take, drop, ltb, if◌then◌else◌, ◌>>=◌,
}
use basuyudb.Storage.Mvcc.{Badger}
use basuyudb.Storage.Mvcc.History.{Entry}

-- writeChunk
unfoldable pub write_chunk : Bytes → Bytes
write_chunk b = put_uint32 (length b % 2 ^ 32) ++ b

-- io.ReadFull of n bytes: the end of the input is told apart from an input that is cut short.
unfoldable pub read_full : ℕ → Bytes → Result (Bytes × Bytes)
read_full n r =
    if ltb (length r) n
    then (elim r [ [] ↦ err eof | _ ∷ _ ↦ err unexpected_eof ])
    else ok (take n r, drop n r)

chunk_body : Bytes × Bytes → Result (Bytes × Bytes)
unfolding read_full
chunk_body (lp, r) = read_full (get_uint32 lp) r

-- readChunk
unfoldable pub read_chunk : Bytes → Result (Bytes × Bytes)
unfolding chunk_body read_full
read_chunk r = read_full 4 r >>= chunk_body

module _ (B : Badger) where
  -- The loop of Backup.
  unfoldable pub write_entries : List Entry → Bytes
  write_entries [] = []
  write_entries ((k, v) ∷ es) = write_chunk k ++ (write_chunk v ++ write_entries es)

  -- Backup: what is written, and the version.
  unfoldable pub backup : B.Db → Bytes × ℕ
  unfolding write_entries
  backup db = (write_entries (B.scan_at db (B.max_version db)), B.max_version db)

  restore_value : B.Batch → Bytes × Bytes → Result (B.Batch × Bytes)
  restore_value b (k, r) = read_chunk r >>= λ p. B.batch_set b k p.0 >>= λ b'. ok (b', p.1)

  -- The loop of Restore, on fuel: a turn reads at least eight bytes.
  unfoldable pub restore_loop : ℕ → B.Batch → Bytes → Result B.Batch
  unfolding restore_value
  restore_loop zero b r = ok b
  restore_loop (suc n) b r = elim (read_chunk r) [
    | err eof ↦ ok b
    | err x ↦ err x
    | ok p ↦ restore_value b p >>= λ q. restore_loop n q.0 q.1
  ]

  -- Restore
  unfoldable pub restore : B.Db → Bytes → Result B.Db
  unfolding restore_loop
  restore db r = restore_loop (suc (length r)) (B.new_batch db 1) r >>= λ b. B.flush db b
