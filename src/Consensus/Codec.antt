-- ===== src/Consensus/Codec.antt =====
-- engine/internal/consensus/codec.go: a transaction's proposal as bytes in the Raft log.
-- `pos` moves forward only, so the decoder is given `b[pos:]`. An applied mutation has the fields of a
-- mutation. The capacity that the decoder reserves is not modelled.
pub mod RoundTrip
use basuyudb.Base.{
  ℕ, zero, suc, ◌+◌, ◌-◌, ◌%◌, ◌^◌, ◌≡◌, Bool, true, false, List, [], ◌∷◌, ◌++◌, Bytes, Result, ok,
  err, ◌>>=◌, ltb, ◌==◌, if◌then◌else◌, length, take, drop, put_uint32, put_uint64, get_uint32,
  get_uint64, short_proposal, truncated_header, truncated_key, truncated_value,
}
use basuyudb.Transactions.Overlay.{Mutation}

-- ^uint64(0)
abbrev pub no_conflict_read_ts : ℕ
no_conflict_read_ts = 2 ^ 64 - 1

-- uint32(len(b)) and the bytes
unfoldable pub put_prefixed : Bytes → Bytes
put_prefixed b = put_uint32 (length b % 2 ^ 32) ++ b

unfoldable pub put_mutation : Mutation → Bytes
put_mutation m = (if m.delete then 1 else 0) ∷ put_prefixed m.key ++ put_prefixed m.value

unfoldable pub put_mutations : List Mutation → Bytes
put_mutations [] = []
put_mutations (m ∷ muts) = put_mutation m ++ put_mutations muts

unfoldable pub marshal_proposal : ℕ → List Mutation → Bytes
marshal_proposal read muts =
    put_uint64 read ++ (put_uint32 (length muts % 2 ^ 32) ++ put_mutations muts)

unfoldable pub marshal_batch : List Mutation → Bytes
marshal_batch muts = marshal_proposal no_conflict_read_ts muts

-- From the value's length on.
unfoldable pub read_value : Bool → Bytes → Bytes → Result (Mutation × Bytes)
read_value del key b =
    let vlen = get_uint32 b in
    let b' = drop 4 b in
    if ltb (length b') vlen
    then err truncated_value
    else ok (record { key = key; value = take vlen b'; delete = del }, drop vlen b')

-- From the key on.
unfoldable pub read_key : Bool → ℕ → Bytes → Result (Mutation × Bytes)
read_key del klen b =
    if ltb (length b) (klen + 4)
    then err truncated_key
    else read_value del (take klen b) (drop klen b)

-- One round of the loop.
unfoldable pub read_mutation : Bytes → Result (Mutation × Bytes)
read_mutation [] = err truncated_header
read_mutation (flag ∷ b) =
    if ltb (length (flag ∷ b)) 5
    then err truncated_header
    else read_key (flag == 1) (get_uint32 b) (drop 4 b)

-- The loop, over the rounds left.
unfoldable pub read_mutations : ℕ → Bytes → Result (List Mutation)
read_mutations zero b = ok []
read_mutations (suc n) b = do
  (m, rest) ← read_mutation b
  muts ← read_mutations n rest
  ok (m ∷ muts)

unfoldable pub unmarshal_proposal : Bytes → Result (ℕ × List Mutation)
unmarshal_proposal b =
    if ltb (length b) 12
    then err short_proposal
    else do muts ← read_mutations (get_uint32 (drop 8 b)) (drop 12 b); ok (get_uint64 b, muts)
