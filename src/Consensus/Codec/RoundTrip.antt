-- ===== src/Consensus/Codec/RoundTrip.antt =====
-- What is decoded from an encoded proposal.
use basuyudb.Base.{
  ℕ, ◌+◌, ◌%◌, ◌^◌, ◌≤◌, ◌<◌, ◌≡◌, refl, ap, ◌∙◌, Bool, true, false, List, [], ◌∷◌, ◌++◌, Bytes, ok,
  ◌==◌, if◌then◌else◌, length, drop, put_uint32, put_uint64, get_uint32-put, get_uint64-put,
  length-append, take-length, drop-length, append_assoc, arith, ltb-false, All, length-put_uint32,
}
use basuyudb.Transactions.Overlay.{Mutation}
use basuyudb.Consensus.Codec.{
  put_prefixed, put_mutation, put_mutations, marshal_proposal, read_value, read_key, read_mutation,
  read_mutations, unmarshal_proposal,
}

-- The key and the value have lengths that a uint32 holds.
pub record Fits (m : Mutation) : Type 0 where
  pub key_fits : length m.key < 2 ^ 32
  pub value_fits : length m.value < 2 ^ 32

small_mod : (n : ℕ) → n < 2 ^ 32 → n % 2 ^ 32 ≡ n
small_mod n h = omega arith

drop-put_uint32 : (n : ℕ) (r : Bytes) → drop 4 (put_uint32 n ++ r) ≡ r
unfolding put_uint32
drop-put_uint32 n r = refl

length-prefix : (n : ℕ) (r : Bytes) → length (put_uint32 n ++ r) ≡ 4 + length r
length-prefix n r = rw length-append (rw length-put_uint32)

read_value-put :
    (del : Bool) (key v rest : Bytes)
    → length v < 2 ^ 32
    → read_value del key (put_uint32 (length v % 2 ^ 32) ++ (v ++ rest))
      ≡ ok (record { key = key; value = v; delete = del }, rest)
unfolding read_value
read_value-put del key v rest h = rw (
  small_mod (length v) h,
  get_uint32-put (length v) (v ++ rest) h,
  drop-put_uint32 (length v) (v ++ rest),
  ltb-false (length (v ++ rest)) (length v) (omega (arith, length-append v rest)),
  take-length v rest,
  drop-length v rest,
)

read_key-put :
    (del : Bool) (key rest : Bytes)
    → 4 ≤ length rest
    → read_key del (length key) (key ++ rest) ≡ read_value del key rest
unfolding read_key
read_key-put del key rest h = rw (
  ltb-false (length (key ++ rest)) (length key + 4) (omega (arith, length-append key rest)),
  take-length key rest,
  drop-length key rest,
)

flag_of : (b : Bool) → ((if b then 1 else 0) == 1) ≡ b
flag_of true = refl
flag_of false = refl

put_mutation_form :
    (m : Mutation) (rest : Bytes)
    → put_mutation m ++ rest
      ≡ (if m.delete then 1 else 0) ∷ put_uint32 (length m.key % 2 ^ 32)
        ++ (m.key ++ (put_uint32 (length m.value % 2 ^ 32) ++ (m.value ++ rest)))
unfolding put_mutation put_prefixed
put_mutation_form m rest = simp append_assoc

read_mutation_step :
    (b : Bool) (n : ℕ) (rest : Bytes)
    → n < 2 ^ 32
    → read_mutation ((if b then 1 else 0) ∷ put_uint32 (n % 2 ^ 32) ++ rest) ≡ read_key b n rest
unfolding read_mutation
read_mutation_step b n rest h = rw (
  small_mod n h,
  get_uint32-put n rest h,
  drop-put_uint32 n rest,
  flag_of b,
  ltb-false (length ((if b then 1 else 0) ∷ put_uint32 n ++ rest)) 5
      (omega (arith, length-prefix n rest)),
)

read_mutation-put :
    (m : Mutation) (rest : Bytes) → Fits m → read_mutation (put_mutation m ++ rest) ≡ ok (m, rest)
read_mutation-put m rest f =
    ap read_mutation (put_mutation_form m rest)
    ∙ read_mutation_step m.delete (length m.key) _ f.key_fits
    ∙ read_key-put m.delete m.key _
        (omega (arith, length-prefix (length m.value % 2 ^ 32) (m.value ++ rest)))
    ∙ read_value-put m.delete m.key m.value rest f.value_fits

read_mutations-put :
    (muts : List Mutation)
    → All Fits muts
    → read_mutations (length muts) (put_mutations muts) ≡ ok muts
unfolding read_mutations put_mutations
read_mutations-put [] f = refl
read_mutations-put (m ∷ muts) f =
    rw (read_mutation-put m (put_mutations muts) f.0, read_mutations-put muts f.1)

drop-header : (r : ℕ) (b : Bytes) → drop 8 (put_uint64 r ++ b) ≡ b
unfolding put_uint64
drop-header r b = refl

drop-count : (r n : ℕ) (b : Bytes) → drop 12 (put_uint64 r ++ (put_uint32 n ++ b)) ≡ b
unfolding put_uint64 put_uint32
drop-count r n b = refl

length-header : (r n : ℕ) (b : Bytes) → length (put_uint64 r ++ (put_uint32 n ++ b)) ≡ 12 + length b
unfolding put_uint64 put_uint32
length-header r n b = omega arith

-- A replica decodes the snapshot and the mutations, in order, that the proposer encoded, where the
-- snapshot is a uint64 and the number and the lengths fit their uint32 fields.
pub unmarshal-marshal :
    (read : ℕ) (muts : List Mutation)
    → read < 2 ^ 64
    → length muts < 2 ^ 32
    → All Fits muts
    → unmarshal_proposal (marshal_proposal read muts) ≡ ok (read, muts)
unfolding unmarshal_proposal marshal_proposal
unmarshal-marshal read muts r n f =
    let body : Bytes = put_uint32 (length muts) ++ put_mutations muts in
    rw (
      small_mod (length muts) n,
      ltb-false (length (put_uint64 read ++ body)) 12
          (omega (arith, length-header read (length muts) (put_mutations muts))),
      get_uint64-put read body r,
      drop-header read body,
      drop-count read (length muts) (put_mutations muts),
      get_uint32-put (length muts) (put_mutations muts) n,
      read_mutations-put muts f,
    )
