-- ===== src/Executor/Sequences/Calls.antt =====
-- The values that calls of a sequence give.
use basuyudb.Base.{
  ◌≡◌, ap, ◌∙◌, inl, inr, ℕ, suc, ◌+◌, ◌-◌, ◌^◌, ◌<◌, Bytes, none, some, eqb, eqb→eq, eqb_refl,
  if◌then◌else◌, arith, Bool-cases, List, [], ◌∷◌,
}
use basuyudb.Base.Int.{pos}
use basuyudb.Executor.IntArith.{add_i64, sub_i64}
use basuyudb.Executor.Sequences.{SeqVals, seq_next_val, seq_init}

-- Values after calls of nextval of a sequence, with calls for other sequences between them.
unfoldable pub next_all : SeqVals → List Bytes → SeqVals
next_all vals [] = vals
next_all vals (name ∷ names) = next_all (seq_next_val vals name).0 names

-- How often a sequence is called.
unfoldable pub calls_of : Bytes → List Bytes → ℕ
calls_of name [] = 0
calls_of name (n ∷ names) = if eqb n name then suc (calls_of name names) else calls_of name names

add_one : (n : ℕ) → n + 1 < 2 ^ 63 → add_i64 (pos n) (pos 1) ≡ pos (n + 1)
unfolding add_i64
add_one n h = ground arith

sub_one : (n : ℕ) → 0 < n → n < 2 ^ 63 → sub_i64 (pos n) (pos 1) ≡ pos (n - 1)
unfolding sub_i64
sub_one n p h = ground arith

next_all-value :
    (vals : SeqVals) (name : Bytes) (names : List Bytes) (n : ℕ)
    → vals name ≡ some (pos n)
    → n + calls_of name names < 2 ^ 63
    → next_all vals names name ≡ some (pos (n + calls_of name names))
unfolding next_all seq_next_val calls_of
next_all-value vals name [] n v h = v ∙ ap (λ m. some (pos m)) (omega arith)
next_all-value vals name (m ∷ names) n v h = elim (Bool-cases (eqb m name)) [
  | inl e ↦
      let same = eqb→eq m name e in
      let bound : n + suc (calls_of name names) < 2 ^ 63 = rw e at h in
      rw e (
        next_all-value (seq_next_val vals m).0 name names (n + 1)
          (rw (e, same, v) (ap some (add_one n (omega arith)))) (omega arith)
        ∙ ap (λ k. some (pos k)) (omega arith))
  | inr e ↦ rw e (next_all-value (seq_next_val vals m).0 name names n (rw e v) (rw e at h))
]

-- A new sequence that is initialised with a start of at least 1: whatever calls of nextval for this and other sequences came since, the
-- next value of the sequence is the start plus the number of calls of it so far, as long as that fits an int64; so the values
-- are the start and its successors, each given once.
pub seq_next_val-init :
    (vals : SeqVals) (name : Bytes) (names : List Bytes) (start : ℕ)
    → vals name ≡ none
    → 0 < start
    → start + calls_of name names < 2 ^ 63
    → (seq_next_val (next_all (seq_init vals name (pos start)) names) name).1
      ≡ pos (start + calls_of name names)
unfolding seq_next_val seq_init
seq_next_val-init vals name names start fresh p h =
    rw
      (next_all-value (seq_init vals name (pos start)) name names (start - 1)
        (rw (fresh, seq_init, eqb_refl name) (ap some (sub_one start p (omega arith))))
        (omega arith))
      (add_one (start - 1 + calls_of name names) (omega arith) ∙ ap pos (omega arith))
