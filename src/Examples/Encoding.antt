-- ===== src/Examples/Encoding.antt =====
-- Index values, clock readings, merges and set operations.
use basuyudb.Base.{
  ℕ, ◌<◌, ◌≡◌, ◌↔◌, refl, inl, true, false, List, [], ◌∷◌, ◌++◌, Bytes, codes, Option, none, Result,
  ok, arith, has_prefix, cmp, min,
}
use basuyudb.Base.Int.{ℤ, pos, negsuc, compare_ℤ}
use basuyudb.Storage.Keys.{branch_segment, index_key, index_value_prefix}
use basuyudb.Storage.Mvcc.History.{Entry}
use basuyudb.Transactions.Hlc.{HlcTimestamp, Hlc, encode, reading, update, Before}
use basuyudb.Transactions.Hlc.Monotone.{
  Increasing, issue, now-Increasing, update_ahead, update_misses_remote,
}
use basuyudb.Transactions.Hlc.Encoding.{encode_ordered}
use basuyudb.Executor.OrderEnc.{TypeOid, encode_int, encode_ordered_text, order_encode}
use basuyudb.Executor.OrderEnc.Order.{encode_int_order, encode_text_order, then_by}
use basuyudb.Executor.OrderEnc.Lookup.{index_lookup_exact}
use basuyudb.Executor.SetOps.{Row, count_rows, intersect_rows}
use basuyudb.Executor.SetOps.Counts.{intersect_rows-count}
use basuyudb.Examples.{acme}
use basuyudb.Examples.Storing.{dev_users-AreNames}

abbrev no_int : Bytes → Option ℤ
no_int t = none

abbrev no_float : Bytes → Option ℕ
no_float t = none

encode_int_order_example :
    cmp (encode_int (negsuc 4)) (encode_int (pos 3)) ≡ compare_ℤ (negsuc 4) (pos 3)
encode_int_order_example = encode_int_order (negsuc 4) (pos 3) (omega arith) (omega arith)

encode_text_order_example :
    cmp (encode_ordered_text (codes "a") ++ (0x2F ∷ [])) (encode_ordered_text (codes "ab") ++ [])
    ≡ then_by (cmp (codes "a") (codes "ab")) (cmp (0x2F ∷ []) [])
encode_text_order_example = encode_text_order (codes "a") (codes "ab") (0x2F ∷ []) []

index_lookup_exact_example :
    (has_prefix
        (index_key acme
          (codes "dev")
          (codes "users")
          (codes "name")
          (encode_ordered_text (codes "a"))
          (codes "7"))
        (index_value_prefix acme
          (codes "dev")
          (codes "users")
          (codes "name")
          (encode_ordered_text (codes "ab")))
      ≡ true)
    ↔ ((codes "acme" ≡ codes "acme")
        × (branch_segment (codes "dev") ≡ branch_segment (codes "dev"))
        × (codes "users" ≡ codes "users")
        × (codes "name" ≡ codes "name")
        × (encode_ordered_text (codes "a") ≡ encode_ordered_text (codes "ab")))
unfolding order_encode
index_lookup_exact_example =
    index_lookup_exact no_int no_float acme acme (codes "dev") (codes "dev") (codes "users")
      (codes "users") (codes "name") (codes "name") (codes "7") TypeOid.text (codes "a")
      (codes "ab") (encode_ordered_text (codes "a")) (encode_ordered_text (codes "ab"))
      dev_users-AreNames dev_users-AreNames (omega arith) (omega arith) refl refl

abbrev clock : Hlc
clock = record { last_wall = 5_000_000; logical = 3; node_id = 1 }

abbrev remote : ℕ → ℕ → HlcTimestamp
remote wall logical = record { wall_nanos = wall; logical = logical; node_id = 2 }

now-Increasing_example : Increasing (issue clock (4 ∷ 6_000_000 ∷ 6_000_000 ∷ []))
now-Increasing_example = now-Increasing clock (4 ∷ 6_000_000 ∷ 6_000_000 ∷ []) (omega arith)

update_ahead_example :
    Before (reading clock) (update clock 4 (remote 7_000_000 9)).0
    × Before (remote 7_000_000 9) (update clock 4 (remote 7_000_000 9)).0
update_ahead_example =
    update_ahead clock 4 (remote 7_000_000 9) (omega arith) (omega arith) (omega arith)

update_misses_remote_example : ¬ Before (remote 5_000_000 9) (update clock 4 (remote 5_000_000 9)).0
update_misses_remote_example =
    update_misses_remote clock 4 (remote 5_000_000 9) (omega arith) (omega arith) refl (omega arith)

encode_ordered_example : encode (remote 5_000_000 3) < encode (remote 6_000_000 0)
encode_ordered_example =
    encode_ordered (remote 5_000_000 3) (remote 6_000_000 0) (omega arith) (omega arith)
      (omega arith) (inl (omega arith))

abbrev cell : Bytes → Row
cell t = record { is_null = false; text = t } ∷ []

abbrev left_rows : List Row
left_rows = cell (codes "x") ∷ cell (codes "x") ∷ cell (codes "y") ∷ []

abbrev right_rows : List Row
right_rows = cell (codes "x") ∷ []

abbrev x_key : Bytes
x_key = 0x01 ∷ codes "x|"

intersect_rows-count_example :
    (count_rows (intersect_rows left_rows right_rows true) x_key
      ≡ min (count_rows left_rows x_key) (count_rows right_rows x_key))
    × (count_rows (intersect_rows left_rows right_rows false) x_key
        ≡ min 1 (min (count_rows left_rows x_key) (count_rows right_rows x_key)))
intersect_rows-count_example = intersect_rows-count left_rows right_rows x_key

abbrev branch_rows : List Entry
branch_rows = (codes "b/t/1", 0x01 ∷ codes "v") ∷ (codes "b/t/2", 0x00 ∷ []) ∷ []

abbrev parent_rows : Bytes → Result Bytes
parent_rows k = ok (0x01 ∷ codes "w")
