-- ===== src/Examples/Statements.antt =====
-- Wire messages, rows, COPY, integer arithmetic, sequences, index scans and tokens.
use basuyudb.Base.{
  if◌then◌else◌, true, eqb_iff, ap, ◌≡◌, refl, ◌+◌, ◌≤◌, ◌^◌, false, List, [], ◌∷◌, ◌++◌, Bytes,
  codes, none, some, ok, arith, length, drop, eqb, get_uint32,
}
use basuyudb.Base.Int.{zero_int, pos}
use basuyudb.Storage.Memory.{memory}
use basuyudb.Storage.Memory.Laws.{memory_laws}
use basuyudb.Transactions.Engine.{Txn, begin, scan}
use basuyudb.Session.{Session}
use basuyudb.Wire.Protocol.{read_typed, read_startup, send}
use basuyudb.Wire.Protocol.Framing.{read_typed-send, read_startup-bounds}
use basuyudb.Executor.SetOps.{Datum}
use basuyudb.Executor.RowCodec.{encode_row, decode_row, null_datum}
use basuyudb.Executor.RowCodec.RoundTrip.{nulls, decode-encode_row}
use basuyudb.Executor.CopyText.{format_copy_text, parse_copy_text}
use basuyudb.Executor.CopyText.RoundTrip.{IsCopyRow, parse-format_copy_text}
use basuyudb.Executor.Sequences.{SeqVals, seq_init, seq_next_val}
use basuyudb.Executor.Sequences.Calls.{next_all, calls_of, seq_next_val-init}
use basuyudb.Executor.IndexScan.{
  Where, comparison, conjunction, end, also, a_const, column_ref, param_ref, as_col_ref,
  is_const_node, resolve_const_text, matches_rel, bound_from_comparison, read_sides, join_bounds,
  bounds_of_op, flip_op, extract_col_bounds, lo_key, hi_key, below, above, fetch_row,
  scan_index_range,
}
use basuyudb.Executor.IndexScan.Bounds.{
  Within, Meets, side_text, column_text, op_kind, extract_col_bounds-Within,
}
use basuyudb.Executor.IndexScan.Window.{window-exact, in_window, select, fetch_all}
use basuyudb.Executor.IndexScan.Scans.{scan_index_range-select}
use basuyudb.Parser.Keywords.{Token}
use basuyudb.Parser.Scanner.{new_lexer}
use basuyudb.Parser.Lexer.Progress.{lex_all, lex_all-total}
use basuyudb.Examples.{solo, session, engine, txn_of}

read_typed-send_example :
    read_typed (drop (length (codes "Zx")) (send b'C' (codes "SELECT 1") (codes "Zx")) ++ codes "S")
    ≡ ok ((b'C', codes "SELECT 1"), codes "S")
read_typed-send_example =
    read_typed-send b'C' (codes "SELECT 1") (codes "Zx") (codes "S") (omega arith)

abbrev startup : Bytes
startup = 0 ∷ 0 ∷ 0 ∷ 8 ∷ 4 ∷ 210 ∷ 22 ∷ 47 ∷ b'S' ∷ []

abbrev startup_body : Bytes
startup_body = 4 ∷ 210 ∷ 22 ∷ 47 ∷ []

read_startup-bounds_example :
    (4 ≤ length startup_body)
    × (length startup_body + 4 ≤ 2 ^ 20)
    × (length startup ≡ 4 + length startup_body + length (codes "S"))
unfolding read_startup get_uint32
read_startup-bounds_example = read_startup-bounds startup (codes "S") startup_body 80877103 refl

abbrev two_cells : List Datum
two_cells = null_datum ∷ record { is_null = false; text = codes "a\tb" } ∷ []

decode-encode_row_example : decode_row (encode_row two_cells) 3 ≡ ok (two_cells ++ nulls 1)
decode-encode_row_example = decode-encode_row two_cells 1 (
  record { fits = omega arith; null_empty = λ e. refl },
  (record { fits = omega arith; null_empty = λ e. cc }, tt),
)

two_cells-IsCopyRow : IsCopyRow two_cells
two_cells-IsCopyRow = record {
  columns = λ e. cc;
  not_blank = λ d e h. absurd (cc);
  data_normal = (record { null_empty = λ e. refl }, (record { null_empty = λ e. cc }, tt));
}

parse-format_copy_text_example :
    parse_copy_text (format_copy_text (two_cells ∷ []) []) [] ≡ two_cells ∷ []
parse-format_copy_text_example = parse-format_copy_text (two_cells ∷ []) (two_cells-IsCopyRow, tt)

abbrev no_vals : SeqVals
no_vals name = none

seq_next_val-init_example :
    (seq_next_val
      (next_all (seq_init no_vals (codes "s") (pos 5)) (codes "s" ∷ codes "t" ∷ codes "s" ∷ []))
      (codes "s")).1
    ≡ pos (5 + calls_of (codes "s") (codes "s" ∷ codes "t" ∷ codes "s" ∷ []))
unfolding calls_of eqb
seq_next_val-init_example =
    seq_next_val-init no_vals (codes "s") (codes "s" ∷ codes "t" ∷ codes "s" ∷ []) 5 refl
      (omega arith) (omega arith)

abbrev Lengths : Bytes → Bytes → Type 0
Lengths a b = length a ≤ length b

-- 1 < t.n AND (n <= $1)
abbrev wide : Where
wide = conjunction (
    also
      (comparison (record {
        is_op = true;
        op = codes "<";
        lexpr = a_const false (codes "1");
        rexpr = column_ref (codes "t" ∷ codes "n" ∷ []);
      }))
      (also
        (conjunction (
          also
            (comparison (record {
              is_op = true;
              op = codes "<=";
              lexpr = column_ref (codes "n" ∷ []);
              rexpr = param_ref 1;
            }))
            end))
        end))

-- A row of one column.
abbrev row_n : Bytes → Bytes
row_n name = if eqb name (codes "n") then codes "55" else []

abbrev bound_params : List Datum
bound_params = record { is_null = false; text = codes "1234" } ∷ []

extract_col_bounds-Within_example :
    Within Lengths row_n
      (record { col = codes "n"; lo = some (codes "1"); hi = some (codes "1234") })
unfolding extract_col_bounds eqb Meets side_text column_text op_kind matches_rel resolve_const_text
    as_col_ref is_const_node bound_from_comparison read_sides join_bounds bounds_of_op flip_op
extract_col_bounds-Within_example =
    extract_col_bounds-Within Lengths row_n eqb (codes "t") (codes "t") bound_params
      (λ a b e. ap row_n ((eqb_iff a b).0 e)) wide
      (record { col = codes "n"; lo = some (codes "1"); hi = some (codes "1234") }) refl
      (omega arith, ((omega arith, tt), tt))

window-exact_example :
    (below
        (lo_key (codes "i/") (some (codes "b")))
        ((codes "i/" ++ codes "b") ++ (b'/' ∷ codes "pk"))
      ≡ below (some (codes "b")) (codes "b"))
    × (above (hi_key (codes "i/") none) ((codes "i/" ++ codes "b") ++ (b'/' ∷ codes "pk"))
        ≡ above none (codes "b"))
window-exact_example =
    window-exact (codes "i/") (codes "b") (codes "pk") (some (codes "b")) none (λ r s e. refl) tt

abbrev sess : Session
sess = record {
  auth = session;
  conn_id = 1;
  params = λ k. none;
  override_branch = [];
  settings = none;
}

-- A transaction that has indexed a row under the value "b".
abbrev indexed : Txn
indexed = txn_of (record { key = codes "abp"; value = codes "p"; delete = false } ∷ [])

scan_index_range-select_example :
    scan_index_range memory solo engine indexed sess
      (codes "t")
      1
      (codes "a")
      (lo_key (codes "a") (some (codes "b")))
      none
      false
      none
    ≡ fetch_all (fetch_row memory solo engine indexed sess (codes "t") 1) (
        select
          (in_window (lo_key (codes "a") (some (codes "b"))) none)
          (scan memory solo engine indexed (codes "a")))
unfolding begin
scan_index_range-select_example =
    scan_index_range-select memory memory_laws solo engine indexed sess (codes "t") (codes "a") 1
      (some (codes "b")) none refl

abbrev same_text : Bytes → Bytes
same_text s = s

lex_all-total_example :
    (toks : List Token) × (lex_all same_text same_text 20
        (new_lexer (codes "SELECT a -- x"))
        (record { str = []; ival = zero_int })
      ≡ some toks)
    × (length toks ≤ length (new_lexer (codes "SELECT a -- x")).rest)
unfolding new_lexer
lex_all-total_example =
    lex_all-total same_text same_text 20 (new_lexer (codes "SELECT a -- x"))
      (record { str = []; ival = zero_int }) (omega arith)
