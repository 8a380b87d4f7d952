-- ===== src/Executor/RowCodec.antt =====
-- engine/internal/executor/encode.go: a row's cells as the bytes of a stored value.
pub mod RoundTrip
use basuyudb.Base.{
  ℕ, zero, suc, ◌+◌, ◌%◌, ◌^◌, Bool, true, false, List, [], ◌∷◌, ◌++◌, Bytes, Result, ok, err,
  ◌>>=◌, corrupt_row, tombstone_row, truncated_cell_header, truncated_cell_value, put_uint32,
  get_uint32, length, take, drop, ltb, ◌==◌, if◌then◌else◌,
}
use basuyudb.Executor.SetOps.{Datum}

abbrev pub row_tag_live : ℕ
row_tag_live = 0x01

abbrev pub row_tag_tombstone : ℕ
row_tag_tombstone = 0x00

abbrev pub null_datum : Datum
null_datum = record { is_null = true; text = [] }

-- One turn of the loop of encodeRow.
unfoldable pub encode_cell : Datum → Bytes
encode_cell c =
    if c.is_null then 1 ∷ put_uint32 0 else 0 ∷ put_uint32 (length c.text % 2 ^ 32) ++ c.text

unfoldable pub encode_cells : List Datum → Bytes
encode_cells [] = []
encode_cells (c ∷ cells) = encode_cell c ++ encode_cells cells

-- encodeRow
unfoldable pub encode_row : List Datum → Bytes
encode_row cells = row_tag_live ∷ encode_cells cells

-- The value behind a cell's header.
unfoldable pub cell_value : Bool → ℕ → Bytes → Result (Datum × Bytes)
cell_value is_null l rest =
    if ltb (length rest) l
    then err truncated_cell_value
    else ok (
      if is_null then null_datum else record { is_null = false; text = take l rest },
      drop l rest,
    )

-- One turn of the loop of decodeRow: a cell that the stored tuple does not have reads as NULL.
unfoldable pub decode_cell : Bytes → Result (Datum × Bytes)
decode_cell [] = ok (null_datum, [])
decode_cell (flag ∷ b) =
    if ltb (length b) 4
    then err truncated_cell_header
    else cell_value (flag == 1) (get_uint32 b) (drop 4 b)

unfoldable pub decode_cells : ℕ → Bytes → Result (List Datum)
decode_cells zero b = ok []
decode_cells (suc n) b = decode_cell b >>= λ p. decode_cells n p.1 >>= λ cells. ok (p.0 ∷ cells)

-- decodeRow
unfoldable pub decode_row : Bytes → ℕ → Result (List Datum)
decode_row [] n = err corrupt_row
decode_row (tag ∷ b) n = if tag == row_tag_tombstone then err tombstone_row else decode_cells n b
