-- ===== src/Executor/CopyText.antt =====
-- engine/internal/executor/copy.go: the text format of COPY.
-- `strings.Split` and the replacers are written out as the standard library documents them.
pub mod RoundTrip
use basuyudb.Base.{
  ℕ, zero, suc, ◌-◌, Bool, true, false, List, [], ◌∷◌, ◌++◌, Bytes, codes, eqb, has_prefix, length,
  ◌==◌, if◌then◌else◌,
}
use basuyudb.Executor.SetOps.{Datum}
use basuyudb.Executor.RowCodec.{null_datum}

abbrev pub backslash : ℕ
backslash = 0x5C

abbrev pub tab : ℕ
tab = 0x09

abbrev pub newline : ℕ
newline = 0x0A

abbrev pub carriage_return : ℕ
carriage_return = 0x0D

escape_byte : ℕ → Bytes
escape_byte c =
    if c == backslash
    then backslash ∷ backslash ∷ []
    else if c == tab
    then backslash ∷ b't' ∷ []
    else if c == newline
    then backslash ∷ b'n' ∷ []
    else if c == carriage_return
    then backslash ∷ b'r' ∷ []
    else c ∷ []

-- escapeCopyText
unfoldable pub escape_copy_text : Bytes → Bytes
unfolding escape_byte
escape_copy_text [] = []
escape_copy_text (c ∷ s) = escape_byte c ++ escape_copy_text s

-- unescapeCopyText: at each place the pairs are tried in turn; what fits none of them is kept.
unfoldable pub unescape_copy_text : Bytes → Bytes
unescape_copy_text [] = []
unescape_copy_text (c ∷ []) = c ∷ []
unescape_copy_text (c ∷ d ∷ s) =
    let behind = unescape_copy_text s in
    let kept = c ∷ unescape_copy_text (d ∷ s) in
    if c == backslash
    then (if d == b't'
        then tab ∷ behind
        else if d == b'n'
        then newline ∷ behind
        else if d == b'r'
        then carriage_return ∷ behind
        else if d == backslash
        then backslash ∷ behind
        else kept)
    else kept

abbrev pub null_field : Bytes
null_field = backslash ∷ b'N' ∷ []

abbrev pub end_of_data : Bytes
end_of_data = backslash ∷ b'.' ∷ []

abbrev pub delimiter_or_tab : Bytes → Bytes
delimiter_or_tab delimiter = if eqb delimiter [] then tab ∷ [] else delimiter

unfoldable pub format_field : Datum → Bytes
unfolding escape_copy_text
format_field d = if d.is_null then null_field else escape_copy_text d.text

-- The loop of formatCopyText over the cells behind a row's first.
unfoldable pub format_more : Bytes → List Datum → Bytes
unfolding format_field
format_more delim [] = newline ∷ []
format_more delim (d ∷ row) = delim ++ (format_field d ++ format_more delim row)

unfoldable pub format_row : Bytes → List Datum → Bytes
unfolding format_more format_field
format_row delim [] = newline ∷ []
format_row delim (d ∷ row) = format_field d ++ format_more delim row

unfoldable pub format_rows : Bytes → List (List Datum) → Bytes
unfolding format_row
format_rows delim [] = []
format_rows delim (row ∷ rows) = format_row delim row ++ format_rows delim rows

-- formatCopyText
unfoldable pub format_copy_text : List (List Datum) → Bytes → Bytes
unfolding format_rows
format_copy_text rows delimiter = format_rows (delimiter_or_tab delimiter) rows

-- strings.Split at a separator that is not empty, with what is left of a separator that was met, and the piece so far.
unfoldable pub split_from : Bytes → ℕ → Bytes → Bytes → List Bytes
split_from sep skip piece [] = piece ∷ []
split_from sep (suc k) piece (c ∷ s) = split_from sep k piece s
split_from sep zero piece (c ∷ s) = elim (has_prefix (c ∷ s) sep) [
  | true ↦ piece ∷ split_from sep (length sep - 1) [] s
  | false ↦ split_from sep zero (piece ++ c ∷ []) s
]

unfoldable pub split : Bytes → Bytes → List Bytes
unfolding split_from
split s sep = split_from sep 0 [] s

unfoldable pub parse_field : Bytes → Datum
unfolding unescape_copy_text
parse_field f =
    if eqb f null_field then null_datum else record { is_null = false; text = unescape_copy_text f }

unfoldable pub parse_fields : List Bytes → List Datum
unfolding parse_field
parse_fields [] = []
parse_fields (f ∷ fields) = parse_field f ∷ parse_fields fields

-- The loop of parseCopyText over the lines.
unfoldable pub parse_lines : Bytes → List Bytes → List (List Datum)
unfolding parse_fields split
parse_lines delim [] = []
parse_lines delim (line ∷ lines) =
    let rest = parse_lines delim lines in
    if eqb line []
    then rest
    else if eqb line end_of_data
    then []
    else parse_fields (split line delim) ∷ rest

-- parseCopyText
unfoldable pub parse_copy_text : Bytes → Bytes → List (List Datum)
unfolding parse_lines split
parse_copy_text stream delimiter =
    parse_lines (delimiter_or_tab delimiter) (split stream (newline ∷ []))
