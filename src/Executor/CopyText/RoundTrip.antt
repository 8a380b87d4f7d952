-- ===== src/Executor/CopyText/RoundTrip.antt =====
-- Rows that COPY has written as text are read back.
use basuyudb.Base.{
  ◌≡◌, ◌≢◌, refl, sym, ap, ap₂, ◌∙◌, inl, inr, ℕ, true, false, List, [], ◌∷◌, ◌++◌, append_assoc,
  append-nil, Bytes, eqb, has_prefix, ◌==◌, arith, All, All-append, All-weaken, map, Bool-cases,
}
use basuyudb.Executor.SetOps.{Datum}
use basuyudb.Executor.CopyText.{
  tab, newline, escape_byte, escape_copy_text, unescape_copy_text, null_field, end_of_data,
  format_field, format_more, format_row, format_rows, format_copy_text, split_from, split,
  parse_field, parse_fields, parse_lines, parse_copy_text,
}

unescape-byte :
    (c : ℕ) (r : Bytes) → unescape_copy_text (escape_byte c ++ r) ≡ c ∷ unescape_copy_text r
unfolding escape_byte unescape_copy_text
unescape-byte c [] = ground arith
unescape-byte c (d ∷ r) = ground arith

-- A text that was escaped is unescaped to itself.
pub unescape-escape_copy_text : (s : Bytes) → unescape_copy_text (escape_copy_text s) ≡ s
unfolding escape_copy_text unescape_copy_text
unescape-escape_copy_text [] = refl
unescape-escape_copy_text (c ∷ s) =
    unescape-byte c (escape_copy_text s) ∙ ap (λ r. c ∷ r) (unescape-escape_copy_text s)

-- A byte that stands for itself in a line, between delimiters.
abbrev IsPlain : ℕ → Type 0
IsPlain c = (c ≢ tab) × (c ≢ newline)

escape_byte-IsPlain : (c : ℕ) → All IsPlain (escape_byte c)
unfolding escape_byte
escape_byte-IsPlain c = ground arith

escape-IsPlain : (s : Bytes) → All IsPlain (escape_copy_text s)
unfolding escape_copy_text
escape-IsPlain [] = tt
escape-IsPlain (c ∷ s) =
    All-append IsPlain (escape_byte c) (escape_copy_text s) (escape_byte-IsPlain c)
      (escape-IsPlain s)

field-IsPlain : (d : Datum) → All IsPlain (format_field d)
unfolding format_field
field-IsPlain d = elim (Bool-cases d.is_null) [
  | inl e ↦
      rw e ((λ h. ground arith, λ h. ground arith), ((λ h. ground arith, λ h. ground arith), tt))
  | inr e ↦ rw e (escape-IsPlain d.text)
]

-- Text that is not NULL is not written as NULL.
field_ne_null : (s : Bytes) → eqb (escape_copy_text s) null_field ≡ false
unfolding eqb escape_copy_text escape_byte
field_ne_null [] = refl
field_ne_null (c ∷ s) = ground arith

field_ne_end : (s : Bytes) → eqb (escape_copy_text s) end_of_data ≡ false
unfolding eqb escape_copy_text escape_byte
field_ne_end [] = refl
field_ne_end (c ∷ s) = ground arith

-- A datum as the executor makes them: NULL has no text.
pub record IsDatum (d : Datum) : Type 0 where
  pub null_empty : d.is_null ≡ true → d.text ≡ []

parse-format_field : (d : Datum) → IsDatum d → parse_field (format_field d) ≡ d
unfolding parse_field format_field eqb
parse-format_field d v = elim (Bool-cases d.is_null) [
  | inl e ↦ let n = v.null_empty e in rw (format_field, e) (ground arith)
  | inr e ↦
      rw (format_field, e, parse_field, field_ne_null d.text, unescape-escape_copy_text d.text)
        (ground arith)
]

-- Splitting at one byte, past bytes that are not it.
split_from-plain :
    (sep : ℕ) (piece xs rest : Bytes)
    → All (λ c. c ≢ sep) xs
    → split_from (sep ∷ []) 0 piece (xs ++ (sep ∷ rest)) ≡ (piece ++ xs) ∷ split (rest) (sep ∷ [])
unfolding split_from split has_prefix
split_from-plain sep piece [] rest a =
    let e : (sep == sep) ≡ true = ground arith in
    rw (split_from, has_prefix, e, append-nil piece) refl
split_from-plain sep piece (c ∷ xs) rest (n, a) =
    let e : (c == sep) ≡ false = ground arith in
    rw (split_from, has_prefix, e)
      (split_from-plain sep (piece ++ (c ∷ [])) xs rest a
        ∙ ap (λ p. p ∷ split rest (sep ∷ [])) (append_assoc piece (c ∷ []) xs))

split_from-last :
    (sep : ℕ) (piece xs : Bytes)
    → All (λ c. c ≢ sep) xs
    → split_from (sep ∷ []) 0 piece xs ≡ (piece ++ xs) ∷ []
unfolding split_from has_prefix
split_from-last sep piece [] a = rw (append-nil piece) refl
split_from-last sep piece (c ∷ xs) (n, a) =
    let e : (c == sep) ≡ false = ground arith in
    rw (split_from, has_prefix, e)
      (split_from-last sep (piece ++ (c ∷ [])) xs a
        ∙ ap (λ p. p ∷ []) (append_assoc piece (c ∷ []) xs))

-- A row's line, without its end.
more_line : List Datum → Bytes
more_line [] = []
more_line (d ∷ row) = tab ∷ (format_field d ++ more_line row)

line_of : Datum → List Datum → Bytes
unfolding more_line
line_of d row = format_field d ++ more_line row

format_more-line : (row : List Datum) → format_more (tab ∷ []) row ≡ more_line row ++ (newline ∷ [])
unfolding format_more more_line
format_more-line [] = refl
format_more-line (d ∷ row) =
    ap (λ l. tab ∷ l)
      (ap (λ l. format_field d ++ l) (format_more-line row)
        ∙ sym (append_assoc (format_field d) (more_line row) (newline ∷ [])))

more_line-no_newline : (row : List Datum) → All (λ c. c ≢ newline) (more_line row)
unfolding more_line
more_line-no_newline [] = tt
more_line-no_newline (d ∷ row) = (
  λ h. ground arith,
  All-append (λ c. c ≢ newline) (format_field d) (more_line row)
      (All-weaken (format_field d) (λ c p. p.1) (field-IsPlain d)) (more_line-no_newline row),
)

split-line :
    (d : Datum) (row : List Datum) → split (line_of d row) (tab ∷ []) ≡ map format_field (d ∷ row)
unfolding split line_of more_line
split-line d [] = rw (append-nil (format_field d)) (
    split_from-last tab [] (format_field d)
      (All-weaken (format_field d) (λ c p. p.0) (field-IsPlain d)))
split-line d (d2 ∷ row) =
    split_from-plain tab [] (format_field d) (format_field d2 ++ more_line row)
      (All-weaken (format_field d) (λ c p. p.0) (field-IsPlain d))
    ∙ ap (λ l. format_field d ∷ l) (split-line d2 row)

parse-fields : (row : List Datum) → All IsDatum row → parse_fields (map format_field row) ≡ row
unfolding parse_fields
parse-fields [] a = refl
parse-fields (d ∷ row) (v, a) = ap₂ (λ x l. x ∷ l) (parse-format_field d v) (parse-fields row a)

-- A row that COPY can carry as a line: it has a column, and it is not a single empty text.
pub record IsCopyRow (row : List Datum) : Type 0 where
  pub columns : row ≢ []
  pub not_blank : (d : Datum) → row ≡ d ∷ [] → d.text ≡ [] → d.is_null ≡ true
  pub data_normal : All IsDatum row

tab_ne_end :
    (xs ys : Bytes)
    → (eqb (xs ++ (tab ∷ ys)) [] ≡ false) × (eqb (xs ++ (tab ∷ ys)) end_of_data ≡ false)
unfolding eqb
tab_ne_end [] ys = (refl, refl)
tab_ne_end (a ∷ []) ys = (refl, ground arith)
tab_ne_end (a ∷ b ∷ []) ys = (refl, ground arith)
tab_ne_end (a ∷ b ∷ c ∷ xs) ys = (refl, ground arith)

escape_ne_blank : (s : Bytes) → s ≢ [] → eqb (escape_copy_text s) [] ≡ false
unfolding eqb escape_copy_text escape_byte
escape_ne_blank [] h = absurd (h refl)
escape_ne_blank (c ∷ s) h = ground arith

single_field :
    (d : Datum)
    → (d.text ≡ [] → d.is_null ≡ true)
    → (eqb (format_field d) [] ≡ false) × (eqb (format_field d) end_of_data ≡ false)
unfolding format_field eqb
single_field d h = elim (Bool-cases d.is_null) [
  | inl e ↦ rw (format_field, e) (refl, refl)
  | inr e ↦ rw (format_field, e) (escape_ne_blank d.text (λ k. cc (h k)), field_ne_end d.text)
]

line_kept :
    (d : Datum) (row : List Datum)
    → IsCopyRow (d ∷ row)
    → (eqb (line_of d row) [] ≡ false) × (eqb (line_of d row) end_of_data ≡ false)
unfolding line_of more_line
line_kept d [] v = rw (append-nil (format_field d)) (single_field d (v.not_blank d refl))
line_kept d (d2 ∷ row) v = tab_ne_end (format_field d) (format_field d2 ++ more_line row)

parse_line :
    (d : Datum) (row : List Datum) (lines : List Bytes)
    → IsCopyRow (d ∷ row)
    → parse_lines (tab ∷ []) (line_of d row ∷ lines) ≡ (d ∷ row) ∷ parse_lines (tab ∷ []) lines
unfolding parse_lines
parse_line d row lines v =
    let (a, b) = line_kept d row v in
    rw (a, b, split-line d row)
      (ap (λ r. r ∷ parse_lines (tab ∷ []) lines) (parse-fields (d ∷ row) v.data_normal))

split-format_row :
    (d : Datum) (row : List Datum) (rest : Bytes)
    → split (format_row (tab ∷ []) (d ∷ row) ++ rest) (newline ∷ [])
      ≡ line_of d row ∷ split rest (newline ∷ [])
unfolding split format_row line_of
split-format_row d row rest =
    let e : (format_field d ++ format_more (tab ∷ []) row) ++ rest
        ≡ line_of d row ++ (newline ∷ rest) =
      ap (λ l. (format_field d ++ l) ++ rest) (format_more-line row)
      ∙ ap (λ l. l ++ rest) (sym (append_assoc (format_field d) (more_line row) (newline ∷ [])))
      ∙ append_assoc (line_of d row) (newline ∷ []) rest in
    rw e (
      split_from-plain newline [] (line_of d row) rest (
        All-append (λ c. c ≢ newline) (format_field d) (more_line row)
          (All-weaken (format_field d) (λ c p. p.1) (field-IsPlain d)) (more_line-no_newline row)))

parse-format_rows :
    (rows : List (List Datum))
    → All IsCopyRow rows
    → parse_lines (tab ∷ []) (split (format_rows (tab ∷ []) rows) (newline ∷ [])) ≡ rows
unfolding format_rows parse_lines split split_from eqb
parse-format_rows [] a = refl
parse-format_rows ([] ∷ rows) (v, a) = absurd (v.columns refl)
parse-format_rows ((d ∷ row) ∷ rows) (v, a) =
    rw (split-format_row d row (format_rows (tab ∷ []) rows))
      (parse_line d row (split (format_rows (tab ∷ []) rows) (newline ∷ [])) v)
    ∙ ap (λ r. (d ∷ row) ∷ r) (parse-format_rows rows a)

-- Rows that are written in COPY's text format with the default delimiter are read back as they were, NULL and every text
-- included, where each row has a column, is not a single empty text, and has no text under its NULLs.
pub parse-format_copy_text :
    (rows : List (List Datum))
    → All IsCopyRow rows
    → parse_copy_text (format_copy_text rows []) [] ≡ rows
unfolding parse_copy_text format_copy_text eqb
parse-format_copy_text rows a = parse-format_rows rows a
