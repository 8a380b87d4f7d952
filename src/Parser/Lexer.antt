-- ===== src/Parser/Lexer.antt =====
-- engine/internal/parser/lexer.go: `Lex`, its operators, identifiers and keywords.
-- `strings.ToUpper` and `strings.ToLower` are given by functions. A returned token 0 is `none`.
pub mod Progress
use basuyudb.Base.{
  ℕ, ◌+◌, ◌-◌, ◌*◌, Bool, true, false, List, [], ◌∷◌, ◌++◌, Bytes, codes, Option, none, some, leb,
  ltb, ◌==◌, ◌&&◌, ◌||◌, if◌then◌else◌, length, drop, has_prefix,
}
use basuyudb.Parser.Keywords.{
  Token, keywords, keyword_in, k_not, k_deferrable, not_deferrable, ident, sconst, iconst, fconst,
  param, json_op, vector_op, compare_op, contain_op, typecast, star, add_op, mul_op, pow_op, punct,
}
use basuyudb.Parser.Scanner.{
  LexError, Lexer, Lval, new_lexer, Scanned, is_digit, is_ident_start, is_ident_part, lex_error,
  Mode, skip_space_and_comments, Quotation, cons_text, quoted, scan_string, scan_quoted_ident, span,
  scan_param, scan_number, unterminated_string, unterminated_ident, invalid_parameter,
  unexpected_character,
}

-- The operators of more than one character, in the order in which they are tried.
multi : List (Bytes × Token)
multi =
    (codes "->>", json_op)
    ∷ (codes "#>>", json_op)
    ∷ (codes "#>", json_op)
    ∷ (codes "->", json_op)
    ∷ (codes "<=>", vector_op)
    ∷ (codes "<->", vector_op)
    ∷ (codes "<#>", vector_op)
    ∷ (codes "<=", compare_op)
    ∷ (codes ">=", compare_op)
    ∷ (codes "<>", compare_op)
    ∷ (codes "!=", compare_op)
    ∷ (codes "&&", contain_op)
    ∷ (codes "::", typecast)
    ∷ []

first_multi : List (Bytes × Token) → Bytes → Option (Bytes × Token)
first_multi [] rest = none
first_multi ((s, tok) ∷ ops) rest =
    let later = first_multi ops rest in if has_prefix rest s then some (s, tok) else later

-- The switch over single characters: the token, and whether the character is put into `lval.str`.
single : ℕ → Option (Token × Bool)
single c =
    if c == b'(' || c == b')' || c == b'[' || c == b']' || c == b',' || c == b'.' || c == b';'
    then some (punct c, false)
    else if c == b'*'
    then some (star, true)
    else if c == b'=' || c == b'<' || c == b'>'
    then some (compare_op, true)
    else if c == b'+' || c == b'-'
    then some (add_op, true)
    else if c == b'/' || c == b'%'
    then some (mul_op, true)
    else if c == b'^'
    then some (pow_op, true)
    else none

is_typecast : Token → Bool
is_typecast typecast = true
is_typecast _ = false

single_operator : Lexer → Lval → Bytes → Scanned
unfolding single
single_operator l v [] = (l, v, none)
single_operator l v (c ∷ s) =
    let l' = record l { pos = l.pos + 1; rest = s } in
    elim (single c) [
      | none ↦ (lex_error l' (unexpected_character c), v, none)
      | some (tok, shown) ↦ (l', if shown then record v { str = c ∷ [] } else v, some tok)
    ]

unfoldable pub scan_operator_or_punct : Lexer → Lval → Scanned
unfolding multi first_multi is_typecast single_operator
scan_operator_or_punct l v = elim (first_multi multi l.rest) [
  | some (s, tok) ↦ (
    record l { pos = l.pos + length s; rest = drop (length s) l.rest },
    if is_typecast tok then v else record v { str = s },
    some tok,
  )
  | none ↦ single_operator l v l.rest
]

module _ (to_upper to_lower : Bytes → Bytes) where
  is_k_deferrable : Option Token → Bool
  is_k_deferrable (some k_deferrable) = true
  is_k_deferrable _ = false

  is_k_not : Token → Bool
  is_k_not k_not = true
  is_k_not _ = false

  peek_word : Lexer → Lexer → Bytes → Option Lexer
  unfolding is_k_deferrable
  peek_word save l [] = none
  peek_word save l (c ∷ s) =
      let (word, left) = span is_ident_part (c ∷ s) in
      if is_ident_start c && is_k_deferrable (keyword_in keywords (to_upper word))
      then some (record l { pos = l.pos + length word; rest = left })
      else none

  -- peekIsDeferrable: the state behind the keyword, or `none` where the state is left as it was.
  unfoldable pub peek_is_deferrable : Lexer → Option Lexer
  unfolding peek_word
  peek_is_deferrable l = let l' = skip_space_and_comments l in peek_word l l' l'.rest

  unfoldable pub scan_ident_or_keyword : Lexer → Lval → Scanned
  unfolding is_k_not
  scan_ident_or_keyword l v =
      let (word, left) = span is_ident_part l.rest in
      let l' = record l { pos = l.pos + length word; rest = left } in
      elim (keyword_in keywords (to_upper word)) [
        | none ↦ (l', record v { str = to_lower word }, some ident)
        | some tok ↦
            let plain : Scanned = (l', record v { str = to_upper word }, some tok) in
            elim (is_k_not tok) [
              | false ↦ plain
              | true ↦ elim (peek_is_deferrable l') [
                | some l'' ↦ (l'', v, some not_deferrable)
                | none ↦ plain
              ]
            ]
      ]

  lex_at : Lexer → Lval → Bytes → Scanned
  lex_at l v [] = (l, v, none)
  lex_at l v (c ∷ s) =
      if c == b'\''
      then scan_string l v
      else if c == b'"'
      then scan_quoted_ident l v
      else if c == b'$'
      then scan_param l v
      else if is_digit c
      then scan_number l v
      else if is_ident_start c
      then scan_ident_or_keyword l v
      else scan_operator_or_punct l v

  -- Lex
  unfoldable pub lex : Lexer → Lval → Scanned
  unfolding lex_at
  lex l v = let l' = skip_space_and_comments l in lex_at l' v l'.rest
