-- ===== src/Parser/Scanner.antt =====
-- engine/internal/parser/lexer.go: the scanner's state, and the functions that take blanks, comments, quotations, parameters
-- and numbers.
-- The state is the text that is left from `pos` on, and the fields of the source's struct; `result`, which the grammar
-- sets, is left out. A returned token 0 is `none`.
pub mod Quoting
pub mod Lengths
use basuyudb.Base.Int.{ℤ, zero_int, to_uint64, of_uint64, compare_ℤ}
use basuyudb.Base.{
  Ordering, ◌%◌, ◌^◌, ℕ, ◌+◌, ◌-◌, ◌*◌, Bool, true, false, List, [], ◌∷◌, ◌++◌, Bytes, codes,
  Option, none, some, leb, ltb, ◌==◌, ◌&&◌, ◌||◌, if◌then◌else◌, length, drop, has_prefix,
}
use basuyudb.Parser.Keywords.{
  Token, keywords, keyword_in, k_not, k_deferrable, not_deferrable, ident, sconst, iconst, fconst,
  param, json_op, vector_op, compare_op, contain_op, typecast, star, add_op, mul_op, pow_op, punct,
}

-- The messages of the scanner's errors.
pub data LexError : Type 0 where
  unterminated_string unterminated_ident invalid_parameter : LexError
  unexpected_character : ℕ → LexError

-- lexer; `error` is the first error: its message and position.
pub record Lexer : Type 0 where
  pub rest : Bytes
  pub pos : ℕ
  pub max_param : ℤ
  pub error : Option (LexError × ℕ)

-- The parts of yySymType that the scanner fills.
pub record Lval : Type 0 where
  pub str : Bytes
  pub ival : ℤ

-- newLexer
unfoldable pub new_lexer : Bytes → Lexer
new_lexer src = record { rest = src; pos = 0; max_param = zero_int; error = none }

abbrev pub Scanned : Type 0
Scanned = Lexer × Lval × Option Token

unfoldable pub is_digit : ℕ → Bool
is_digit c = leb b'0' c && leb c b'9'

-- unicode.IsLetter of a byte, that is of a code point below 256
is_letter : ℕ → Bool
is_letter c =
    (leb b'A' c && leb c b'Z')
    || (leb b'a' c && leb c b'z')
    || c == 0xAA
    || c == 0xB5
    || c == 0xBA
    || (leb 0xC0 c && leb c 0xD6)
    || (leb 0xD8 c && leb c 0xF6)
    || (leb 0xF8 c && leb c 0xFF)

unfoldable pub is_ident_start : ℕ → Bool
unfolding is_letter
is_ident_start c = c == b'_' || is_letter c

unfoldable pub is_ident_part : ℕ → Bool
unfolding is_letter is_digit
is_ident_part c = c == b'_' || c == b'$' || is_letter c || is_digit c

-- Error: the first error stays.
unfoldable pub lex_error : Lexer → LexError → Lexer
lex_error l msg = elim l.error [ none ↦ record l { error = some (msg, l.pos) } | some _ ↦ l ]

-- Where the loop of skipSpaceAndComments stands.
pub data Mode : Type 0 where
  code line_comment block_comment : Mode

is_blank : ℕ → Bool
is_blank c = c == 0x20 || c == 0x09 || c == 0x0A || c == 0x0D

-- The loop of skipSpaceAndComments with its two inner loops. An unterminated block comment leaves the
-- position behind the end of the text.
skip : Mode → ℕ → Bytes → ℕ × Bytes
unfolding is_blank
skip code pos [] = (pos, [])
skip code pos (c ∷ []) = elim (is_blank c) [ true ↦ (pos + 1, []) | false ↦ (pos, c ∷ []) ]
skip code pos (c ∷ d ∷ s) = elim (is_blank c) [
  | true ↦ skip code (pos + 1) (d ∷ s)
  | false ↦ elim (c == b'-' && d == b'-') [
    | true ↦ skip line_comment (pos + 1) (d ∷ s)
    | false ↦ elim (c == b'/' && d == b'*') [
      | true ↦ skip block_comment (pos + 2) s
      | false ↦ (pos, c ∷ d ∷ s)
    ]
  ]
]
skip line_comment pos [] = (pos, [])
skip line_comment pos (c ∷ s) = elim (c == 0x0A) [
  | true ↦ skip code (pos + 1) s
  | false ↦ skip line_comment (pos + 1) s
]
skip block_comment pos [] = (pos + 2, [])
skip block_comment pos (c ∷ []) = (pos + 2, [])
skip block_comment pos (c ∷ d ∷ s) = elim (c == b'*' && d == b'/') [
  | true ↦ skip code (pos + 2) s
  | false ↦ skip block_comment (pos + 1) (d ∷ s)
]

-- skipSpaceAndComments
unfoldable pub skip_space_and_comments : Lexer → Lexer
unfolding skip
skip_space_and_comments l = let (p, r) = skip code l.pos l.rest in record l { pos = p; rest = r }

-- A scanned quotation: its text, where it ends, and what is left; `none` is left of one with no end.
abbrev pub Quotation : Type 0
Quotation = Bytes × ℕ × Option Bytes

unfoldable pub cons_text : ℕ → Quotation → Quotation
cons_text c (text, p, left) = (c ∷ text, p, left)

-- The loop of scanString and of scanQuotedIdent, which differ in the quote: a doubled one stands for one.
unfoldable pub quoted : ℕ → ℕ → Bytes → Quotation
unfolding cons_text
quoted q pos [] = ([], pos, none)
quoted q pos (c ∷ []) = elim (c == q) [
  | true ↦ ([], pos + 1, some [])
  | false ↦ (c ∷ [], pos + 1, none)
]
quoted q pos (c ∷ d ∷ s) = elim (c == q) [
  | true ↦ elim (d == q) [
    | true ↦ cons_text q (quoted q (pos + 2) s)
    | false ↦ ([], pos + 1, some (d ∷ s))
  ]
  | false ↦ cons_text c (quoted q (pos + 1) (d ∷ s))
]

end_quotation : Lexer → Lval → LexError → Token → Quotation → Scanned
end_quotation l v msg tok (text, p, none) =
    (lex_error (record l { pos = p; rest = [] }) msg, v, none)
end_quotation l v msg tok (text, p, some left) =
    (record l { pos = p; rest = left }, record v { str = text }, some tok)

unfoldable pub scan_string : Lexer → Lval → Scanned
unfolding end_quotation
scan_string l v =
    end_quotation l v unterminated_string sconst (quoted b'\'' (l.pos + 1) (drop 1 l.rest))

unfoldable pub scan_quoted_ident : Lexer → Lval → Scanned
unfolding end_quotation
scan_quoted_ident l v =
    end_quotation l v unterminated_ident ident (quoted b'"' (l.pos + 1) (drop 1 l.rest))

-- The characters that a loop over a class of them takes, and what is left.
unfoldable pub span : (ℕ → Bool) → Bytes → Bytes × Bytes
span p [] = ([], [])
span p (c ∷ s) = let (taken, left) = span p s in if p c then (c ∷ taken, left) else ([], c ∷ s)

-- In Go's int, of 64 bits, which wraps.
value_of : ℤ → Bytes → ℤ
value_of n [] = n
value_of n (c ∷ s) = value_of (of_uint64 ((to_uint64 n * 10 + (c - b'0')) % 2 ^ 64)) s

is_less : Ordering → Bool
is_less Ordering.lt = true
is_less Ordering.eq = false
is_less Ordering.gt = false

-- scanParam
unfoldable pub scan_param : Lexer → Lval → Scanned
unfolding value_of is_less
scan_param l v =
    let (digits, left) = span is_digit (drop 1 l.rest) in
    let l' = record l { pos = l.pos + 1 + length digits; rest = left } in
    let n = value_of zero_int digits in
    elim digits [
      | [] ↦ (lex_error l' invalid_parameter, v, none)
      | _ ∷ _ ↦ (
        record l' { max_param = if is_less (compare_ℤ l.max_param n) then n else l.max_param },
        record v { ival = n },
        some param,
      )
    ]

-- The loop of scanNumber: digits, and one point among them; whether the point was met.
number : Bool → Bytes → Bytes × Bool × Bytes
number is_float [] = ([], is_float, [])
number is_float (c ∷ s) = elim (is_digit c) [
  | true ↦ let (taken, f, left) = number is_float s in (c ∷ taken, f, left)
  | false ↦ elim (c == b'.') [
    | true ↦ elim is_float [
      | false ↦ let (taken, f, left) = number true s in (c ∷ taken, f, left)
      | true ↦ ([], true, c ∷ s)
    ]
    | false ↦ ([], is_float, c ∷ s)
  ]
]

unfoldable pub scan_number : Lexer → Lval → Scanned
unfolding number
scan_number l v =
    let (text, is_float, left) = number false l.rest in
    (
      record l { pos = l.pos + length text; rest = left },
      record v { str = text },
      some (if is_float then fconst else iconst),
    )
