-- ===== src/Parser/Scanner/Lengths.antt =====
-- What each part of the scanner takes of the text.
use basuyudb.Base.{
  ◌⊎◌, ◌≡◌, refl, inl, inr, ℕ, suc, ◌+◌, ◌≤◌, ◌<◌, Bool, true, false, ◌&&◌, [], ◌∷◌, Bytes, none,
  some, length, ◌==◌, arith, Bool-cases,
}
use basuyudb.Parser.Keywords.{Token}
use basuyudb.Parser.Scanner.{
  Lexer, Lval, Scanned, LexError, Mode, is_blank, skip, skip_space_and_comments, quoted, cons_text,
  Quotation, end_quotation, scan_string, scan_quoted_ident, span, scan_param, number, scan_number,
  is_ident_start, is_ident_part, is_digit,
}

-- A result with a token has less left than there was.
abbrev pub Takes : ℕ → Scanned → Type 0
Takes n (l, v, none) = Unit {0}
Takes n (l, v, some tok) = length l.rest < n

pub span-le : (p : ℕ → Bool) (s : Bytes) → length (span p s).1 ≤ length s
unfolding span
span-le p [] = omega arith
span-le p (c ∷ s) = ground (arith, span-le p s)

pub span-lt :
    (p : ℕ → Bool) (c : ℕ) (s : Bytes) → p c ≡ true → length (span p (c ∷ s)).1 < length (c ∷ s)
unfolding span
span-lt p c s h = rw h (ground (arith, span-le p s))

number-le : (f : Bool) (s : Bytes) → length (number f s).2 ≤ length s
unfolding number
number-le f [] = omega arith
number-le f (c ∷ s) = ground (arith, number-le f s, number-le true s)

number-lt :
    (f : Bool) (c : ℕ) (s : Bytes)
    → is_digit c ≡ true
    → length (number f (c ∷ s)).2 < length (c ∷ s)
unfolding number
number-lt f c s h = rw (number, h) (ground (arith, number-le f s))

abbrev Ends : ℕ → Quotation → Type 0
Ends n (text, p, none) = Unit {0}
Ends n (text, p, some left) = length left < n

cons-Ends : (c m n : ℕ) (q : Quotation) → m ≤ n → Ends m q → Ends n (cons_text c q)
unfolding cons_text
cons-Ends c m n (text, p, none) h e = tt
cons-Ends c m n (text, p, some left) h e = omega arith

quoted-Ends : (q pos : ℕ) (s : Bytes) → Ends (suc (length s)) (quoted q pos s)
unfolding quoted
quoted-Ends q pos [] = tt
quoted-Ends q pos (c ∷ []) = elim (Bool-cases (c == q)) [
  | inl e ↦ rw (quoted, e) (omega arith)
  | inr e ↦ rw (quoted, e) tt
]
quoted-Ends q pos (c ∷ d ∷ s) = elim (Bool-cases (c == q)) [
  | inr e ↦
      rw (quoted, e)
        (cons-Ends c (suc (length (d ∷ s))) (suc (length (c ∷ d ∷ s))) (quoted q (pos + 1) (d ∷ s))
          (omega arith) (quoted-Ends q (pos + 1) (d ∷ s)))
  | inl e ↦ elim (Bool-cases (d == q)) [
    | inl f ↦
        rw (quoted, e, f)
          (cons-Ends q (suc (length s)) (suc (length (c ∷ d ∷ s))) (quoted q (pos + 2) s)
            (omega arith) (quoted-Ends q (pos + 2) s))
    | inr f ↦ rw (quoted, e, f) (omega arith)
  ]
]

end_quotation-Takes :
    (l : Lexer) (v : Lval) (msg : LexError) (tok : Token) (n : ℕ) (q : Quotation)
    → Ends n q
    → Takes n (end_quotation l v msg tok q)
unfolding end_quotation
end_quotation-Takes l v msg tok n (text, p, none) e = tt
end_quotation-Takes l v msg tok n (text, p, some left) e = e

skip-le : (m : Mode) (pos : ℕ) (s : Bytes) → length (skip m pos s).1 ≤ length s
unfolding skip
skip-le Mode.code pos [] = omega arith
skip-le Mode.code pos (c ∷ []) = ground arith
skip-le Mode.code pos (c ∷ d ∷ s) = elim (Bool-cases (is_blank c)) [
  | inl e ↦ rw (skip, e) (omega (arith, skip-le Mode.code (pos + 1) (d ∷ s)))
  | inr e ↦ elim (Bool-cases (c == b'-' && d == b'-')) [
    | inl f ↦ rw (skip, e, f) (omega (arith, skip-le Mode.line_comment (pos + 1) (d ∷ s)))
    | inr f ↦ elim (Bool-cases (c == b'/' && d == b'*')) [
      | inl g ↦ rw (skip, e, f, g) (omega (arith, skip-le Mode.block_comment (pos + 2) s))
      | inr g ↦ rw (skip, e, f, g) (omega arith)
    ]
  ]
]
skip-le Mode.line_comment pos [] = omega arith
skip-le Mode.line_comment pos (c ∷ s) =
    ground (arith, skip-le Mode.code (pos + 1) s, skip-le Mode.line_comment (pos + 1) s)
skip-le Mode.block_comment pos [] = omega arith
skip-le Mode.block_comment pos (c ∷ []) = omega arith
skip-le Mode.block_comment pos (c ∷ d ∷ s) =
    ground (arith, skip-le Mode.code (pos + 2) s, skip-le Mode.block_comment (pos + 1) (d ∷ s))

pub skip_space-le : (l : Lexer) → length (skip_space_and_comments l).rest ≤ length l.rest
unfolding skip_space_and_comments
skip_space-le l = skip-le Mode.code l.pos l.rest

pub list_cases : (xs : Bytes) → (xs ≡ []) ⊎ ((x : ℕ) × (ys : Bytes) × (xs ≡ x ∷ ys))
list_cases [] = inl refl
list_cases (x ∷ ys) = inr (x, ys, refl)

pub start-part : (c : ℕ) → is_ident_start c ≡ true → is_ident_part c ≡ true
unfolding is_ident_start is_ident_part
start-part c h = ground arith

module _ (l : Lexer) (v : Lval) (c : ℕ) (s : Bytes) (here : l.rest ≡ c ∷ s) where
  pub scan_string-Takes : Takes (length l.rest) (scan_string l v)
  unfolding scan_string
  scan_string-Takes = rw here (
      end_quotation-Takes l v _ _ (suc (length s)) (quoted b'\'' (l.pos + 1) s)
        (quoted-Ends b'\'' (l.pos + 1) s))

  pub scan_quoted_ident-Takes : Takes (length l.rest) (scan_quoted_ident l v)
  unfolding scan_quoted_ident
  scan_quoted_ident-Takes = rw here (
      end_quotation-Takes l v _ _ (suc (length s)) (quoted b'"' (l.pos + 1) s)
        (quoted-Ends b'"' (l.pos + 1) s))

  pub scan_param-Takes : Takes (length l.rest) (scan_param l v)
  unfolding scan_param
  scan_param-Takes = rw here (elim (list_cases (span is_digit s).0) [
    | inl e ↦ rw (scan_param, e) tt
    | inr (d, ds, e) ↦ rw (scan_param, e) (omega (arith, span-le is_digit s))
  ])

  pub scan_number-Takes : is_digit c ≡ true → Takes (length l.rest) (scan_number l v)
  unfolding scan_number
  scan_number-Takes h = rw here (number-lt false c s h)
