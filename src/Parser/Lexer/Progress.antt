-- ===== src/Parser/Lexer/Progress.antt =====
-- Every token takes characters.
use basuyudb.Base.{
  ◌⊎◌, sym, All, subst, ◌≡◌, refl, ap, inl, inr, ℕ, zero, suc, ◌+◌, ◌≤◌, ◌<◌, true, ◌&&◌, List, [],
  ◌∷◌, Bytes, Option, none, some, length, length-drop, has_prefix, ◌==◌, arith, Bool-cases,
  Option-cases,
}
use basuyudb.Parser.Keywords.{keyword_in, keywords, Token}
use basuyudb.Parser.Scanner.{
  Lexer, Lval, Scanned, is_digit, is_ident_start, is_ident_part, skip_space_and_comments, span,
}
use basuyudb.Parser.Scanner.Lengths.{
  Takes, span-le, span-lt, skip_space-le, list_cases, start-part, scan_string-Takes,
  scan_quoted_ident-Takes, scan_param-Takes, scan_number-Takes,
}
use basuyudb.Parser.Lexer.{
  multi, first_multi, single, is_k_deferrable, is_k_not, single_operator, scan_operator_or_punct,
  peek_word, peek_is_deferrable, scan_ident_or_keyword, lex_at, lex,
}

peek_word-le :
    (to_upper to_lower : Bytes → Bytes) (save l l' : Lexer) (s : Bytes)
    → peek_word to_upper to_lower save l s ≡ some l'
    → length l'.rest ≤ length s
unfolding peek_word
peek_word-le to_upper to_lower save l l' [] h = cc
peek_word-le to_upper to_lower save l l' (c ∷ s) h =
    elim (Bool-cases (
      is_ident_start c
      && is_k_deferrable to_upper to_lower
          (keyword_in keywords (to_upper (span is_ident_part (c ∷ s)).0)))) [
            | inl e ↦
                let k : some (record l {
                  pos = l.pos + length (span is_ident_part (c ∷ s)).0;
                  rest = (span is_ident_part (c ∷ s)).1;
                })
                    ≡ some l' =
                  rw (peek_word, e) at h in
                let r : (span is_ident_part (c ∷ s)).1 ≡ l'.rest = cc in
                omega (arith, ap length r, span-le is_ident_part (c ∷ s))
            | inr e ↦ absurd (let k = rw (peek_word, e) at h in cc)
          ]

first_multi-le :
    (ops : List (Bytes × Token)) (rest s : Bytes) (tok : Token)
    → All (λ o. 0 < length o.0) ops
    → first_multi ops rest ≡ some (s, tok)
    → (0 < length s) × (has_prefix rest s ≡ true)
unfolding first_multi
first_multi-le [] rest s tok a h = cc
first_multi-le ((t, k) ∷ ops) rest s tok (p, a) h = elim (Bool-cases (has_prefix rest t)) [
  | inl e ↦
      let g : some (t, k) ≡ some (s, tok) = rw (first_multi, e) at h in
      let same : t ≡ s = cc in
      (subst (λ x. 0 < length x) same p, subst (λ x. has_prefix rest x ≡ true) same e)
  | inr e ↦ first_multi-le ops rest s tok a (rw (first_multi, e) at h)
]

multi_nonempty : All (λ o. 0 < length o.0) multi
unfolding multi
multi_nonempty = omega arith

module _ (l : Lexer) (v : Lval) (c : ℕ) (s : Bytes) (here : l.rest ≡ c ∷ s) where
  scan_operator-Takes : Takes (length l.rest) (scan_operator_or_punct l v)
  unfolding scan_operator_or_punct single_operator
  scan_operator-Takes = elim (Option-cases (first_multi multi l.rest)) [
    | inl e ↦ rw (scan_operator_or_punct, e, here) single_Takes
    | inr ((t, tok), e) ↦
        let (p, q) = first_multi-le multi l.rest t tok multi_nonempty e in
        let n : length l.rest ≡ suc (length s) = ap length here in
        rw (scan_operator_or_punct, e) (omega (arith, length-drop {0} (length t) l.rest))
  ]
    where
      single_Takes : Takes (length (c ∷ s)) (single_operator l v (c ∷ s))
      single_Takes = elim (Option-cases (single c)) [
        | inl e ↦ rw (single_operator, e) tt
        | inr ((tok, shown), e) ↦ rw (single_operator, e) (omega arith)
      ]

  module _ (to_upper to_lower : Bytes → Bytes) where
    peeked-le :
        (l1 l2 : Lexer)
        → peek_is_deferrable to_upper to_lower l1 ≡ some l2
        → length l2.rest ≤ length l1.rest
    unfolding peek_is_deferrable
    peeked-le l1 l2 h =
        let l3 = skip_space_and_comments l1 in
        omega (arith, peek_word-le to_upper to_lower l3 l3 l2 l3.rest h, skip_space-le l1)

    scan_ident-Takes :
        is_ident_start c ≡ true
        → Takes (length l.rest) (scan_ident_or_keyword to_upper to_lower l v)
    unfolding scan_ident_or_keyword
    scan_ident-Takes h =
        let shorter = span-lt is_ident_part c s (start-part c h) in
        let fits : length (span is_ident_part l.rest).1 < length l.rest = rw here shorter in
        elim (Option-cases (keyword_in keywords (to_upper (span is_ident_part l.rest).0))) [
          | inl e ↦ rw (scan_ident_or_keyword, e) fits
          | inr (tok, e) ↦ elim (Bool-cases (is_k_not to_upper to_lower tok)) [
            | inr f ↦ rw (scan_ident_or_keyword, e, f) fits
            | inl f ↦
                elim (Option-cases (
                  peek_is_deferrable to_upper to_lower (record l {
                    pos = l.pos + length (span is_ident_part l.rest).0;
                    rest = (span is_ident_part l.rest).1;
                  }))) [
                    | inl g ↦ rw (scan_ident_or_keyword, e, f, g) fits
                    | inr (l2, g) ↦
                        rw (scan_ident_or_keyword, e, f, g)
                          (omega (
                            arith,
                            fits,
                            peeked-le
                                (record l {
                                  pos = l.pos + length (span is_ident_part l.rest).0;
                                  rest = (span is_ident_part l.rest).1;
                                })
                                l2 g,
                          ))
                  ]
          ]
        ]

    lex_at-Takes : Takes (length l.rest) (lex_at to_upper to_lower l v (c ∷ s))
    unfolding lex_at
    lex_at-Takes = elim (Bool-cases (c == b'\'')) [
      | inl e ↦ rw e (scan_string-Takes l v c s here)
      | inr e1 ↦ elim (Bool-cases (c == b'"')) [
        | inl e ↦ rw (e1, e) (scan_quoted_ident-Takes l v c s here)
        | inr e2 ↦ elim (Bool-cases (c == b'$')) [
          | inl e ↦ rw (e1, e2, e) (scan_param-Takes l v c s here)
          | inr e3 ↦ elim (Bool-cases (is_digit c)) [
            | inl e ↦ rw (e1, e2, e3, e) ((scan_number-Takes l v c s here) e)
            | inr e4 ↦ elim (Bool-cases (is_ident_start c)) [
              | inl e ↦ rw (e1, e2, e3, e4, e) (scan_ident-Takes e)
              | inr e5 ↦ rw (e1, e2, e3, e4, e5) scan_operator-Takes
            ]
          ]
        ]
      ]
    ]

module _ (to_upper to_lower : Bytes → Bytes) where
  lex-Takes : (l : Lexer) (v : Lval) → Takes (length l.rest) (lex to_upper to_lower l v)
  unfolding lex lex_at
  lex-Takes l v = go (lex_at to_upper to_lower l' v) (skip_space-le l) (list_cases l'.rest)
    where
      l' : Lexer
      l' = skip_space_and_comments l

      more : (n m : ℕ) (o : Scanned) → n ≤ m → Takes n o → Takes m o
      more n m (l, v, none) h t = tt
      more n m (l, v, some tok) h t = omega arith

      go :
          (f : Bytes → Scanned)
          → length l'.rest ≤ length l.rest
          → (l'.rest ≡ []) ⊎ ((x : ℕ) × (ys : Bytes) × (l'.rest ≡ x ∷ ys))
          → Takes (length l.rest) (lex_at to_upper to_lower l' v l'.rest)
      go f h (inl e) = rw e tt
      go f h (inr (c, s, e)) =
          subst (λ r. Takes (length l.rest) (lex_at to_upper to_lower l' v r)) (sym e)
            (more (length l'.rest) (length l.rest) (lex_at to_upper to_lower l' v (c ∷ s)) h
              (lex_at-Takes l' v c s e to_upper to_lower))

  next_token : (Lexer → Lval → Option (List Token)) → Scanned → Option (List Token)
  next_token more (l, v, none) = some []
  next_token more (l, v, some tok) = elim (more l v) [ none ↦ none | some toks ↦ some (tok ∷ toks) ]

  -- A caller that asks for tokens until there is none, on fuel; `none` means that the fuel ran out.
  unfoldable pub lex_all : ℕ → Lexer → Lval → Option (List Token)
  unfolding next_token
  lex_all zero l v = none
  lex_all (suc fuel) l v = next_token (lex_all fuel) (lex to_upper to_lower l v)

  -- A caller that calls Lex until it returns no token comes to an end, on any text and in any state of the scanner, with as much fuel
  -- as the text that is left has characters and one more; it gets at most one token for each of these characters.
  pub lex_all-total :
      (fuel : ℕ) (l : Lexer) (v : Lval)
      → length l.rest < fuel
      → (toks : List Token) × (lex_all fuel l v ≡ some toks) × (length toks ≤ length l.rest)
  unfolding lex_all next_token
  lex_all-total zero l v h = absurd (omega arith)
  lex_all-total (suc fuel) l v h =
      go (lex to_upper to_lower l v) (lex-Takes l v) (λ l' v' g. lex_all-total fuel l' v' g)
    where
      go :
          (o : Scanned)
          → Takes (length l.rest) o
          → ((l' : Lexer) (v' : Lval)
              → length l'.rest < fuel
              → (toks : List Token) × (lex_all fuel l' v' ≡ some toks)
                × (length toks ≤ length l'.rest))
          → (toks : List Token) × (next_token (lex_all fuel) o ≡ some toks)
            × (length toks ≤ length l.rest)
      go (l', v', none) t rec = ([], refl, omega arith)
      go (l', v', some tok) t rec =
          let (toks, e, n) = rec l' v' (omega arith) in
          let joined : next_token (lex_all fuel) (l', v', some tok) ≡ some (tok ∷ toks) =
            rw (next_token, e) refl in
          (tok ∷ toks, joined, omega arith)
