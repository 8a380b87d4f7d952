-- ===== src/Parser/Scanner/Quoting.antt =====
-- What the scanner reads of a quotation.
use basuyudb.Base.{
  ℕ, ◌+◌, ◌≡◌, ap, inl, inr, false, Bool-cases, [], ◌∷◌, ◌++◌, Bytes, some, ◌==◌, if◌then◌else◌,
  length, arith,
}
use basuyudb.Parser.Scanner.{quoted, cons_text}

-- The text with each quote doubled.
abbrev pub doubled : ℕ → Bytes → Bytes
doubled q [] = []
doubled q (c ∷ s) = if c == q then q ∷ q ∷ doubled q s else c ∷ doubled q s

abbrev pub Otherwise : ℕ → Bytes → Type 0
Otherwise q [] = Unit
Otherwise q (c ∷ s) = (c == q) ≡ false

step_pair : (q pos : ℕ) (s : Bytes) → quoted q pos (q ∷ q ∷ s) ≡ cons_text q (quoted q (pos + 2) s)
unfolding quoted
step_pair q pos s = ground arith

step_other :
    (q pos c : ℕ) (s : Bytes)
    → (c == q) ≡ false
    → quoted q pos (c ∷ s) ≡ cons_text c (quoted q (pos + 1) s)
unfolding quoted cons_text
step_other q pos c [] e = ground arith
step_other q pos c (d ∷ s) e = ground arith

-- A text whose quotes are doubled, with a closing quote that no further quote follows, is scanned as that text, and what
-- follows is left.
pub quoted-doubled :
    (q pos : ℕ) (text after : Bytes)
    → Otherwise q after
    → quoted q pos (doubled q text ++ (q ∷ after))
      ≡ (text, pos + length (doubled q text) + 1, some after)
unfolding quoted
quoted-doubled q pos [] [] h = ground arith
quoted-doubled q pos [] (d ∷ s) h = ground arith
quoted-doubled q pos (c ∷ text) after h = elim (Bool-cases (c == q)) [
  | inl e ↦
      let same : c ≡ q = ground arith in
      rw (e, same, step_pair, quoted-doubled q (pos + 2) text after h, cons_text)
        (ap (λ n. (q ∷ text, n, some after)) (omega arith))
  | inr e ↦
      rw
        (
          e,
          step_other q pos c (doubled q text ++ (q ∷ after)) e,
          quoted-doubled q (pos + 1) text after h,
          cons_text,
        )
        (ap (λ n. (c ∷ text, n, some after)) (omega arith))
]
