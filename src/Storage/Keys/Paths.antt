-- ===== src/Storage/Keys/Paths.antt =====
-- Keys as lists of path segments: the shape that the proofs about the key families go by.
use mathlib.Core.Path.{ap₂}
use basuyudb.Base.{◌≡◌, refl, ap, ◌∙◌, List, [], ◌∷◌, ◌++◌, Bytes, NoSlash, append_assoc}

-- /s1/s2/…/rest
abbrev pub path : List Bytes → Bytes → Bytes
path [] rest = b'/' ∷ rest
path (s ∷ ss) rest = b'/' ∷ s ++ path ss rest

-- Two texts that meet a separator after a segment with none in it: the segments are the same.
split_at_slash :
    (s t : Bytes) {x y : Bytes}
    → NoSlash s
    → NoSlash t
    → s ++ (b'/' ∷ x) ≡ t ++ (b'/' ∷ y)
    → (s ≡ t) × (x ≡ y)
split_at_slash [] [] hs ht e = (refl, cc)
split_at_slash [] (d ∷ t) hs ht e = absurd (ht.0 (cc))
split_at_slash (c ∷ s) [] hs ht e = absurd (hs.0 (cc))
split_at_slash (c ∷ s) (d ∷ t) hs ht e =
    let same : c ≡ d = cc e in
    let (p, q) = split_at_slash s t hs.1 ht.1 (cc e) in (ap₂ (λ a l. a ∷ l) same p, q)

pub path_starts : (ss : List Bytes) (rest : Bytes) → (x : Bytes) × (path ss rest ≡ b'/' ∷ x)
path_starts [] rest = (rest, refl)
path_starts (s ∷ ss) rest = (s ++ path ss rest, refl)

-- The first segments agree, and so do the rests.
pub path_split :
    (s t : Bytes) (ss ts : List Bytes) (x y : Bytes)
    → NoSlash s
    → NoSlash t
    → path (s ∷ ss) x ≡ path (t ∷ ts) y
    → (s ≡ t) × (path ss x ≡ path ts y)
path_split s t ss ts x y hs ht e =
    let (x', p) = path_starts ss x in
    let (y', q) = path_starts ts y in
    let e' : s ++ (b'/' ∷ x') ≡ t ++ (b'/' ∷ y') = rw (← p, ← q) (cc) in
    let (h, k) = split_at_slash s t hs ht e' in (h, cc)

pub path-append : (ss : List Bytes) (x r : Bytes) → path ss x ++ r ≡ path ss (x ++ r)
path-append [] x r = refl
path-append (s ∷ ss) x r =
    ap (λ (l : Bytes). b'/' ∷ l)
      (append_assoc s (path ss x) r ∙ ap (λ l. s ++ l) (path-append ss x r))
