-- ===== src/Wire/Protocol/Framing.antt =====
-- Messages are read back as they were written, and a reader takes no more than a message.
use basuyudb.Base.{
  ◌≡◌, ◌≢◌, refl, sym, ap, ◌∙◌, inl, inr, ℕ, ◌+◌, ◌-◌, ◌%◌, ◌^◌, ◌≤◌, ◌<◌, false, [], ◌∷◌, ◌++◌,
  append_assoc, append-nil, ◌==◌, ◌||◌, length-drop, length-take, eof, unexpected_eof, Bytes,
  Result, ok, err, put_uint32, get_uint32, get_uint32-put, length, length-append, take, drop,
  take-length, drop-length, ltb, ltb-false, arith, All, Bool-cases, Result-cases,
}
use basuyudb.Storage.Backup.{read_full}
use basuyudb.Wire.Protocol.{
  read_typed, read_body, read_startup, send, build_str, until_nul, c_string,
}

read_full-append : (xs ys : Bytes) → read_full (length xs) (xs ++ ys) ≡ ok (xs, ys)
unfolding read_full
read_full-append xs ys =
    rw
      (
        ltb-false (length (xs ++ ys)) (length xs) (omega (arith, length-append xs ys)),
        take-length xs ys,
        drop-length xs ys,
      )
      refl

read_full_header : (n : ℕ) (r : Bytes) → read_full 4 (put_uint32 n ++ r) ≡ ok (put_uint32 n, r)
unfolding put_uint32
read_full_header n r = read_full-append (put_uint32 n) r

drop_before : (before xs ys : Bytes) → drop (length before) ((before ++ xs) ++ ys) ≡ xs ++ ys
drop_before before xs ys = rw (append_assoc before xs ys) (drop-length before (xs ++ ys))

drop_short : (before xs ys : Bytes) → drop (length before) (before ++ xs) ++ ys ≡ xs ++ ys
drop_short before xs ys = rw (drop-length before xs) refl

body_length :
    (body : Bytes)
    → length body + 4 < 2 ^ 32
    → (r : Bytes) → get_uint32 (put_uint32 ((length body + 4) % 2 ^ 32) ++ r) ≡ length body + 4
body_length body h r = get_uint32-put ((length body + 4) % 2 ^ 32) r (omega arith) ∙ omega arith

read_body-put :
    (typ : ℕ) (body rest : Bytes)
    → length body + 4 < 2 ^ 32
    → read_body typ (put_uint32 ((length body + 4) % 2 ^ 32) ++ (body ++ rest))
      ≡ ok ((typ, body), rest)
unfolding read_body
read_body-put typ body rest h =
    let n = body_length body h [] in
    let header = put_uint32 ((length body + 4) % 2 ^ 32) in
    let got : get_uint32 header ≡ length body + 4 = ap get_uint32 (sym (append-nil header)) ∙ n in
    let small : ltb (length body + 4) 4 ≡ false = ground arith in
    let cut : length body + 4 - 4 ≡ length body = omega arith in
    rw
      (
        read_full_header ((length body + 4) % 2 ^ 32) (body ++ rest),
        got,
        small,
        cut,
        read_full-append body rest,
      )
      refl

-- A message that was sent, with a body of less than 2^32 - 4 bytes, is read back as it was sent, and the reader stands
-- behind it, whatever was written before it and whatever follows.
pub read_typed-send :
    (typ : ℕ) (body before rest : Bytes)
    → length body + 4 < 2 ^ 32
    → read_typed (drop (length before) (send typ body before) ++ rest) ≡ ok ((typ, body), rest)
unfolding read_typed send
read_typed-send typ body before rest h =
    rw
      (
        drop-length before (typ ∷ put_uint32 ((length body + 4) % 2 ^ 32) ++ body),
        append_assoc (put_uint32 ((length body + 4) % 2 ^ 32)) body rest,
      )
      (read_body-put typ body rest h)

read_full-length :
    (n : ℕ) (r a b : Bytes) → read_full n r ≡ ok (a, b) → (length a ≡ n) × (length r ≡ n + length b)
unfolding read_full
read_full-length n r a b h = elim (Bool-cases (ltb (length r) n)) [
  | inl e ↦ absurd (let k = rw (read_full, e) at h in none_short r k)
  | inr e ↦
      let k : ok (take n r, drop n r) ≡ ok (a, b) = rw (read_full, e) at h in
      let le : n ≤ length r = ground arith in
      let x : take n r ≡ a = cc in
      let y : drop n r ≡ b = cc in
      (ap length (sym x) ∙ length-take n r le, omega (arith, length-drop n r, ap length y))
]
  where
    none_short :
        (r : Bytes)
        → (elim r as (λ x. Result (Bytes × Bytes)) [ [] ↦ err eof | _ ∷ _ ↦ err unexpected_eof ])
          ≡ ok (a, b)
        → ⊥
    none_short [] k = cc
    none_short (x ∷ r) k = cc

-- A message takes exactly five bytes and its body from the reader.
pub read_typed-length :
    (r rest body : Bytes) (typ : ℕ)
    → read_typed r ≡ ok ((typ, body), rest)
    → length r ≡ 5 + length body + length rest
unfolding read_typed read_body
read_typed-length [] rest body typ h = cc
read_typed-length (t ∷ r) rest body typ h = elim (Result-cases (read_full 4 r)) [
  | inr (x, o) ↦ absurd (let k = rw (read_typed, read_body, o) at h in cc)
  | inl ((lp, r1), o) ↦ elim (Bool-cases (ltb (get_uint32 lp) 4)) [
    | inl e ↦ absurd (let k = rw (read_typed, read_body, o, e) at h in cc)
    | inr e ↦ elim (Result-cases (read_full (get_uint32 lp - 4) r1)) [
      | inr (x, p) ↦ absurd (let k = rw (read_typed, read_body, o, e, p) at h in cc)
      | inl ((b, r2), p) ↦
          let k : ok ((t, b), r2) ≡ ok ((typ, body), rest) =
            rw (read_typed, read_body, o, e, p) at h in
          let x : b ≡ body = cc in
          let y : r2 ≡ rest = cc in
          let (l1, l2) = read_full-length 4 r lp r1 o in
          let (l3, l4) = read_full-length (get_uint32 lp - 4) r1 b r2 p in
          omega (arith, ap length x, ap length y)
    ]
  ]
]

-- readStartup accepts only packets of 8 to 2^20 bytes: the body that it returns has 4 to 2^20 - 4 bytes, and it and the
-- length are what was taken from the reader.
pub read_startup-bounds :
    (r rest body : Bytes) (code : ℕ)
    → read_startup r ≡ ok ((code, body), rest)
    → (4 ≤ length body) × (length body + 4 ≤ 2 ^ 20) × (length r ≡ 4 + length body + length rest)
unfolding read_startup
read_startup-bounds r rest body code h = elim (Result-cases (read_full 4 r)) [
  | inr (x, o) ↦ absurd (let k = rw (read_startup, o) at h in cc)
  | inl ((lp, r1), o) ↦ elim (Bool-cases (ltb (get_uint32 lp) 8 || ltb (2 ^ 20) (get_uint32 lp))) [
    | inl e ↦ absurd (let k = rw (read_startup, o, e) at h in cc)
    | inr e ↦ elim (Result-cases (read_full (get_uint32 lp - 4) r1)) [
      | inr (x, p) ↦ absurd (let k = rw (read_startup, o, e, p) at h in cc)
      | inl ((b, r2), p) ↦
          let k : ok ((get_uint32 (take 4 b), b), r2) ≡ ok ((code, body), rest) =
            rw (read_startup, o, e, p) at h in
          let x : b ≡ body = cc in
          let y : r2 ≡ rest = cc in
          let (l1, l2) = read_full-length 4 r lp r1 o in
          let (l3, l4) = read_full-length (get_uint32 lp - 4) r1 b r2 p in
          let lo : 8 ≤ get_uint32 lp = ground arith in
          let hi : get_uint32 lp ≤ 2 ^ 20 = ground arith in
          (
            omega (arith, ap length x),
            omega (arith, ap length x),
            omega (arith, ap length x, ap length y),
          )
    ]
  ]
]

abbrev pub NoNul : Bytes → Type 0
NoNul = All (λ c. c ≢ 0)

until_nul-append : (s rest : Bytes) → NoNul s → until_nul (s ++ (0 ∷ rest)) ≡ s
unfolding until_nul
until_nul-append [] rest h = refl
until_nul-append (c ∷ s) rest (a, b) =
    let e : (c == 0) ≡ false = ground arith in rw (e, until_nul-append s rest b) refl

-- A string with no NUL in it that a body was built with is read back by cString from where it begins, and the position
-- is then behind its NUL, where the next one begins.
pub c_string-build_str :
    (b s rest : Bytes)
    → NoNul s
    → c_string (build_str b s ++ rest) (length b) ≡ (s, length (build_str b s))
unfolding c_string build_str
c_string-build_str b s rest h =
    let e : ((b ++ s) ++ (0 ∷ [])) ++ rest ≡ b ++ (s ++ (0 ∷ rest)) =
      append_assoc (b ++ s) (0 ∷ []) rest ∙ append_assoc b s (0 ∷ rest) in
    let l : length b + length s + 1 ≡ length ((b ++ s) ++ (0 ∷ [])) =
      omega (arith, length-append {0} (b ++ s) (0 ∷ []), length-append {0} b s) in
    rw (e, drop-length b (s ++ (0 ∷ rest)), until_nul-append s rest h, l) refl
