-- ===== src/Branch/Prefix/Roots.antt =====
-- What the cut prefixes are.
use basuyudb.Base.{
  ℕ, suc, ◌+◌, ◌-◌, ◌^◌, ◌<◌, ◌≡◌, refl, ap, ◌∙◌, [], ◌∷◌, ◌++◌, Bytes, codes, none, some, ok, eqb,
  if◌then◌else◌, length, take, drop, put_uint64, get_uint64-put, ltb-false, length-append,
  length-put_uint64, arith,
}
use basuyudb.Branch.Prefix.{
  Meta, encode_meta, decode_meta, last_index_from, last_index, data_marker, data_root,
}

drop-put_uint64 : (n : ℕ) (r : Bytes) → drop 8 (put_uint64 n ++ r) ≡ r
unfolding put_uint64
drop-put_uint64 n r = refl

-- The metadata that is read back is that which was written, where its time is a uint64.
pub decode-encode_meta : (m : Meta) → m.created_at_hlc < 2 ^ 64 → decode_meta (encode_meta m) ≡ ok m
unfolding decode_meta encode_meta
decode-encode_meta m h = rw (
  ltb-false (length (put_uint64 m.created_at_hlc ++ m.parent)) 8 (
      omega (
        arith,
        length-append (put_uint64 m.created_at_hlc) m.parent,
        length-put_uint64 m.created_at_hlc,
      )),
  get_uint64-put m.created_at_hlc m.parent h,
  drop-put_uint64 m.created_at_hlc m.parent,
)

zero_add : (j : ℕ) → 0 + j ≡ j
zero_add j = omega arith

suc_plus : (n j : ℕ) → suc n + j ≡ suc (n + j)
suc_plus n j = omega arith

drop_past : (p d : Bytes) (j : ℕ) → drop (length p + j) (p ++ d) ≡ drop j d
drop_past [] d j = ap (λ n. drop n d) (zero_add j)
drop_past (x ∷ p) d j = ap (λ n. drop n (x ∷ p ++ d)) (suc_plus (length p) j) ∙ drop_past p d j

take_past : (p d : Bytes) (j : ℕ) → take (length p + j) (p ++ d) ≡ p ++ take j d
take_past [] d j = ap (λ n. take n d) (zero_add j)
take_past (x ∷ p) d j =
    ap (λ n. take n (x ∷ p ++ d)) (suc_plus (length p) j) ∙ ap (λ l. x ∷ l) (take_past p d j)

abbrev pub tail_x : Bytes
tail_x = codes "/data/x/"

marker_at :
    (p : Bytes) (i j : ℕ)
    → i ≡ length p + j
    → eqb (take 6 (drop i (p ++ tail_x))) data_marker ≡ eqb (take 6 (drop j tail_x)) data_marker
marker_at p i j e = rw (e, drop_past p tail_x j)

last_index_step :
    (i : ℕ) (b sub : Bytes)
    → last_index_from (suc i) b sub
      ≡ (if eqb (take (length sub) (drop i b)) sub then some i else last_index_from i b sub)
unfolding last_index_from
last_index_step i b sub = refl

-- The marker of a row prefix of table x is found right behind the front.
last_marker : (p : Bytes) → last_index (p ++ tail_x) data_marker ≡ some (length p)
unfolding last_index eqb
last_marker p =
    let e : length (p ++ tail_x) + 1 - 6 ≡ suc (suc (suc (length p))) =
      omega (arith, length-append p tail_x) in
    rw (
      e,
      last_index_step,
      marker_at p (suc (suc (length p))) 2 (omega arith),
      last_index_step,
      marker_at p (suc (length p)) 1 (omega arith),
      last_index_step,
      marker_at p (length p) 0 (omega arith),
    )

pub cut_subtree :
    (p : Bytes)
    → (elim (last_index (p ++ tail_x) data_marker) [
      | some idx ↦ take (idx + 1) (p ++ tail_x)
      | none ↦ p ++ tail_x
    ])
      ≡ p ++ codes "/"
cut_subtree p = rw (last_marker p) (take_past p tail_x 1)

pub cut_root : (p : Bytes) → data_root (p ++ tail_x) ≡ p ++ codes "/data/"
unfolding data_root
cut_root p = rw (data_root, last_marker p) (take_past p tail_x 6)
