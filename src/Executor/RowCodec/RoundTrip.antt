-- ===== src/Executor/RowCodec/RoundTrip.antt =====
-- What is decoded from an encoded row.
use basuyudb.Base.{
  ℕ, zero, suc, ◌+◌, ◌%◌, ◌^◌, ◌<◌, ◌≡◌, refl, sym, ap, ◌∙◌, true, false, Bool-cases, inl, inr,
  List, [], ◌∷◌, ◌++◌, append_assoc, Bytes, ok, err, tombstone_row, put_uint32, get_uint32-put,
  length, length-append, length-put_uint32, drop, take-length, drop-length, ltb-false, ◌==◌, All,
  arith,
}
use basuyudb.Executor.SetOps.{Datum}
use basuyudb.Branch.Manager.{is_tombstone, tombstone}
use basuyudb.Executor.RowCodec.{
  null_datum, encode_cell, encode_cells, encode_row, cell_value, decode_cell, decode_cells,
  decode_row,
}

-- The length of the text is a uint32, and NULL has no text.
pub record IsCell (d : Datum) : Type 0 where
  pub fits : length d.text < 2 ^ 32
  pub null_empty : d.is_null ≡ true → d.text ≡ []

abbrev pub nulls : ℕ → List Datum
nulls zero = []
nulls (suc k) = null_datum ∷ nulls k

small_mod : (n : ℕ) → n < 2 ^ 32 → n % 2 ^ 32 ≡ n
small_mod n h = omega arith

drop-put_uint32 : (n : ℕ) (r : Bytes) → drop 4 (put_uint32 n ++ r) ≡ r
unfolding put_uint32
drop-put_uint32 n r = refl

header :
    (flag n : ℕ) (r : Bytes)
    → n < 2 ^ 32
    → decode_cell (flag ∷ put_uint32 n ++ r) ≡ cell_value (flag == 1) n r
unfolding decode_cell
header flag n r h =
    rw
      (
        ltb-false (length (put_uint32 n ++ r)) 4
            (omega (arith, length-append (put_uint32 n) r, length-put_uint32 n)),
        get_uint32-put n r h,
        drop-put_uint32 n r,
      )
      refl

null_cell : (r : Bytes) → cell_value true 0 r ≡ ok (null_datum, r)
unfolding cell_value
null_cell r = rw (ltb-false (length r) 0 (omega arith)) refl

decode_cell-encode_cell :
    (d : Datum) (r : Bytes) → IsCell d → decode_cell (encode_cell d ++ r) ≡ ok (d, r)
unfolding encode_cell cell_value
decode_cell-encode_cell d r c = elim (Bool-cases d.is_null) [
  | inl e ↦
      rw (e, header 1 0 r (omega arith))
        (rw (null_cell r)
          (ap (λ t. ok (record { is_null = true; text = t }, r)) (sym (c.null_empty e))))
  | inr e ↦
      rw
        (
          e,
          small_mod (length d.text) c.fits,
          append_assoc (put_uint32 (length d.text)) d.text r,
          header 0 (length d.text) (d.text ++ r) c.fits,
          ltb-false (length (d.text ++ r)) (length d.text) (omega (arith, length-append d.text r)),
          take-length d.text r,
          drop-length d.text r,
        )
        refl
]

decode_cells_missing : (k : ℕ) → decode_cells k [] ≡ ok (nulls k)
unfolding decode_cells decode_cell
decode_cells_missing zero = refl
decode_cells_missing (suc k) = rw (decode_cells_missing k)

decode_cells-encode_cells :
    (cells : List Datum) (k n : ℕ)
    → All IsCell cells
    → n ≡ length cells + k
    → decode_cells n (encode_cells cells) ≡ ok (cells ++ nulls k)
unfolding decode_cells encode_cells
decode_cells-encode_cells [] k n a e =
    let same : n ≡ k = omega arith in ap (λ m. decode_cells m []) same ∙ decode_cells_missing k
decode_cells-encode_cells (c ∷ cells) k n a e =
    let same : n ≡ suc (length cells + k) = omega arith in
    ap (λ m. decode_cells m (encode_cell c ++ encode_cells cells)) same
    ∙ rw
        (
          decode_cell-encode_cell c (encode_cells cells) a.0,
          decode_cells-encode_cells cells k (length cells + k) a.1 refl,
        )
        refl

-- A row that was encoded is decoded as its cells, and columns that were added to the table since then as NULLs,
-- where the length of each cell's text is a uint32 and a NULL has no text.
pub decode-encode_row :
    (cells : List Datum) (added : ℕ)
    → All IsCell cells
    → decode_row (encode_row cells) (length cells + added) ≡ ok (cells ++ nulls added)
unfolding decode_row encode_row
decode-encode_row cells added a =
    decode_cells-encode_cells cells added (length cells + added) a refl

-- No encoded row is a tombstone, and a tombstone does not decode.
pub encode_row-tombstone :
    (cells : List Datum) (n : ℕ)
    → (is_tombstone (encode_row cells) ≡ false) × (decode_row tombstone n ≡ err tombstone_row)
unfolding decode_row encode_row is_tombstone
encode_row-tombstone cells n = (refl, refl)
