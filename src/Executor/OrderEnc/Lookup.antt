-- ===== src/Executor/OrderEnc/Lookup.antt =====
-- Which index entries an equality lookup meets.
use basuyudb.Base.{
  ℕ, ◌≡◌, ◌↔◌, sym, ap, ◌∙◌, true, List, [], ◌∷◌, ◌++◌, Bytes, codes, NoSlash, has_prefix,
  has_prefix-append, has_prefix→split, Option, ok, arith,
}
use basuyudb.Base.Int.{ℤ}
use basuyudb.Auth.Identity.{NamespaceId}
use basuyudb.Storage.Keys.{branch_segment, index_key, index_value_prefix, index_column_prefix}
use basuyudb.Storage.Keys.Paths.{path_split, path-append}
use basuyudb.Storage.Keys.Forms.{
  key_path, branch_path, prefixed, index_key_form, index_value_prefix_form, branch_path_split,
}
use basuyudb.Storage.Keys.Isolation.{AreNames, key_path_split}
use basuyudb.Executor.OrderEnc.{TypeOid, order_encode}
use basuyudb.Executor.OrderEnc.PrefixFree.{order_encode_prefix_free}

index_path_split :
    (m n : NamespaceId) (b c t u col dol x y : Bytes)
    → AreNames m b t
    → AreNames n c u
    → NoSlash col
    → NoSlash dol
    → key_path m (branch_path b (codes "idx" ∷ t ∷ col ∷ [])) x
      ≡ key_path n (branch_path c (codes "idx" ∷ u ∷ dol ∷ [])) y
    → (m.raw ≡ n.raw) × (branch_segment b ≡ branch_segment c) × (t ≡ u) × (col ≡ dol) × (x ≡ y)
index_path_split m n b c t u col dol x y h k hc hd e =
    let (p, e1) =
      key_path_split m n (branch_path b (codes "idx" ∷ t ∷ col ∷ []))
        (branch_path c (codes "idx" ∷ u ∷ dol ∷ [])) x y h.valid k.valid e in
    let (q, e2) =
      branch_path_split b c (codes "idx" ∷ t ∷ col ∷ []) (codes "idx" ∷ u ∷ dol ∷ []) x y
        h.branch_ok k.branch_ok e1 in
    let (_, e3) =
      path_split (codes "idx") (codes "idx") (t ∷ col ∷ []) (u ∷ dol ∷ []) x y (omega arith)
        (omega arith) e2 in
    let (r, e4) = path_split t u (col ∷ []) (dol ∷ []) x y h.table_ok k.table_ok e3 in
    let (s, e5) = path_split col dol [] [] x y hc hd e4 in (p, q, r, s, cc)

index_key_congruent :
    (m n : NamespaceId) (b c t col v pk : Bytes)
    → m.raw ≡ n.raw
    → branch_segment b ≡ branch_segment c
    → index_key m b t col v pk ≡ index_key n c t col v pk
unfolding index_key index_column_prefix
index_key_congruent m n b c t col v pk e f = rw (e, f)

entry_found :
    (n : NamespaceId) (c u col v pk : Bytes)
    → has_prefix (index_key n c u col v pk) (index_value_prefix n c u col v) ≡ true
unfolding index_key index_value_prefix
entry_found n c u col v pk =
    has_prefix-append (index_column_prefix n c u col ++ v) (b'/' ∷ prefixed pk)

module _ (parse_int : Bytes → Option ℤ) (parse_float : Bytes → Option ℕ) where
  -- An equality lookup in an index meets an entry exactly if the entry is one of that namespace,
  -- branch, table and column with that encoded value, where both values are of the column's type, the
  -- namespaces are validated and no branch, table or column name holds a '/'.
  pub index_lookup_exact :
      (m n : NamespaceId) (b c t u col dol pk : Bytes) (ty : TypeOid) (v w x y : Bytes)
      → AreNames m b t
      → AreNames n c u
      → NoSlash col
      → NoSlash dol
      → order_encode parse_int parse_float ty v ≡ ok x
      → order_encode parse_int parse_float ty w ≡ ok y
      → (has_prefix (index_key m b t col x pk) (index_value_prefix n c u dol y) ≡ true) ↔ (
          (m.raw ≡ n.raw) × (branch_segment b ≡ branch_segment c) × (t ≡ u) × (col ≡ dol) × (x ≡ y))
  index_lookup_exact m n b c t u col dol pk ty v w x y h k hc hd ev ew = (into, back)
    where
      under : List Bytes
      under = branch_path c (codes "idx" ∷ u ∷ dol ∷ [])

      into :
          has_prefix (index_key m b t col x pk) (index_value_prefix n c u dol y) ≡ true
          → (m.raw ≡ n.raw)
            × (branch_segment b ≡ branch_segment c)
            × (t ≡ u)
            × (col ≡ dol)
            × (x ≡ y)
      into f =
          let (r, e) =
            has_prefix→split (index_key m b t col x pk) (index_value_prefix n c u dol y) f in
          let e' : key_path m (branch_path b (codes "idx" ∷ t ∷ col ∷ []))
                (x ++ (b'/' ∷ prefixed pk))
              ≡ key_path n under (y ++ r) =
            sym (index_key_form m b t col x pk)
            ∙ e
            ∙ ap (λ l. l ++ r) (index_value_prefix_form n c u dol y)
            ∙ ap (λ (l : Bytes). 0x01 ∷ l) (path-append (codes "ns" ∷ n.raw ∷ under) y r) in
          let (p, q, s, z, g) =
            index_path_split m n b c t u col dol (x ++ (b'/' ∷ prefixed pk)) (y ++ r) h k hc hd
              e' in
          (
            p,
            q,
            s,
            z,
            order_encode_prefix_free parse_int parse_float ty v w x y (b'/' ∷ prefixed pk) r ev ew
                g,
          )

      back :
          (m.raw ≡ n.raw) × (branch_segment b ≡ branch_segment c) × (t ≡ u) × (col ≡ dol) × (x ≡ y)
          → has_prefix (index_key m b t col x pk) (index_value_prefix n c u dol y) ≡ true
      back (p, q, s, z, g) =
          rw (index_key_congruent m n b c t col x pk p q, s, z, g) (entry_found n c u dol y pk)
