-- ===== src/Storage/Keys/Isolation.antt =====
-- What a prefix scan over the store's keys can and cannot reach.
use basuyudb.Base.{
  ◌≡◌, ◌↔◌, sym, ap, ◌∙◌, true, List, [], ◌∷◌, Bytes, codes, NoSlash, has_prefix, has_prefix-append,
  has_prefix→split, arith, put_uint32,
}
use basuyudb.Auth.Identity.{NamespaceId, IsValid}
use basuyudb.Storage.Keys.{
  key_version, branch_segment, row_prefix, row_key, branch_meta_key, namespace_prefix,
}
use basuyudb.Storage.Keys.Paths.{path, path_starts, path_split, path-append}
use basuyudb.Storage.Keys.Forms.{
  key_path, branch_path, prefixed, row_prefix_form, row_key_form, branch_meta_key_form,
  namespace_prefix_form, branch_path_split,
}

-- Names that may stand in a key: validated namespaces, and branches and tables with no separator.
pub record AreNames (ns : NamespaceId) (branch table : Bytes) : Type 0 where
  pub valid : IsValid ns
  pub branch_ok : NoSlash branch
  pub table_ok : NoSlash table

-- The namespaces of two key paths agree, and so does what follows.
pub key_path_split :
    (m n : NamespaceId) (ss ts : List Bytes) (x y : Bytes)
    → IsValid m
    → IsValid n
    → key_path m ss x ≡ key_path n ts y
    → (m.raw ≡ n.raw) × (path ss x ≡ path ts y)
key_path_split m n ss ts x y hm hn e =
    let (_, q) =
      path_split (codes "ns") (codes "ns") (m.raw ∷ ss) (n.raw ∷ ts) x y (omega arith) (omega arith)
        (cc) in
    path_split m.raw n.raw ss ts x y hm.no_slash hn.no_slash q

-- The segments of a row key.
data_path_split :
    (m n : NamespaceId) (b c t u x y : Bytes)
    → AreNames m b t
    → AreNames n c u
    → key_path m (branch_path b (codes "data" ∷ t ∷ [])) x
      ≡ key_path n (branch_path c (codes "data" ∷ u ∷ [])) y
    → (m.raw ≡ n.raw) × (branch_segment b ≡ branch_segment c) × (t ≡ u) × (x ≡ y)
data_path_split m n b c t u x y h k e =
    let (p, e1) = key_path_split m n _ _ x y h.valid k.valid e in
    let (q, e2) = branch_path_split b c _ _ x y h.branch_ok k.branch_ok e1 in
    let (_, e3) =
      path_split (codes "data") (codes "data") (t ∷ []) (u ∷ []) x y (omega arith) (omega arith)
        e2 in
    let (r, e4) = path_split t u [] [] x y h.table_ok k.table_ok e3 in (p, q, r, cc)

prefixed_injective : (x y : Bytes) → prefixed x ≡ prefixed y → x ≡ y
unfolding put_uint32
prefixed_injective x y e = cc e

-- A text that is found under a prefix is the prefix with something behind it.
pub found_under :
    (k : Bytes) (n : NamespaceId) (ss : List Bytes)
    → has_prefix k (key_path n ss []) ≡ true
    → (r : Bytes) × (k ≡ key_path n ss r)
found_under k n ss h =
    let (r, e) = has_prefix→split k (key_path n ss []) h in
    (r, e ∙ ap (λ (l : Bytes). key_version ∷ l) (path-append (codes "ns" ∷ n.raw ∷ ss) [] r))

-- and the other way round
pub path_found :
    (n : NamespaceId) (ss : List Bytes) (r : Bytes)
    → has_prefix (key_path n ss r) (key_path n ss []) ≡ true
path_found n ss r =
    rw (← path-append (codes "ns" ∷ n.raw ∷ ss) [] r) (has_prefix-append (key_path n ss []) r)

-- `ns` and `branch` enter a key by the namespace's text and the branch's segment alone.
pub row_key_congruent :
    (m n : NamespaceId) (b c t pk : Bytes)
    → m.raw ≡ n.raw
    → branch_segment b ≡ branch_segment c
    → row_key m b t pk ≡ row_key n c t pk
unfolding row_key
row_key_congruent m n b c t pk e f = rw (e, f)

-- A scan over a table's row prefix meets a row exactly if the row is one of that namespace, that
-- branch and that table, where the namespaces are validated and no branch or table name holds a '/'.
pub row_scan_exact :
    (m n : NamespaceId) (b c t u pk : Bytes)
    → AreNames m b t
    → AreNames n c u
    → (has_prefix (row_key m b t pk) (row_prefix n c u) ≡ true)
      ↔ ((m.raw ≡ n.raw) × (branch_segment b ≡ branch_segment c) × (t ≡ u))
row_scan_exact m n b c t u pk h k = (into, back)
  where
    into :
        has_prefix (row_key m b t pk) (row_prefix n c u) ≡ true
        → (m.raw ≡ n.raw) × (branch_segment b ≡ branch_segment c) × (t ≡ u)
    into f =
        let f' = rw (row_prefix_form n c u) at f in
        let (r, e) = found_under (row_key m b t pk) n (branch_path c (codes "data" ∷ u ∷ [])) f' in
        let (p, q, s, _) =
          data_path_split m n b c t u (prefixed pk) r h k (sym (row_key_form m b t pk) ∙ e) in
        (p, q, s)

    back :
        (m.raw ≡ n.raw) × (branch_segment b ≡ branch_segment c) × (t ≡ u)
        → has_prefix (row_key m b t pk) (row_prefix n c u) ≡ true
    back (p, q, s) =
        rw (row_key_congruent m n b c t pk p q, s, row_prefix_form n c u, row_key_form n c u pk)
          (path_found n (branch_path c (codes "data" ∷ u ∷ [])) (prefixed pk))

-- Two rows with one key are one row, that is, of one namespace, branch, table and primary key,
-- where the namespaces are validated and no branch or table name holds a '/'; `main` and the
-- empty name are one branch.
pub row_key_injective :
    (m n : NamespaceId) (b c t u pk qk : Bytes)
    → AreNames m b t
    → AreNames n c u
    → row_key m b t pk ≡ row_key n c u qk
    → (m.raw ≡ n.raw) × (branch_segment b ≡ branch_segment c) × (t ≡ u) × (pk ≡ qk)
row_key_injective m n b c t u pk qk h k e =
    let (p, q, s, f) =
      data_path_split m n b c t u (prefixed pk) (prefixed qk) h k
        (sym (row_key_form m b t pk) ∙ e ∙ row_key_form n c u qk) in
    (p, q, s, prefixed_injective pk qk f)

-- The prefix of a namespace is a prefix of a row's key or of a branch's metadata key exactly if
-- that row or branch is the namespace's, where the namespaces are validated.
pub namespace_erasure_exact :
    (m n : NamespaceId) (b t pk : Bytes)
    → IsValid m
    → IsValid n
    → ((has_prefix (row_key m b t pk) (namespace_prefix n) ≡ true) ↔ (m.raw ≡ n.raw))
      × ((has_prefix (branch_meta_key m b) (namespace_prefix n) ≡ true) ↔ (m.raw ≡ n.raw))
namespace_erasure_exact m n b t pk h k = (
  rw row_key_form (exact (branch_path b (codes "data" ∷ t ∷ [])) (prefixed pk)),
  rw branch_meta_key_form (exact (codes "meta" ∷ codes "branches" ∷ []) b),
)
  where
    exact :
        (ss : List Bytes) (x : Bytes)
        → (has_prefix (key_path m ss x) (namespace_prefix n) ≡ true) ↔ (m.raw ≡ n.raw)
    exact ss x = (
      λ f.
          let (r, e) = found_under (key_path m ss x) n [] (rw namespace_prefix_form at f) in
          (key_path_split m n ss [] x r h k e).0,
      λ e. let (y, q) = path_starts ss x in rw (namespace_prefix_form, ← e, q) (path_found m [] y),
    )
