-- ===== src/Branch/Prefix/Scope.antt =====
-- Which rows the drop of a branch reaches.
use basuyudb.Base.{
  ◌+◌, none, some, take, ◌≡◌, ◌↔◌, sym, ap, ◌∙◌, true, false, List, [], ◌∷◌, ◌++◌, Bytes, codes,
  append_assoc, has_prefix, Bool-cases, inl, inr,
}
use basuyudb.Auth.Identity.{NamespaceId}
use basuyudb.Storage.Keys.{branch_segment, row_prefix, row_key, ns_root, append_str}
use basuyudb.Storage.Keys.Paths.{path, path_starts}
use basuyudb.Storage.Keys.Forms.{
  key_path, branch_path, is_main, prefixed, row_key_form, branch_path_split,
}
use basuyudb.Storage.Keys.Isolation.{
  AreNames, key_path_split, found_under, path_found, row_key_congruent,
}
use basuyudb.Branch.Prefix.{branch_subtree_prefix, last_index, data_marker}
use basuyudb.Branch.Prefix.Roots.{tail_x, cut_subtree}

front :
    (ns : NamespaceId) (name : Bytes)
    → row_prefix ns name (codes "x") ≡ (ns_root ns ++ branch_segment name) ++ tail_x
unfolding row_prefix append_str
front ns name = simp append_assoc

subtree_form :
    (ns : NamespaceId) (name : Bytes)
    → branch_subtree_prefix ns name ≡ key_path ns (branch_path name []) []
unfolding branch_subtree_prefix ns_root branch_segment
subtree_form ns name =
    ap (λ full. elim (last_index full data_marker) [ some idx ↦ take (idx + 1) full | none ↦ full ])
      (front ns name)
    ∙ cut_subtree (ns_root ns ++ branch_segment name)
    ∙ elim (Bool-cases (is_main name)) [
      | inl m ↦ rw m (simp append_assoc)
      | inr f ↦ rw f (simp append_assoc)
    ]

-- What stands behind a branch stands under the branch's prefix.
under :
    (n : NamespaceId) (name : Bytes) (ss : List Bytes) (x : Bytes)
    → has_prefix (key_path n (branch_path name ss) x) (key_path n (branch_path name []) []) ≡ true
under n name ss x =
    let (y, q) = path_starts ss x in
    elim (Bool-cases (is_main name)) [
      | inl m ↦ rw (m, q) (path_found n (codes "main" ∷ []) y)
      | inr f ↦ rw (f, q) (path_found n (codes "br" ∷ name ∷ []) y)
    ]

-- The drop of a branch takes a row exactly if it is of that namespace and of that branch, where the
-- namespaces are validated and no branch or table name holds a '/'.
pub drop_exact :
    (m n : NamespaceId) (b name t pk : Bytes)
    → AreNames m b t
    → AreNames n name t
    → (has_prefix (row_key m b t pk) (branch_subtree_prefix n name) ≡ true)
      ↔ ((m.raw ≡ n.raw) × (branch_segment b ≡ branch_segment name))
drop_exact m n b name t pk h k = (into, back)
  where
    into :
        has_prefix (row_key m b t pk) (branch_subtree_prefix n name) ≡ true
        → (m.raw ≡ n.raw) × (branch_segment b ≡ branch_segment name)
    into f =
        let (r, e) =
          found_under (row_key m b t pk) n (branch_path name []) (rw (subtree_form n name) at f) in
        let (p, q) =
          key_path_split m n _ _ (prefixed pk) r h.valid k.valid
            (sym (row_key_form m b t pk) ∙ e) in
        (p, (branch_path_split b name _ _ (prefixed pk) r h.branch_ok k.branch_ok q).0)

    back :
        (m.raw ≡ n.raw) × (branch_segment b ≡ branch_segment name)
        → has_prefix (row_key m b t pk) (branch_subtree_prefix n name) ≡ true
    back (p, q) =
        rw (row_key_congruent m n b name t pk p q, subtree_form n name, row_key_form n name t pk)
          (under n name (codes "data" ∷ t ∷ []) (prefixed pk))

-- The drop of a branch also takes every row of a branch whose name goes on from its name with a '/'.
pub drop_takes_nested :
    (n : NamespaceId) (name sub t pk : Bytes)
    → is_main name ≡ false
    → is_main (name ++ (b'/' ∷ sub)) ≡ false
    → has_prefix (row_key n (name ++ (b'/' ∷ sub)) t pk) (branch_subtree_prefix n name) ≡ true
drop_takes_nested n name sub t pk f g =
    rw (subtree_form n name, row_key_form n (name ++ (b'/' ∷ sub)) t pk, f, g)
      (rw (append_assoc name (b'/' ∷ sub) (path (codes "data" ∷ t ∷ []) (prefixed pk)))
        (path_found n (codes "br" ∷ name ∷ []) (sub ++ path (codes "data" ∷ t ∷ []) (prefixed pk))))
