-- ===== src/Storage/Keys/Forms.antt =====
-- Each key family in path form, and the segments that a branch stands for.
use basuyudb.Base.{
  ◌≡◌, refl, Bool, List, [], ◌∷◌, ◌++◌, append_assoc, ◌||◌, Bytes, codes, eqb, length, put_uint32,
  NoSlash, if◌then◌else◌, inl, inr, Bool-cases, ◌%◌, ◌^◌, arith,
}
use basuyudb.Auth.Identity.{NamespaceId}
use basuyudb.Storage.Keys.{
  key_version, branch_segment, row_prefix, row_key, index_column_prefix, index_key,
  index_value_prefix, branch_meta_key, namespace_prefix,
}
use basuyudb.Storage.Keys.Paths.{path, path_split}

abbrev pub is_main : Bytes → Bool
is_main branch = eqb branch (codes "main") || eqb branch []

abbrev pub branch_path : Bytes → List Bytes → List Bytes
branch_path branch ss = if is_main branch then codes "main" ∷ ss else codes "br" ∷ branch ∷ ss

-- A length-prefixed component.
abbrev pub prefixed : Bytes → Bytes
prefixed bin = put_uint32 (length bin % 2 ^ 32) ++ bin

abbrev pub key_path : NamespaceId → List Bytes → Bytes → Bytes
key_path ns ss rest = key_version ∷ path (codes "ns" ∷ ns.raw ∷ ss) rest

branch_segment-path :
    (branch : Bytes) (ss : List Bytes) (rest : Bytes)
    → branch_segment branch ++ path ss rest ≡ path (branch_path branch ss) rest
unfolding branch_segment
branch_segment-path branch ss rest = elim (Bool-cases (is_main branch)) [
  | inl m ↦ rw m
  | inr f ↦ rw f
]

-- Everything behind the namespace and the branch.
under_branch :
    (ns : NamespaceId) (branch : Bytes) (ss : List Bytes) (rest : Bytes)
    → key_version ∷ codes "/ns/" ++ (ns.raw ++ (branch_segment branch ++ path ss rest))
      ≡ key_path ns (branch_path branch ss) rest
under_branch ns branch ss rest = rw (branch_segment-path branch ss rest)

pub row_prefix_form :
    (ns : NamespaceId) (branch table : Bytes)
    → row_prefix ns branch table ≡ key_path ns (branch_path branch (codes "data" ∷ table ∷ [])) []
unfolding row_prefix
row_prefix_form ns branch table =
    simp append_assoc (under_branch ns branch (codes "data" ∷ table ∷ []) [])

pub row_key_form :
    (ns : NamespaceId) (branch table pk : Bytes)
    → row_key ns branch table pk
      ≡ key_path ns (branch_path branch (codes "data" ∷ table ∷ [])) (prefixed pk)
unfolding row_key
row_key_form ns branch table pk =
    simp append_assoc (under_branch ns branch (codes "data" ∷ table ∷ []) (prefixed pk))

pub index_column_prefix_form :
    (ns : NamespaceId) (branch table col : Bytes)
    → index_column_prefix ns branch table col
      ≡ key_path ns (branch_path branch (codes "idx" ∷ table ∷ col ∷ [])) []
unfolding index_column_prefix
index_column_prefix_form ns branch table col =
    simp append_assoc (under_branch ns branch (codes "idx" ∷ table ∷ col ∷ []) [])

pub index_key_form :
    (ns : NamespaceId) (branch table col val pk : Bytes)
    → index_key ns branch table col val pk
      ≡ key_path ns
          (branch_path branch (codes "idx" ∷ table ∷ col ∷ []))
          (val ++ (b'/' ∷ prefixed pk))
unfolding index_key
index_key_form ns branch table col val pk =
    simp append_assoc
      (under_branch ns branch (codes "idx" ∷ table ∷ col ∷ []) (val ++ (b'/' ∷ prefixed pk)))

pub index_value_prefix_form :
    (ns : NamespaceId) (branch table col val : Bytes)
    → index_value_prefix ns branch table col val
      ≡ key_path ns (branch_path branch (codes "idx" ∷ table ∷ col ∷ [])) val
unfolding index_value_prefix
index_value_prefix_form ns branch table col val =
    simp append_assoc (under_branch ns branch (codes "idx" ∷ table ∷ col ∷ []) val)

pub branch_meta_key_form :
    (ns : NamespaceId) (name : Bytes)
    → branch_meta_key ns name ≡ key_path ns (codes "meta" ∷ codes "branches" ∷ []) name
unfolding branch_meta_key
branch_meta_key_form ns name = simp append_assoc

pub namespace_prefix_form : (ns : NamespaceId) → namespace_prefix ns ≡ key_path ns [] []
unfolding namespace_prefix
namespace_prefix_form ns = refl

-- A key of a branch is under the namespace and the branch of a prefix exactly when these agree.
pub branch_path_split :
    (b c : Bytes) (ss ts : List Bytes) (x y : Bytes)
    → NoSlash b
    → NoSlash c
    → path (branch_path b ss) x ≡ path (branch_path c ts) y
    → (branch_segment b ≡ branch_segment c) × (path ss x ≡ path ts y)
unfolding branch_segment
branch_path_split b c ss ts x y hb hc = elim (Bool-cases (is_main b)) [
  | inl m ↦ elim (Bool-cases (is_main c)) [
    | inl n ↦ rw (m, n) (λ e. (refl, cc))
    | inr g ↦ rw (m, g) (λ e. absurd (ground arith))
  ]
  | inr f ↦ elim (Bool-cases (is_main c)) [
    | inl n ↦ rw (f, n) (λ e. absurd (ground arith))
    | inr g ↦ rw (f, g) (λ e. let (p, q) = path_split b c ss ts x y hb hc (cc) in (cc, q))
  ]
]
