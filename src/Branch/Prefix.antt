-- ===== src/Branch/Prefix.antt =====
-- The prefixes that engine/internal/branch cuts out of a row prefix, and the metadata's encoding.
pub mod Roots
pub mod Scope
use basuyudb.Base.{
  ℕ, zero, suc, ◌+◌, ◌-◌, List, [], ◌∷◌, ◌++◌, Bytes, codes, Option, none, some, Result, ok, err,
  eqb, ltb, if◌then◌else◌, length, take, drop, put_uint64, get_uint64, corrupt_metadata, ◌&&◌, Bool,
  leb, not,
}
use basuyudb.Auth.Identity.{NamespaceId}
use basuyudb.Storage.Keys.{row_prefix}

-- Meta
pub record Meta : Type 0 where
  pub parent : Bytes
  pub created_at_hlc : ℕ

unfoldable pub encode_meta : Meta → Bytes
encode_meta m = put_uint64 m.created_at_hlc ++ m.parent

unfoldable pub decode_meta : Bytes → Result Meta
decode_meta b =
    if ltb (length b) 8
    then err corrupt_metadata
    else ok (record { parent = drop 8 b; created_at_hlc = get_uint64 b })

-- The loop of lastIndex, over the positions left: `suc i` looks at position i.
last_index_from : ℕ → Bytes → Bytes → Option ℕ
last_index_from zero b sub = none
last_index_from (suc i) b sub =
    let rest = last_index_from i b sub in
    if eqb (take (length sub) (drop i b)) sub then some i else rest

-- lastIndex; `none` is -1. Where `b` is shorter than `sub` there is no position.
unfoldable pub last_index : Bytes → Bytes → Option ℕ
unfolding last_index_from
last_index b sub = last_index_from (length b + 1 - length sub) b sub

abbrev pub data_marker : Bytes
data_marker = codes "/data/"

-- branchSubtreePrefix
unfoldable pub branch_subtree_prefix : NamespaceId → Bytes → Bytes
branch_subtree_prefix ns name =
    let full = row_prefix ns name (codes "x") in
    elim (last_index full data_marker) [ some idx ↦ take (idx + 1) full | none ↦ full ]

-- dataRoot
unfoldable pub data_root : Bytes → Bytes
data_root full = elim (last_index full data_marker) [
  | some idx ↦ take (idx + length data_marker) full
  | none ↦ full
]

-- afterRoot; `none` is a key that is not under the root.
unfoldable pub after_root : Bytes → Bytes → Option Bytes
after_root key root =
    if leb (length root) (length key) && eqb (take (length root) key) root
    then some (drop (length root) key)
    else none
