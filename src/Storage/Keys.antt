-- ===== src/Storage/Keys.antt =====
-- engine/internal/storage/keys.go: every key of the store is built here.
-- `Key` wraps its bytes, so a key is its bytes; `auth.NamespaceID` is the validated namespace.
pub mod Paths
pub mod Forms
pub mod Isolation
use basuyudb.Base.{
  ℕ, ◌%◌, ◌^◌, List, [], ◌∷◌, ◌++◌, Bytes, codes, eqb, length, put_uint32, put_uint64, ◌||◌,
  if◌then◌else◌,
}
use basuyudb.Auth.Identity.{NamespaceId}

abbrev pub key_version : ℕ
key_version = 0x01

-- branchSegment: main is a sibling of the feature branches' root.
unfoldable pub branch_segment : Bytes → Bytes
branch_segment branch =
    if eqb branch (codes "main") || eqb branch [] then codes "/main" else codes "/br/" ++ branch

unfoldable pub ns_root : NamespaceId → Bytes
ns_root ns = key_version ∷ [] ++ (codes "/ns/" ++ ns.raw)

unfoldable pub append_str : Bytes → Bytes → Bytes
append_str b s = b ++ (b'/' ∷ s)

-- A length-prefixed component; the length is cut to a uint32.
unfoldable pub append_bin : Bytes → Bytes → Bytes
append_bin b bin = b ++ (b'/' ∷ put_uint32 (length bin % 2 ^ 32) ++ bin)

unfoldable pub row_prefix : NamespaceId → Bytes → Bytes → Bytes
unfolding ns_root append_str
row_prefix ns branch table =
    append_str (append_str (ns_root ns ++ branch_segment branch) (codes "data")) table
    ++ (b'/' ∷ [])

unfoldable pub row_key : NamespaceId → Bytes → Bytes → Bytes → Bytes
unfolding ns_root append_str append_bin
row_key ns branch table pk =
    append_bin (append_str (append_str (ns_root ns ++ branch_segment branch) (codes "data")) table)
      pk

unfoldable pub index_column_prefix : NamespaceId → Bytes → Bytes → Bytes → Bytes
unfolding ns_root append_str
index_column_prefix ns branch table col =
    let b = append_str (append_str (ns_root ns ++ branch_segment branch) (codes "idx")) table in
    append_str b col ++ (b'/' ∷ [])

unfoldable pub index_key : NamespaceId → Bytes → Bytes → Bytes → Bytes → Bytes → Bytes
unfolding index_column_prefix append_bin
index_key ns branch table col val pk =
    append_bin (index_column_prefix ns branch table col ++ val) pk

unfoldable pub index_value_prefix : NamespaceId → Bytes → Bytes → Bytes → Bytes → Bytes
unfolding index_column_prefix
index_value_prefix ns branch table col val = index_column_prefix ns branch table col ++ val

unfoldable pub fts_key : NamespaceId → Bytes → Bytes → Bytes → Bytes → Bytes → Bytes
unfolding ns_root append_str append_bin
fts_key ns branch table field term doc_id =
    let b = append_str (append_str (ns_root ns ++ branch_segment branch) (codes "fts")) table in
    append_bin (append_str (append_str b field) term) doc_id

unfoldable pub vector_key : NamespaceId → Bytes → Bytes → Bytes → Bytes → Bytes
unfolding ns_root append_str append_bin
vector_key ns branch table col id =
    let b = append_str (append_str (ns_root ns ++ branch_segment branch) (codes "vec")) table in
    append_bin (append_str b col) id

unfoldable pub otel_span_key : NamespaceId → Bytes → Bytes → Bytes → Bytes
unfolding ns_root append_str append_bin
otel_span_key ns branch trace_id span_id =
    let b = append_str (ns_root ns ++ branch_segment branch) (codes "data") in
    append_bin (append_bin (append_str b (codes "otel_spans")) trace_id) span_id

-- The `for _, v := range vals` loop.
append_bins : Bytes → List Bytes → Bytes
append_bins b [] = b
append_bins b (v ∷ vals) = append_bins (append_bin b v) vals

unfoldable pub otel_index_key : NamespaceId → Bytes → Bytes → List Bytes → Bytes
unfolding ns_root append_str append_bin append_bins
otel_index_key ns branch index_name vals =
    let b = append_str (ns_root ns ++ branch_segment branch) (codes "idx") in
    append_bins (append_str (append_str b (codes "otel_spans")) index_name) vals

unfoldable pub schema_key : NamespaceId → Bytes → Bytes
unfolding ns_root append_str
schema_key ns table =
    append_str (append_str (append_str (ns_root ns) (codes "meta")) (codes "schema")) table

unfoldable pub branch_meta_key : NamespaceId → Bytes → Bytes
unfolding ns_root append_str
branch_meta_key ns name =
    append_str (append_str (append_str (ns_root ns) (codes "meta")) (codes "branches")) name

unfoldable pub raft_key : NamespaceId → ℕ → Bytes → Bytes
unfolding ns_root append_str append_bin
raft_key ns group_id suffix =
    append_bin (append_bin (append_str (ns_root ns) (codes "raft")) (put_uint64 group_id)) suffix

unfoldable pub hlc_key : NamespaceId → Bytes
unfolding ns_root append_str
hlc_key ns = append_str (append_str (ns_root ns) (codes "hlc")) (codes "ts")

-- {row}@{hlc}:{suffix}
unfoldable pub intent_key : Bytes → ℕ → ℕ → Bytes
intent_key row hlc suffix = row ++ (b'@' ∷ put_uint64 hlc ++ b':' ∷ suffix ∷ [])

unfoldable pub namespace_prefix : NamespaceId → Bytes
unfolding ns_root
namespace_prefix ns = ns_root ns ++ (b'/' ∷ [])
