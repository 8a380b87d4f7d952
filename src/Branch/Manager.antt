-- ===== src/Branch/Manager.antt =====
-- engine/internal/branch/branch.go and merge.go: the branch manager over the transaction engine, and
-- the value tags of engine/internal/storage/valuetag.go.
-- Each method takes the readings of the wall clock, one for each time that the clock is read.
pub mod Merging
pub mod Effect
pub mod Merges
use basuyudb.Base.{
  ℕ, ◌+◌, Bool, true, false, List, [], ◌∷◌, ◌++◌, Bytes, codes, Option, none, some, Error, Result,
  ok, err, eqb, if◌then◌else◌, key_not_found, branch_exists, no_such_branch, cannot_modify_main,
  merge_conflicts, length, ltb, ◌==◌,
}
use basuyudb.Auth.Identity.{AuthSession}
use basuyudb.Storage.Keys.{row_prefix, branch_meta_key}
use basuyudb.Storage.Mvcc.{Badger}
use basuyudb.Storage.Mvcc.History.{Entry}
use basuyudb.Transactions.Hlc.{HlcTimestamp, now, encode}
use basuyudb.Transactions.Overlay.{Mutation}
use basuyudb.Transactions.Engine.{
  Replicated, Engine, Txn, begin, get, buffer, scan, commit, Outcome,
}
use basuyudb.Branch.Prefix.{
  Meta, encode_meta, decode_meta, branch_subtree_prefix, data_root, after_root,
}

-- Tombstone
abbrev pub tombstone : Bytes
tombstone = 0x00 ∷ []

-- IsTombstone
unfoldable pub is_tombstone : Bytes → Bool
is_tombstone [] = false
is_tombstone (tag ∷ _) = tag == 0x00

-- Conflict
pub record Conflict : Type 0 where
  pub table : Bytes
  pub key : Bytes

-- MergeResult
pub record MergeResult : Type 0 where
  pub rows_merged : ℕ
  pub rows_deleted : ℕ
  pub conflicts : List Conflict

unfoldable pub no_rows : MergeResult
no_rows = record { rows_merged = 0; rows_deleted = 0; conflicts = [] }

module _ (B : Badger) (R : Replicated B.Db) where
  -- What the error of the metadata's Get says.
  found : {A : Type 0} → Result A → Result Bool
  found (ok _) = ok true
  found (err key_not_found) = ok false
  found (err x) = err x

  -- Exists
  unfoldable pub exists : Engine B R → AuthSession → Bytes → ℕ → Engine B R × Result Bool
  unfolding found
  exists e sess name wall =
      if eqb name (codes "main")
      then (e, ok true)
      else (let (e', t) = begin B R e sess wall in
          (e', found (get B R e' t (branch_meta_key sess.namespace name))))

  -- The transaction that writes one key: Begin, Buffer, Commit.
  write_meta : Engine B R → Txn → Mutation → Engine B R × Result (Unit {0})
  write_meta e t m = let (e', _, r) = commit B R e (buffer B R t m) in (e', r)

  -- Create, behind the check for the name
  create_new : Engine B R → AuthSession → Bytes → Bytes → ℕ → ℕ → Engine B R × Result (Unit {0})
  unfolding write_meta
  create_new e sess name from wall2 wall3 =
      let (e1, t) = begin B R e sess wall2 in
      let (ts, hlc) = now e1.hlc wall3 in
      let meta : Meta = record { parent = from; created_at_hlc = encode ts } in
      write_meta (record e1 { hlc = hlc }) t
        (record {
          key = branch_meta_key sess.namespace name;
          value = encode_meta meta;
          delete = false;
        })

  create_checked :
      AuthSession
      → Bytes
      → Bytes
      → ℕ
      → ℕ
      → Engine B R × Result Bool
      → Engine B R × Result (Unit {0})
  unfolding create_new
  create_checked sess name from wall2 wall3 (e, err x) = (e, err x)
  create_checked sess name from wall2 wall3 (e, ok true) = (e, err branch_exists)
  create_checked sess name from wall2 wall3 (e, ok false) = create_new e sess name from wall2 wall3

  -- Create
  unfoldable pub create :
      Engine B R → AuthSession → Bytes → Bytes → ℕ → ℕ → ℕ → Engine B R × Result (Unit {0})
  unfolding create_checked
  create e sess name from wall1 wall2 wall3 =
      if eqb name (codes "main")
      then (e, err cannot_modify_main)
      else create_checked sess name (if eqb from [] then codes "main" else from) wall2 wall3
          (exists e sess name wall1)

  drop_checked : AuthSession → Bytes → ℕ → Engine B R × Result Bool → Engine B R × Result (Unit {0})
  unfolding write_meta
  drop_checked sess name wall2 (e, err x) = (e, err x)
  drop_checked sess name wall2 (e, ok false) = (e, err no_such_branch)
  drop_checked sess name wall2 (e, ok true) =
      elim (B.drop_prefix e.store (branch_subtree_prefix sess.namespace name)) [
        | err x ↦ (e, err x)
        | ok db ↦
            let (e', t) = begin B R (record e { store = db }) sess wall2 in
            write_meta e' t
              (record { key = branch_meta_key sess.namespace name; value = []; delete = true })
      ]

  -- Drop
  unfoldable pub drop_branch :
      Engine B R → AuthSession → Bytes → ℕ → ℕ → Engine B R × Result (Unit {0})
  unfolding drop_checked
  drop_branch e sess name wall1 wall2 =
      if eqb name (codes "main")
      then (e, err cannot_modify_main)
      else drop_checked sess name wall2 (exists e sess name wall1)

  decode_found : Result Bytes → Result Meta
  decode_found (err x) = err x
  decode_found (ok raw) = decode_meta raw

  -- metaOf
  unfoldable pub meta_of : Engine B R → AuthSession → Bytes → ℕ → Engine B R × Result Meta
  unfolding decode_found
  meta_of e sess name wall =
      let (e', t) = begin B R e sess wall in
      (e', decode_found (get B R e' t (branch_meta_key sess.namespace name)))

  -- perr == nil
  unfoldable pub has_key : Result Bytes → Bool
  has_key (ok _) = true
  has_key (err _) = false

  -- One turn of the loop of Merge: an operation is put in front of those of the later turns.
  unfoldable pub add_op :
      Bytes → Bytes → Bool → List Mutation × MergeResult → List Mutation × MergeResult
  add_op parent_key val parent_has (ops, res) =
      if is_tombstone val
      then (if parent_has
          then (
            record { key = parent_key; value = []; delete = true } ∷ ops,
            record res { rows_deleted = res.rows_deleted + 1 },
          )
          else (ops, res))
      else (
        record { key = parent_key; value = val; delete = false } ∷ ops,
        record res { rows_merged = res.rows_merged + 1 },
      )

  -- The loop of Merge over the branch's rows.
  unfoldable pub collect_ops :
      (Bytes → Result Bytes) → Bytes → Bytes → List Entry → List Mutation × MergeResult
  unfolding add_op has_key no_rows
  collect_ops get_row parent_root branch_root [] = ([], no_rows)
  collect_ops get_row parent_root branch_root ((bkey, val) ∷ rows) =
      let rest = collect_ops get_row parent_root branch_root rows in
      elim (after_root bkey branch_root) [
        | none ↦ rest
        | some tail ↦
            add_op (parent_root ++ tail) val (has_key (get_row (parent_root ++ tail))) rest
      ]

  unfoldable pub buffer_all : Txn → List Mutation → Txn
  buffer_all t [] = t
  buffer_all t (m ∷ ms) = buffer_all (buffer B R t m) ms

  unfoldable pub merged : MergeResult → Outcome B R → Engine B R × Result MergeResult
  merged res (e, t, err x) = (e, err x)
  merged res (e, t, ok _) = (e, ok res)

  -- Merge, with the parent read from the metadata: the loop, the conflicts that it has recorded, and
  -- the commit of the operations.
  unfoldable pub merge_from :
      Engine B R → Txn → AuthSession → Bytes → Result Meta → Engine B R × Result MergeResult
  unfolding collect_ops buffer_all merged
  merge_from e t sess src (err x) = (e, err x)
  merge_from e t sess src (ok meta) =
      let parent = if eqb meta.parent [] then codes "main" else meta.parent in
      let parent_root = data_root (row_prefix sess.namespace parent (codes "x")) in
      let branch_root = data_root (row_prefix sess.namespace src (codes "x")) in
      let (ops, res) =
        collect_ops (get B R e t) parent_root branch_root (scan B R e t branch_root) in
      if ltb 0 (length res.conflicts)
      then (e, err merge_conflicts)
      else merged res (commit B R e (buffer_all t ops))

  unfoldable pub merge_checked :
      AuthSession → Bytes → ℕ → ℕ → Engine B R × Result Bool → Engine B R × Result MergeResult
  unfolding merge_from
  merge_checked sess src wall2 wall3 (e, err x) = (e, err x)
  merge_checked sess src wall2 wall3 (e, ok false) = (e, err no_such_branch)
  merge_checked sess src wall2 wall3 (e, ok true) =
      let (e1, t) = begin B R e sess wall2 in
      let (e2, meta) = meta_of e1 sess src wall3 in merge_from e2 t sess src meta

  -- Merge
  unfoldable pub merge :
      Engine B R → AuthSession → Bytes → ℕ → ℕ → ℕ → Engine B R × Result MergeResult
  unfolding merge_checked
  merge e sess src wall1 wall2 wall3 =
      if eqb src (codes "main")
      then (e, err cannot_modify_main)
      else merge_checked sess src wall2 wall3 (exists e sess src wall1)
