-- ===== src/Branch/Manager/Effect.antt =====
-- What a merge leaves on the parent.
use basuyudb.Base.{
  ◌≡◌, refl, sym, ap, ◌∙◌, inl, inr, ◌⊎◌, ◌>>=◌, ℕ, false, List, [], ◌∷◌, ◌++◌, append_assoc,
  append-nil, Bytes, codes, Option, none, some, Result, ok, err, eqb, if◌then◌else◌, key_not_found,
  arith, has_prefix-append, subst,
}
use basuyudb.Auth.Identity.{AuthSession}
use basuyudb.Storage.Keys.{row_prefix}
use basuyudb.Storage.Mvcc.{Badger, BadgerLaws}
use basuyudb.Transactions.Overlay.{Mutation, newest_mutation}
use basuyudb.Transactions.Engine.{
  Replicated, Engine, Txn, begin, get, scan, buffer, commit, Outcome,
}
use basuyudb.Transactions.Engine.Commit.{IsWellFormed}
use basuyudb.Transactions.Engine.Scans.{value_of, scan-get}
use basuyudb.Transactions.Engine.Visibility.{committed_value, begun_reads, get-begin-commit}
use basuyudb.Transactions.Engine.Isolation.{txn_get_lem}
use basuyudb.Storage.Mvcc.{txn_get}
use basuyudb.Storage.Mvcc.History.{answer, newest, Version}
use basuyudb.Branch.Prefix.{Meta, data_root}
use basuyudb.Branch.Manager.{
  MergeResult, is_tombstone, has_key, collect_ops, buffer_all, merged, merge_from,
}
use basuyudb.Branch.Manager.Merging.{operation, newest-collect_ops, collect_ops-counts}

-- What a reader of the branch sees of a row, from the branch's own answer and the parent's: a live row of the branch, nothing
-- under a tombstone, and the parent's row where the branch has none.
abbrev pub row_on_branch : Result Bytes → Result Bytes → Result Bytes
row_on_branch (ok val) parent = if is_tombstone val then err key_not_found else ok val
row_on_branch (err _) parent = parent

module _ (B : Badger) (L : BadgerLaws B) (R : Replicated B.Db) where
  buffered :
      (t : Txn) (ops : List Mutation)
      → buffer_all B R t ops ≡ record t { mutations = t.mutations ++ ops }
  unfolding buffer_all buffer
  buffered t [] = ap (λ ms. record t { mutations = ms }) (sym (append-nil t.mutations))
  buffered t (m ∷ ops) =
      buffered (buffer B R t m) ops
      ∙ ap (λ ms. record t { mutations = ms }) (append_assoc t.mutations (m ∷ []) ops)

  -- The roots that the merge works on.
  abbrev pub parent_root : AuthSession → Meta → Bytes
  parent_root sess meta = data_root (
      row_prefix sess.namespace (if eqb meta.parent [] then codes "main" else meta.parent)
        (codes "x"))

  abbrev pub branch_root : AuthSession → Bytes → Bytes
  branch_root sess src = data_root (row_prefix sess.namespace src (codes "x"))

  abbrev collected : Engine B R → Txn → AuthSession → Bytes → Meta → List Mutation × MergeResult
  collected e t sess src meta =
      collect_ops B R (get B R e t) (parent_root sess meta) (branch_root sess src)
        (scan B R e t (branch_root sess src))

  merge_from_lem :
      (e : Engine B R) (t : Txn) (sess : AuthSession) (src : Bytes) (meta : Meta)
      → merge_from B R e t sess src (ok meta)
        ≡ merged B R
            (collected e t sess src meta).1
            (commit B R e (record t { mutations = t.mutations ++ (collected e t sess src meta).0 }))
  unfolding merge_from
  merge_from_lem e t sess src meta =
      let c =
        (collect_ops-counts B R (get B R e t) (parent_root sess meta) (branch_root sess src)
          (scan B R e t (branch_root sess src))).0 in
      rw (merge_from, c, buffered t (collected e t sess src meta).0) refl

  merged_ok :
      (res : MergeResult) (out : Outcome B R) (r : MergeResult)
      → (merged B R res out).1 ≡ ok r
      → out.2 ≡ ok tt
  unfolding merged
  merged_ok res (e, t, err x) r h = cc
  merged_ok res (e, t, ok u) r h = refl

  merged_engine : (res : MergeResult) (out : Outcome B R) → (merged B R res out).0 ≡ out.0
  unfolding merged
  merged_engine res (e, t, err x) = refl
  merged_engine res (e, t, ok u) = refl

  pub fresh_read :
      (e : Engine B R) (t : Txn) (k : Bytes)
      → t.done ≡ false
      → t.mutations ≡ []
      → get B R e t k ≡ txn_get B e.store t.read_uint k
  unfolding get newest_mutation
  fresh_read e t k d m = rw (get, d, m, newest_mutation) refl

  -- A read answers a value or that there is none.
  abbrev Answered : Result Bytes → Type 0
  Answered r = ((v : Bytes) × (r ≡ ok v)) ⊎ (r ≡ err key_not_found)

  Answered-value :
      (k : Bytes) (ts : ℕ) (x : Option Bytes)
      → Answered (answer (some (record { key = k; ts = ts; value = x })) >>= λ item. ok item.0)
  Answered-value k ts none = inr refl
  Answered-value k ts (some y) = inl (y, refl)

  answered : (o : Option Version) → Answered (answer o >>= λ item. ok item.0)
  answered none = inr refl
  answered (some v) = Answered-value v.key v.ts v.value

  read_cases : (db : B.Db) (ts : ℕ) (k : Bytes) → Answered (txn_get B db ts k)
  read_cases db ts k = rw (txn_get_lem B L R db ts k) (answered (newest (L.history db) ts k))

  -- What the operation for a row makes of the parent's answer.
  by_operation :
      (key : Bytes) (mine theirs : Result Bytes)
      → Answered theirs
      → committed_value (operation key (has_key B R theirs) (value_of mine)) theirs
        ≡ row_on_branch mine theirs
  unfolding has_key
  by_operation key (err x) theirs c = refl
  by_operation key (ok val) theirs (inl (v, e)) = rw e (ground arith)
  by_operation key (ok val) theirs (inr e) = rw e (ground arith)

  pub merge_from-reads :
      (e : Engine B R) (t : Txn) (sess : AuthSession) (src : Bytes) (meta : Meta)
      (res : MergeResult) (wall : ℕ) (tail : Bytes)
      → IsWellFormed B L R e
      → t.done ≡ false
      → t.mutations ≡ []
      → t.read_uint ≡ e.clock
      → (merge_from B R e t sess src (ok meta)).1 ≡ ok res
      → get B R
          (merge_from B R e t sess src (ok meta)).0
          (begin B R (merge_from B R e t sess src (ok meta)).0 sess wall).1
          (parent_root sess meta ++ tail)
        ≡ row_on_branch
            (get B R e t (branch_root sess src ++ tail))
            (get B R e t (parent_root sess meta ++ tail))
  merge_from-reads e t sess src meta res wall tail w d m r h =
      rw
        (
          merge_from_lem e t sess src meta,
          merged_engine (collected e t sess src meta).1 (commit B R e t'),
        )
        (get-begin-commit B L R e t' sess wall key w committed
          ∙ ap
              (λ ms.
                committed_value (newest_mutation key (ms ++ ops))
                  (get B R e (begin B R e sess wall).1 key))
              m
          ∙ ap (λ o. committed_value o (get B R e (begin B R e sess wall).1 key)) asked
          ∙ ap
              (committed_value
                (operation key (has_key B R (get B R e t key)) (value_of (get B R e t mine))))
              same
          ∙ by_operation key (get B R e t mine) (get B R e t key)
              (subst Answered (sym (fresh_read e t key d m)) (read_cases e.store t.read_uint key)))
    where
      ops : List Mutation
      ops = (collected e t sess src meta).0

      t' : Txn
      t' = record t { mutations = t.mutations ++ ops }

      key : Bytes
      key = parent_root sess meta ++ tail

      mine : Bytes
      mine = branch_root sess src ++ tail

      committed : (commit B R e t').2 ≡ ok tt
      committed =
          merged_ok (collected e t sess src meta).1 (commit B R e t') res
            (ap (λ x. x.1) (sym (merge_from_lem e t sess src meta)) ∙ h)

      asked :
          newest_mutation key ops
          ≡ operation key (has_key B R (get B R e t key)) (value_of (get B R e t mine))
      asked =
          let scanned = scan-get B L R e t (branch_root sess src) mine d in
          newest-collect_ops B R (get B R e t) (parent_root sess meta) (branch_root sess src) tail
            (scan B R e t (branch_root sess src)) scanned.0
          ∙ ap (operation key (has_key B R (get B R e t key))) (
              scanned.1
              ∙ ap (λ b. if b then value_of (get B R e t mine) else none)
                  (has_prefix-append (branch_root sess src) tail))

      same : get B R e (begin B R e sess wall).1 key ≡ get B R e t key
      same =
          begun_reads B L R e sess wall key w.is_local
          ∙ ap (λ n. txn_get B e.store n key) (sym r)
          ∙ sym (fresh_read e t key d m)
