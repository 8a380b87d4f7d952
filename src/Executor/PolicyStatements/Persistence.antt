-- ===== src/Executor/PolicyStatements/Persistence.antt =====
-- What a policy statement leaves in the catalog.
use basuyudb.Base.{
  ◌≡◌, refl, ap, ◌∙◌, inl, inr, ℕ, Bool, true, false, [], ◌∷◌, ◌++◌, Bytes, codes, Option, none,
  some, Result, ok, err, ◌>>=◌, corrupt_schema, Result-cases, Option-cases, >>=-eq-ok, eqb_refl,
}
use basuyudb.Session.{Session}
use basuyudb.Storage.Keys.{schema_key}
use basuyudb.Storage.Mvcc.{Badger, BadgerLaws}
use basuyudb.Transactions.Overlay.{newest_mutation}
use basuyudb.Transactions.Engine.{Replicated, Engine, Txn, begin, get, buffer, commit, Outcome}
use basuyudb.Transactions.Engine.Commit.{IsWellFormed}
use basuyudb.Transactions.Engine.Isolation.{begin-IsWellFormed, begin-mutations}
use basuyudb.Transactions.Engine.Visibility.{committed_value, get-begin-commit}
use basuyudb.Executor.Catalog.{
  RlsPolicy, TableSchema, find_policy, load_schema, stored_schema, begin_tx, commit_tx,
}
use basuyudb.Executor.PolicyStatements.{
  CreatePolicyStmt, Change, store, new_policy, add_policy, persist_schema, close_tx, make_change,
  exec_create_policy,
}

module _ {Expr : Type 0} (equal_fold : Bytes → Bytes → Bool) (to_upper : Bytes → Bytes)
    (deparse : Expr → Result Bytes) (marshal : TableSchema → Option Bytes)
    (unmarshal : Bytes → Option TableSchema) (B : Badger) (L : BadgerLaws B)
    (R : Replicated B.Db) where
  -- What a transaction that begins on the engine loads.
  abbrev pub loaded : Engine B R → Session → ℕ → Bytes → Result TableSchema
  loaded e sess wall table = load_schema B R unmarshal e (begin B R e sess.auth wall).1 sess table

  close_tx_ok :
      (tag tag' : Bytes) (o : Outcome B R)
      → (close_tx equal_fold to_upper deparse marshal unmarshal B R true tag o).2 ≡ ok tag'
      → o.2 ≡ ok tt
  unfolding close_tx
  close_tx_ok tag tag' (e, t, ok u) h = refl
  close_tx_ok tag tag' (e, t, err x) h = cc

  close_tx_engine :
      (tag : Bytes) (o : Outcome B R)
      → (close_tx equal_fold to_upper deparse marshal unmarshal B R true tag o).0 ≡ o.0
  unfolding close_tx
  close_tx_engine tag (e, t, r) = refl

  make_change-commit :
      (e : Engine B R) (t : Txn) (sess : Session) (tag : Bytes) (sch : TableSchema) (raw : Bytes)
      → marshal sch ≡ some raw
      → make_change equal_fold to_upper deparse marshal unmarshal B R e t true sess tag
          (ok (store sch))
        ≡ close_tx equal_fold to_upper deparse marshal unmarshal B R true tag (
            commit B R e (
              buffer B R t (record {
                key = schema_key sess.auth.namespace sch.name;
                value = raw;
                delete = false;
              })))
  unfolding make_change persist_schema commit_tx
  make_change-commit e t sess tag sch raw f = rw (make_change, persist_schema, f) refl

  -- The next transaction loads what is decoded of the bytes that the schema was encoded to.
  abbrev pub Reloaded : Result TableSchema → TableSchema → Type 0
  Reloaded later sch =
      (raw : Bytes) × (marshal sch ≡ some raw) × (later ≡ stored_schema B R unmarshal (ok raw))

  -- A changed schema, written in a new transaction of its own, is what the next transaction loads.
  make_change-loaded :
      (e : Engine B R) (t : Txn) (sess : Session) (tag tag' : Bytes) (sch : TableSchema) (wall : ℕ)
      → IsWellFormed B L R e
      → t.mutations ≡ []
      → (make_change equal_fold to_upper deparse marshal unmarshal B R e t true sess tag
          (ok (store sch))).2
        ≡ ok tag'
      → Reloaded
          (loaded
            (make_change equal_fold to_upper deparse marshal unmarshal B R e t true sess tag
              (ok (store sch))).0
            sess
            wall
            sch.name)
          sch
  unfolding make_change persist_schema commit_tx load_schema
  make_change-loaded e t sess tag tag' sch wall w m h = elim (Option-cases (marshal sch)) [
    | inl f ↦ absurd (
        let k = rw (make_change, persist_schema, f) at h in
        let g = close_tx_ok tag tag' (e, t, err corrupt_schema) k in cc)
    | inr (raw, f) ↦
        let t' : Txn = buffer B R t (record { key = key; value = raw; delete = false }) in
        let made = make_change-commit e t sess tag sch raw f in
        let done : (commit B R e t').2 ≡ ok tt =
          close_tx_ok tag tag' (commit B R e t') (rw made at h) in
        (
          raw,
          f,
          rw (made, close_tx_engine tag (commit B R e t'))
              (ap (stored_schema B R unmarshal) (
                get-begin-commit B L R e t' sess.auth wall key w done
                ∙ ap (λ o. committed_value o (get B R e (begin B R e sess.auth wall).1 key))
                    (written raw))),
        )
  ]
    where
      key : Bytes
      key = schema_key sess.auth.namespace sch.name

      written :
          (raw : Bytes)
          → newest_mutation key
              (buffer B R t (record { key = key; value = raw; delete = false })).mutations
            ≡ some (record { key = key; value = raw; delete = false })
      written raw = unfold buffer newest_mutation in rw (m, newest_mutation, eqb_refl key) refl

  make_change_ok :
      (e : Engine B R) (t : Txn) (sess : Session) (tag tag' : Bytes) (r : Result Change)
      → (make_change equal_fold to_upper deparse marshal unmarshal B R e t true sess tag r).2
        ≡ ok tag'
      → (c : Change) × (r ≡ ok c)
  unfolding make_change
  make_change_ok e t sess tag tag' (ok c) h = (c, refl)
  make_change_ok e t sess tag tag' (err x) h = let g = close_tx_ok tag tag' (e, t, err x) h in cc

  exec_create_policy_change :
      (e : Engine B R) (sess : Session) (wall : ℕ) (s : CreatePolicyStmt Expr)
      → exec_create_policy equal_fold to_upper deparse marshal unmarshal B R e none sess wall s
        ≡ make_change equal_fold to_upper deparse marshal unmarshal B R
            (begin B R e sess.auth wall).0
            (begin B R e sess.auth wall).1
            true
            sess
            (codes "CREATE POLICY")
            (loaded e sess wall s.table >>= λ sch. add_policy equal_fold to_upper deparse s sch)
  unfolding exec_create_policy begin_tx load_schema get begin
  exec_create_policy_change e sess wall s = refl

  -- A CREATE POLICY statement that changes something adds its policy.
  add_policy_ok :
      (s : CreatePolicyStmt Expr) (sch : TableSchema) (c : Change)
      → add_policy equal_fold to_upper deparse s sch ≡ ok c
      → (p : RlsPolicy) × (find_policy equal_fold sch s.policy_name ≡ none)
        × (new_policy equal_fold to_upper deparse s ≡ ok p)
        × (c ≡ store (record sch { policies = sch.policies ++ (p ∷ []) }))
  unfolding add_policy
  add_policy_ok s sch c h = elim (Option-cases (find_policy equal_fold sch s.policy_name)) [
    | inr (x, f) ↦ absurd (let k = rw (add_policy, f) at h in cc)
    | inl f ↦ elim (Result-cases (new_policy equal_fold to_upper deparse s)) [
      | inr (x, g) ↦ absurd (let k = rw (add_policy, f, g) at h in cc)
      | inl (p, g) ↦
          let k : ok (store (record sch { policies = sch.policies ++ (p ∷ []) })) ≡ ok c =
            rw (add_policy, f, g) at h in
          (p, f, g, cc)
    ]
  ]

  -- CREATE POLICY outside an explicit transaction, on a single node whose oracle, not at the end of its uint64, has reached
  -- every version of its store: if it answers with its command tag, then the table's definition was there, no policy of the
  -- statement's name was on it, that definition with the statement's policy behind the policies that it had could be encoded,
  -- and the next transaction loads what is decoded of exactly these bytes.
  pub exec_create_policy-loaded :
      (e : Engine B R) (sess : Session) (wall later : ℕ) (s : CreatePolicyStmt Expr) (tag : Bytes)
      → IsWellFormed B L R e
      → (exec_create_policy equal_fold to_upper deparse marshal unmarshal B R e none sess wall s).2
        ≡ ok tag
      → (sch : TableSchema) × (p : RlsPolicy) × (loaded e sess wall s.table ≡ ok sch)
        × (find_policy equal_fold sch s.policy_name ≡ none)
        × (new_policy equal_fold to_upper deparse s ≡ ok p)
        × Reloaded
            (loaded
              (exec_create_policy equal_fold to_upper deparse marshal unmarshal B R e none sess wall
                s).0
              sess
              later
              sch.name)
            (record sch { policies = sch.policies ++ (p ∷ []) })
  exec_create_policy-loaded e sess wall later s tag w h =
      let (c, r) = make_change_ok e1 t sess (codes "CREATE POLICY") tag planned made in
      let (sch, f, g) =
        >>=-eq-ok (loaded e sess wall s.table) (add_policy equal_fold to_upper deparse s) r in
      let (p, n, o, q) = add_policy_ok s sch c g in
      (
        sch,
        p,
        f,
        n,
        o,
        rw (exec_create_policy_change e sess wall s) (
            stored planned (record sch { policies = sch.policies ++ (p ∷ []) }) (r ∙ ap ok q) made),
      )
    where
      e1 : Engine B R
      e1 = (begin B R e sess.auth wall).0

      t : Txn
      t = (begin B R e sess.auth wall).1

      planned : Result Change
      planned = loaded e sess wall s.table >>= λ sch. add_policy equal_fold to_upper deparse s sch

      made :
          (make_change equal_fold to_upper deparse marshal unmarshal B R e1 t true sess
            (codes "CREATE POLICY")
            planned).2
          ≡ ok tag
      made = rw (exec_create_policy_change e sess wall s) at h

      stored :
          (r : Result Change) (sch : TableSchema)
          → r ≡ ok (store sch)
          → (make_change equal_fold to_upper deparse marshal unmarshal B R e1 t true sess
              (codes "CREATE POLICY")
              r).2
            ≡ ok tag
          → Reloaded
              (loaded
                (make_change equal_fold to_upper deparse marshal unmarshal B R e1 t true sess
                  (codes "CREATE POLICY")
                  r).0
                sess
                later
                sch.name)
              sch
      stored r sch k m = rw k (
          make_change-loaded e1 t sess (codes "CREATE POLICY") tag sch later
            (begin-IsWellFormed B L R e sess.auth wall w) (begin-mutations B L R e sess.auth wall)
            (rw k at m))
