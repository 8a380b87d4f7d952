-- ===== src/Executor/Catalog.antt =====
-- engine/internal/executor/catalog.go and txnctx.go: a table's persisted definition, its row policies,
-- and the transaction that a statement runs in.
-- `strings.EqualFold` is the function `equal_fold`, and `json.Unmarshal` into a schema is `unmarshal`,
-- where `none` is its error.
use basuyudb.Base.{
  ℕ, suc, Bool, true, false, List, [], ◌∷◌, Bytes, codes, Option, none, some, Result, ok, err, ◌||◌,
  eqb, if◌then◌else◌, key_not_found, no_such_table, corrupt_schema,
}
use basuyudb.Auth.Identity.{AuthSession}
use basuyudb.Session.{Session}
use basuyudb.Storage.Keys.{schema_key}
use basuyudb.Storage.Mvcc.{Badger}
use basuyudb.Transactions.Engine.{Replicated, Engine, Txn, begin, get, commit, rollback, Outcome}

-- fkColPair
pub record FkColPair : Type 0 where
  pub local : Bytes
  pub ref : Bytes

-- defaultSpec
pub record DefaultSpec : Type 0 where
  pub kind : Bytes
  pub text : Bytes
  pub oid : ℕ
  pub seq : Bytes

-- colMeta
pub record ColMeta : Type 0 where
  pub name : Bytes
  pub type_oid : ℕ
  pub not_null : Bool
  pub pk : Bool
  pub unique : Bool
  pub default : Option DefaultSpec
  pub check : Bytes
  pub fk_table : Bytes
  pub fk_column : Bytes
  pub fk_on_delete : Bytes
  pub fk_on_update : Bytes
  pub fk_cols : List FkColPair
  pub fk_name : Bytes
  pub fk_deferrable : Bool
  pub fk_initially_deferred : Bool
  pub generated : Bool
  pub generated_expr : Bytes
  pub composite_type : Bytes

-- rlsPolicy
pub record RlsPolicy : Type 0 where
  pub name : Bytes
  pub command : Bytes
  pub permissive : Bool
  pub roles : List Bytes
  pub using_expr : Bytes
  pub check_expr : Bytes

-- tableSchema; `none` is the index -1.
pub record TableSchema : Type 0 where
  pub name : Bytes
  pub cols : List ColMeta
  pub pk_index : Option ℕ
  pub rls_enabled : Bool
  pub rls_forced : Bool
  pub policies : List RlsPolicy

-- An index behind one more element.
unfoldable pub later : Option ℕ → Option ℕ
later none = none
later (some i) = some (suc i)

unfoldable pub next_policy : Option (RlsPolicy × ℕ) → Option (RlsPolicy × ℕ)
next_policy none = none
next_policy (some (p, i)) = some (p, suc i)

module _ (equal_fold : Bytes → Bytes → Bool) where
  -- The loop of appliesToRole.
  unfoldable pub names_role : List Bytes → Bytes → Bool
  names_role [] user = false
  names_role (r ∷ roles) user =
      (equal_fold r (codes "public") || equal_fold r user) || names_role roles user

  -- appliesToRole
  unfoldable pub applies_to_role : RlsPolicy → Bytes → Bool
  unfolding names_role
  applies_to_role p user = elim p.roles [ [] ↦ true | r ∷ roles ↦ names_role (r ∷ roles) user ]

  -- appliesToCommand
  unfoldable pub applies_to_command : RlsPolicy → Bytes → Bool
  applies_to_command p cmd = eqb p.command (codes "ALL") || equal_fold p.command cmd

  -- The loop of findPolicy.
  unfoldable pub find_in : List RlsPolicy → Bytes → Option (RlsPolicy × ℕ)
  unfolding next_policy
  find_in [] name = none
  find_in (p ∷ ps) name =
      let rest = next_policy (find_in ps name) in
      if equal_fold p.name name then some (p, 0) else rest

  -- findPolicy
  unfoldable pub find_policy : TableSchema → Bytes → Option (RlsPolicy × ℕ)
  unfolding find_in
  find_policy s name = find_in s.policies name

  -- The loop of colIndex.
  unfoldable pub col_index_in : List ColMeta → Bytes → Option ℕ
  unfolding later
  col_index_in [] name = none
  col_index_in (c ∷ cols) name =
      let rest = later (col_index_in cols name) in if equal_fold c.name name then some 0 else rest

  -- colIndex
  unfoldable pub col_index : TableSchema → Bytes → Option ℕ
  unfolding col_index_in
  col_index s name = col_index_in s.cols name

module _ (B : Badger) (R : Replicated B.Db) where
  -- beginTx, in the explicit transaction of the context if there is one: the third part says whether the
  -- transaction is the statement's own.
  unfoldable pub begin_tx : Engine B R → Option Txn → AuthSession → ℕ → Engine B R × Txn × Bool
  begin_tx e (some t) sess wall = (e, t, false)
  begin_tx e none sess wall = let (e', t) = begin B R e sess wall in (e', t, true)

  -- commitTx
  unfoldable pub commit_tx : Engine B R → Txn → Bool → Outcome B R
  commit_tx e t true = commit B R e t
  commit_tx e t false = (e, t, ok tt)

  -- rollbackTx
  unfoldable pub rollback_tx : Txn → Bool → Txn
  rollback_tx t true = (rollback B R t).0
  rollback_tx t false = t

  -- What loadSchema makes of the answer of Get.
  unfoldable pub stored_schema : (Bytes → Option TableSchema) → Result Bytes → Result TableSchema
  stored_schema unmarshal (err key_not_found) = err no_such_table
  stored_schema unmarshal (err x) = err x
  stored_schema unmarshal (ok raw) = elim (unmarshal raw) [
    | none ↦ err corrupt_schema
    | some s ↦ ok s
  ]

  -- loadSchema
  unfoldable pub load_schema :
      (Bytes → Option TableSchema) → Engine B R → Txn → Session → Bytes → Result TableSchema
  unfolding stored_schema
  load_schema unmarshal e t sess table =
      stored_schema unmarshal (get B R e t (schema_key sess.auth.namespace table))
