-- ===== src/Executor/PolicyStatements.antt =====
-- engine/internal/executor/rls.go: CREATE POLICY, ALTER POLICY and DROP POLICY.
-- `strings.EqualFold` and `strings.ToUpper` are functions, `deparse` is deparseExpr on expressions of a type
-- `Expr`, and `marshal` and `unmarshal` are json.Marshal and json.Unmarshal of a schema.
pub mod Catalog
pub mod Persistence
use basuyudb.Base.{
  ℕ, Bool, true, false, List, [], ◌∷◌, ◌++◌, Bytes, codes, Option, none, some, Result, ok, err,
  Error, ◌>>=◌, eqb, suc, if◌then◌else◌, no_such_table, duplicate_policy, no_such_policy,
  corrupt_schema, take, drop,
}
use basuyudb.Session.{Session}
use basuyudb.Storage.Keys.{schema_key}
use basuyudb.Storage.Mvcc.{Badger}
use basuyudb.Transactions.Overlay.{Mutation}
use basuyudb.Transactions.Engine.{Replicated, Engine, Txn, buffer, Outcome}
use basuyudb.Executor.OrderEnc.{trim_space}
use basuyudb.Executor.Catalog.{
  RlsPolicy, TableSchema, find_policy, begin_tx, commit_tx, rollback_tx, load_schema,
}
use basuyudb.Executor.Policies.{normalize_roles}

-- CreatePolicyStmt
pub record CreatePolicyStmt (Expr : Type 0) : Type 0 where
  pub policy_name : Bytes
  pub table : Bytes
  pub permissive : Bool
  pub command : Bytes
  pub roles : List Bytes
  pub using_pred : Option Expr
  pub with_check : Option Expr

-- AlterPolicyStmt; `none` are the roles nil.
pub record AlterPolicyStmt (Expr : Type 0) : Type 0 where
  pub policy_name : Bytes
  pub table : Bytes
  pub roles : Option (List Bytes)
  pub using_pred : Option Expr
  pub with_check : Option Expr

-- DropPolicyStmt
pub record DropPolicyStmt : Type 0 where
  pub policy_name : Bytes
  pub table : Bytes
  pub if_exists : Bool

-- What a statement does to the schema that it has loaded: nothing, or another schema to store.
pub data Change : Type 0 where
  leave : Change
  store : TableSchema → Change

module _ {Expr : Type 0} (equal_fold : Bytes → Bytes → Bool) (to_upper : Bytes → Bytes)
    (deparse : Expr → Result Bytes) where
  -- deparseOptExpr
  unfoldable pub deparse_opt_expr : Option Expr → Result Bytes
  deparse_opt_expr none = ok []
  deparse_opt_expr (some n) = deparse n

  -- The policy of a CREATE POLICY statement.
  unfoldable pub new_policy : CreatePolicyStmt Expr → Result RlsPolicy
  unfolding deparse_opt_expr normalize_roles trim_space
  new_policy s =
      let cmd = to_upper (trim_space s.command) in
      deparse_opt_expr s.using_pred >>= λ using_txt. deparse_opt_expr s.with_check >>= λ check_txt.
      ok (record {
        name = s.policy_name;
        command = if eqb cmd [] then codes "ALL" else cmd;
        permissive = s.permissive;
        roles = normalize_roles equal_fold s.roles;
        using_expr = using_txt;
        check_expr = check_txt;
      })

  -- execCreatePolicy, on the loaded schema
  unfoldable pub add_policy : CreatePolicyStmt Expr → TableSchema → Result Change
  unfolding new_policy
  add_policy s sch = elim (find_policy equal_fold sch s.policy_name) [
    | some p ↦ err duplicate_policy
    | none ↦ new_policy s >>= λ p. ok (store (record sch { policies = sch.policies ++ (p ∷ []) }))
  ]

  -- A clause of an ALTER POLICY statement, or the old text where it has none.
  unfoldable pub given : Bytes → Option Expr → Result Bytes
  unfolding deparse_opt_expr
  given old none = ok old
  given old (some n) = deparse_opt_expr (some n)

  -- The clauses of an ALTER POLICY statement, on a policy.
  unfoldable pub altered : AlterPolicyStmt Expr → RlsPolicy → Result RlsPolicy
  unfolding deparse_opt_expr normalize_roles given
  altered s p =
      let with_roles : List Bytes = elim s.roles [
        | none ↦ p.roles
        | some roles ↦ normalize_roles equal_fold roles
      ] in
      given p.using_expr s.using_pred >>= λ using_txt.
      given p.check_expr s.with_check >>= λ check_txt.
      ok (record p { roles = with_roles; using_expr = using_txt; check_expr = check_txt })

  -- execAlterPolicy, on the loaded schema
  unfoldable pub alter_policy_in : AlterPolicyStmt Expr → TableSchema → Result Change
  unfolding altered
  alter_policy_in s sch = elim (find_policy equal_fold sch s.policy_name) [
    | none ↦ err no_such_policy
    | some (p, idx) ↦ altered s p >>= λ p'. ok (
        store
          (record sch { policies = take idx sch.policies ++ (p' ∷ drop (suc idx) sch.policies) }))
  ]

  -- execDropPolicy, on the loaded schema
  unfoldable pub remove_policy : DropPolicyStmt → TableSchema → Result Change
  remove_policy s sch = elim (find_policy equal_fold sch s.policy_name) [
    | none ↦ if s.if_exists then ok leave else err no_such_policy
    | some (p, idx) ↦
        ok (store (record sch { policies = take idx sch.policies ++ drop (suc idx) sch.policies }))
  ]

  -- IF EXISTS on a table that is missing.
  unfoldable pub or_missing_table : DropPolicyStmt → Result TableSchema → Result Change
  unfolding remove_policy
  or_missing_table s (ok sch) = remove_policy s sch
  or_missing_table s (err no_such_table) = if s.if_exists then ok leave else err no_such_table
  or_missing_table s (err x) = err x

  module _ (marshal : TableSchema → Option Bytes) (unmarshal : Bytes → Option TableSchema)
      (B : Badger) (R : Replicated B.Db) where
    -- persistSchema
    unfoldable pub persist_schema : Txn → Session → TableSchema → Result Txn
    persist_schema t sess sch = elim (marshal sch) [
      | none ↦ err corrupt_schema
      | some raw ↦ ok (
          buffer B R t
            (record { key = schema_key sess.auth.namespace sch.name; value = raw; delete = false }))
    ]

    -- The statement's result: a command tag or an error. An own transaction is rolled back at the end in any case.
    unfoldable pub close_tx : Bool → Bytes → Outcome B R → Engine B R × Txn × Result Bytes
    close_tx owns tag (e, t, r) = (e, rollback_tx B R t owns, r >>= λ u. ok tag)

    -- The end of the three statements.
    unfoldable pub make_change :
        Engine B R → Txn → Bool → Session → Bytes → Result Change → Engine B R × Txn × Result Bytes
    unfolding close_tx persist_schema commit_tx
    make_change e t owns sess tag (err x) = close_tx owns tag (e, t, err x)
    make_change e t owns sess tag (ok leave) = close_tx owns tag (e, t, ok tt)
    make_change e t owns sess tag (ok (store sch)) = elim (persist_schema t sess sch) [
      | err x ↦ close_tx owns tag (e, t, err x)
      | ok t' ↦ close_tx owns tag (commit_tx B R e t' owns)
    ]

    -- execCreatePolicy
    unfoldable pub exec_create_policy :
        Engine B R
        → Option Txn
        → Session
        → ℕ
        → CreatePolicyStmt Expr
        → Engine B R × Txn × Result Bytes
    unfolding make_change add_policy begin_tx load_schema
    exec_create_policy e ambient sess wall s =
        let (e1, t, owns) = begin_tx B R e ambient sess.auth wall in
        make_change e1 t owns sess (codes "CREATE POLICY")
          (load_schema B R unmarshal e1 t sess s.table >>= λ sch. add_policy s sch)

    -- execAlterPolicy
    unfoldable pub exec_alter_policy :
        Engine B R
        → Option Txn
        → Session
        → ℕ
        → AlterPolicyStmt Expr
        → Engine B R × Txn × Result Bytes
    unfolding make_change alter_policy_in begin_tx load_schema
    exec_alter_policy e ambient sess wall s =
        let (e1, t, owns) = begin_tx B R e ambient sess.auth wall in
        make_change e1 t owns sess (codes "ALTER POLICY")
          (load_schema B R unmarshal e1 t sess s.table >>= λ sch. alter_policy_in s sch)

    -- execDropPolicy
    unfoldable pub exec_drop_policy :
        Engine B R → Option Txn → Session → ℕ → DropPolicyStmt → Engine B R × Txn × Result Bytes
    unfolding make_change or_missing_table begin_tx load_schema
    exec_drop_policy e ambient sess wall s =
        let (e1, t, owns) = begin_tx B R e ambient sess.auth wall in
        make_change e1 t owns sess (codes "DROP POLICY")
          (or_missing_table s (load_schema B R unmarshal e1 t sess s.table))
