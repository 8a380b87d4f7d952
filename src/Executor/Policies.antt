-- ===== src/Executor/Policies.antt =====
-- engine/internal/executor/rls.go: row-level security, its policies and their enforcement.
-- `strings.EqualFold` and `strings.ToUpper` are functions, `deparse` is deparseExpr, `marshal` is
-- json.Marshal of a schema, and `eval` parses a stored predicate and evaluates it on the row at hand: its
-- value is an error, NULL (`none`) or a Boolean.
pub mod Enforcement
pub mod Selecting
use basuyudb.Base.{
  ℕ, Bool, true, false, not, List, [], ◌∷◌, ◌++◌, Bytes, codes, Option, none, some, Result, ok, err,
  ◌>>=◌, ◌&&◌, ◌||◌, eqb, if◌then◌else◌, no_such_table, duplicate_policy, no_such_policy,
  row_policy_violation, corrupt_schema, take, drop, suc,
}
use basuyudb.Auth.Identity.{AuthSession}
use basuyudb.Session.{Session, user, is_bypass_rls}
use basuyudb.Storage.Keys.{schema_key}
use basuyudb.Storage.Mvcc.{Badger}
use basuyudb.Transactions.Overlay.{Mutation}
use basuyudb.Transactions.Engine.{Replicated, Engine, Txn, buffer, Outcome}
use basuyudb.Executor.OrderEnc.{trim_space}
use basuyudb.Executor.SetOps.{Datum}
use basuyudb.Executor.RowCodec.{null_datum}
use basuyudb.Executor.Catalog.{
  RlsPolicy, TableSchema, applies_to_role, applies_to_command, find_policy, begin_tx, commit_tx,
  rollback_tx, load_schema,
}

-- permissiveText
unfoldable pub permissive_text : Bool → Bytes
permissive_text permissive = if permissive then codes "PERMISSIVE" else codes "RESTRICTIVE"

-- strings.Join
unfoldable pub join : List Bytes → Bytes → Bytes
join [] sep = []
join (s ∷ []) sep = s
join (s ∷ r ∷ rest) sep = s ++ (sep ++ join (r ∷ rest) sep)

-- rolesArrayLiteral
unfoldable pub roles_array_literal : List Bytes → Bytes
unfolding join
roles_array_literal [] = codes "{public}"
roles_array_literal (r ∷ roles) = codes "{" ++ (join (r ∷ roles) (codes ",") ++ codes "}")

-- optTextDatum
unfoldable pub opt_text_datum : Bytes → Datum
opt_text_datum s = if eqb s [] then null_datum else record { is_null = false; text = s }

-- policyCheckExpr
unfoldable pub policy_check_expr : RlsPolicy → Bytes
policy_check_expr p = if not (eqb p.check_expr []) then p.check_expr else p.using_expr

not_visible_if_null : Option Bool → Bool
not_visible_if_null none = false
not_visible_if_null (some b) = b

-- evalPolicyPredicate
unfoldable pub eval_policy_predicate : (Bytes → Result (Option Bool)) → Bytes → Bool → Result Bool
unfolding not_visible_if_null trim_space
eval_policy_predicate eval expr empty_default =
    if eqb (trim_space expr) []
    then ok empty_default
    else (eval expr >>= λ v. ok (not_visible_if_null v))

module _ (equal_fold : Bytes → Bytes → Bool) where
  -- normalizeRoles
  unfoldable pub normalize_loop : List Bytes → List Bytes → List Bytes
  unfolding trim_space
  normalize_loop [] out = out
  normalize_loop (r ∷ roles) out =
      let rest = normalize_loop roles (out ++ (trim_space r ∷ [])) in
      if eqb (trim_space r) [] || equal_fold (trim_space r) (codes "public") then [] else rest

  unfoldable pub normalize_roles : List Bytes → List Bytes
  unfolding normalize_loop
  normalize_roles roles = normalize_loop roles []

  -- rlsApplies, of a schema and a session that are not nil
  unfoldable pub rls_applies : TableSchema → Session → Bool
  rls_applies sch sess =
      if not sch.rls_enabled
      then false
      else if is_bypass_rls (λ s. s) equal_fold sess && not sch.rls_forced
      then false
      else true

  -- The test of a policy that both loops of a check begin with.
  unfoldable pub governs : Bytes → Bytes → RlsPolicy → Bool
  governs cmd who p = applies_to_command equal_fold p cmd && applies_to_role equal_fold p who

  -- The checks of an existing row read a policy's USING expression, and those of a new row what
  -- policyCheckExpr gives: this is `expr_of`.
  module _ (eval : Bytes → Result (Option Bool)) (expr_of : RlsPolicy → Bytes)
      (cmd who : Bytes) where
    -- One turn of the first loop: a permissive policy was met, and one of them let the row pass.
    unfoldable pub permissive_turn : RlsPolicy → Bool × Bool → Result (Bool × Bool)
    permissive_turn p (met, pass) =
        if not (governs cmd who p)
        then ok (met, pass)
        else if p.permissive
        then (eval_policy_predicate eval (expr_of p) true >>= λ b.
            ok (true, if b then true else pass))
        else ok (met, pass)

    unfoldable pub permissive_loop : List RlsPolicy → Bool × Bool → Result (Bool × Bool)
    unfolding permissive_turn
    permissive_loop [] acc = ok acc
    permissive_loop (p ∷ ps) acc = permissive_turn p acc >>= λ acc'. permissive_loop ps acc'

    -- One turn of the second loop: whether the row passes the policy.
    unfoldable pub restrictive_turn : RlsPolicy → Result Bool
    restrictive_turn p =
        if p.permissive || not (governs cmd who p)
        then ok true
        else eval_policy_predicate eval (expr_of p) true

    unfoldable pub restrictive_loop : List RlsPolicy → Result Bool
    unfolding restrictive_turn
    restrictive_loop [] = ok true
    restrictive_loop (p ∷ ps) =
        restrictive_turn p >>= λ b. let rest = restrictive_loop ps in if b then rest else ok false

    -- Both loops over a list of policies.
    unfoldable pub check_policies : List RlsPolicy → Result Bool
    unfolding permissive_loop restrictive_loop
    check_policies ps = permissive_loop ps (false, false) >>= λ acc.
        if not acc.0 || not acc.1 then ok false else restrictive_loop ps

  -- rlsRowAllowed
  unfoldable pub rls_row_allowed :
      (Bytes → Result (Option Bool)) → TableSchema → Session → Bytes → Result Bool
  unfolding check_policies
  rls_row_allowed eval sch sess cmd =
      check_policies eval (λ p. p.using_expr) cmd (user sess) sch.policies

  -- rlsCheckNewRow
  unfoldable pub rls_check_new_row :
      (Bytes → Result (Option Bool)) → TableSchema → Session → Bytes → Result (Unit {0})
  unfolding check_policies
  rls_check_new_row eval sch sess cmd =
      check_policies eval policy_check_expr cmd (user sess) sch.policies >>= λ b.
      if b then ok tt else err row_policy_violation

  -- A row's binding of a table: its schema, and the evaluator on its cells.
  pub record Binding : Type 0 where
    pub schema : TableSchema
    pub eval_cells : Bytes → Result (Option Bool)

  -- The loop of applyRLSSelect over the bindings of a row.
  unfoldable pub keep_row : Session → List Binding → Result Bool
  keep_row sess [] = ok true
  keep_row sess (b ∷ row) =
      let rest = keep_row sess row in
      if not (rls_applies b.schema sess)
      then rest
      else (rls_row_allowed b.eval_cells b.schema sess (codes "SELECT") >>= λ allowed.
          if allowed then rest else ok false)

  -- applyRLSSelect
  unfoldable pub apply_rls_select : Session → List (List Binding) → Result (List (List Binding))
  unfolding keep_row
  apply_rls_select sess [] = ok []
  apply_rls_select sess (row ∷ rows) = keep_row sess row >>= λ keep.
      apply_rls_select sess rows >>= λ out. ok (if keep then row ∷ out else out)
