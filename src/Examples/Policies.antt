-- ===== src/Examples/Policies.antt =====
-- Row policies and the statements that change them.
use basuyudb.Base.{
  ◌≡◌, ◌↔◌, refl, Bool, true, false, List, [], ◌∷◌, ◌++◌, Bytes, codes, Option, none, some, Result,
  ok, arith, length, eqb, if◌then◌else◌, ◌==◌,
}
use basuyudb.Session.{Session, user, is_bypass_rls}
use basuyudb.Storage.Memory.{memory, latest_ts}
use basuyudb.Storage.Memory.Laws.{memory_laws}
use basuyudb.Transactions.Engine.{
  Engine, new_engine, begin, commit, get, buffer, has_conflict, fill_batch,
}
use basuyudb.Transactions.Overlay.{newest_mutation}
use basuyudb.Storage.Mvcc.{txn_get, latest_version}
use basuyudb.Storage.Mvcc.History.{newest}
use basuyudb.Transactions.Engine.Isolation.{new_engine-IsWellFormed}
use basuyudb.Storage.Keys.{schema_key}
use basuyudb.Executor.Catalog.{
  RlsPolicy, TableSchema, find_policy, applies_to_command, applies_to_role,
}
use basuyudb.Executor.Policies.{
  Binding, rls_row_allowed, rls_check_new_row, policy_check_expr, apply_rls_select, rls_applies,
  governs, eval_policy_predicate,
}
use basuyudb.Executor.Policies.Enforcement.{
  Allowed, rls_row_allowed-Allowed, rls_check_new_row-Allowed,
}
use basuyudb.Executor.Policies.Selecting.{Selected, apply_rls_select-Selected}
use basuyudb.Executor.PolicyStatements.{
  CreatePolicyStmt, add_policy, new_policy, exec_create_policy,
}
use basuyudb.Executor.PolicyStatements.Catalog.{DistinctNames, created, Changes-DistinctNames}
use basuyudb.Executor.PolicyStatements.Persistence.{loaded, Reloaded, exec_create_policy-loaded}
use basuyudb.Examples.{solo, session, acme}

abbrev sess : Session
sess = record {
  auth = session;
  conn_id = 1;
  params = λ k. none;
  override_branch = [];
  settings = none;
}

abbrev owner : RlsPolicy
owner = record {
  name = codes "owner";
  command = codes "ALL";
  permissive = true;
  roles = [];
  using_expr = codes "own";
  check_expr = [];
}

abbrev schema : TableSchema
schema = record {
  name = codes "docs";
  cols = [];
  pk_index = none;
  rls_enabled = true;
  rls_forced = false;
  policies = owner ∷ [];
}

-- A predicate is true of the row if it is its owner's.
abbrev owned : Bytes → Result (Option Bool)
owned t = ok (some (eqb t (codes "own")))

abbrev not_owned : Bytes → Result (Option Bool)
not_owned t = ok none

rls_row_allowed-Allowed_example :
    (rls_row_allowed eqb owned schema sess (codes "SELECT") ≡ ok true)
    ↔ Allowed eqb owned (λ p. p.using_expr) (codes "SELECT") (user sess) schema.policies
rls_row_allowed-Allowed_example = rls_row_allowed-Allowed eqb owned schema sess (codes "SELECT")

rls_check_new_row-Allowed_example :
    (rls_check_new_row eqb owned schema sess (codes "INSERT") ≡ ok tt)
    ↔ Allowed eqb owned policy_check_expr (codes "INSERT") (user sess) schema.policies
rls_check_new_row-Allowed_example = rls_check_new_row-Allowed eqb owned schema sess (codes "INSERT")

abbrev own_row : List (Binding eqb)
own_row = record { schema = schema; eval_cells = owned } ∷ []

abbrev other_row : List (Binding eqb)
other_row = record { schema = schema; eval_cells = not_owned } ∷ []

apply_rls_select-Selected_example : Selected eqb sess (other_row ∷ own_row ∷ []) (own_row ∷ [])
unfolding apply_rls_select rls_applies is_bypass_rls eqb rls_row_allowed governs applies_to_command
    applies_to_role eval_policy_predicate
apply_rls_select-Selected_example =
    apply_rls_select-Selected eqb sess (other_row ∷ own_row ∷ []) refl

abbrev stmt : CreatePolicyStmt Bytes
stmt = record {
  policy_name = codes "all";
  table = codes "docs";
  permissive = false;
  command = codes "SELECT";
  roles = codes "public" ∷ [];
  using_pred = some (codes "own");
  with_check = none;
}

abbrev added : RlsPolicy
added = record {
  name = codes "all";
  command = codes "SELECT";
  permissive = false;
  roles = [];
  using_expr = codes "own";
  check_expr = [];
}

abbrev same : Bytes → Bytes
same t = t

abbrev text_of : Bytes → Result Bytes
text_of t = ok t

abbrev with_policy : TableSchema
with_policy = record schema { policies = owner ∷ added ∷ [] }

Changes-DistinctNames_example : DistinctNames eqb with_policy.policies
unfolding add_policy find_policy eqb
Changes-DistinctNames_example =
    Changes-DistinctNames eqb same text_of {sch = schema} {sch' = with_policy} (created stmt refl)
      (omega arith)

-- A codec of this table's definitions: the number of policies, and the name.
marshal : TableSchema → Option Bytes
marshal s = some (length s.policies ∷ s.name)

unmarshal : Bytes → Option TableSchema
unmarshal [] = none
unmarshal (c ∷ raw) = some (if c == 1 then schema else with_policy)

abbrev stored : Engine memory solo
stored =
    new_engine memory solo
      (record { key = schema_key acme (codes "docs"); ts = 3; value = some (1 ∷ []) } ∷ []) 1 none

policy_created :
    (exec_create_policy eqb same text_of marshal unmarshal memory solo stored none sess 100 stmt).2
    ≡ ok (codes "CREATE POLICY")
unfolding exec_create_policy marshal unmarshal get begin newest_mutation txn_get newest new_engine
    eqb schema_key latest_ts find_policy commit buffer has_conflict latest_version fill_batch
policy_created = refl

exec_create_policy-loaded_example :
    (sch : TableSchema) × (p : RlsPolicy) × (loaded eqb same text_of marshal unmarshal memory
        memory_laws solo stored sess 100
        (codes "docs")
      ≡ ok sch)
    × (find_policy eqb sch (codes "all") ≡ none)
    × (new_policy eqb same text_of stmt ≡ ok p)
    × Reloaded eqb same text_of marshal unmarshal memory memory_laws solo
        (loaded eqb same text_of marshal unmarshal memory memory_laws solo
          (exec_create_policy eqb same text_of marshal unmarshal memory solo stored none sess 100
            stmt).0
          sess
          200
          sch.name)
        (record sch { policies = sch.policies ++ (p ∷ []) })
unfolding latest_ts
exec_create_policy-loaded_example =
    exec_create_policy-loaded eqb same text_of marshal unmarshal memory memory_laws solo stored sess
      100 200 stmt (codes "CREATE POLICY")
      (new_engine-IsWellFormed memory memory_laws solo
        (record { key = schema_key acme (codes "docs"); ts = 3; value = some (1 ∷ []) } ∷ []) 1
        (omega arith))
      policy_created
