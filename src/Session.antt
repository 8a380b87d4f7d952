-- ===== src/Session.antt =====
-- engine/internal/session/session.go: the session that the wire layer passes to the executor.
-- A Go map is a function to Option; a nil map has no key. `strings.ToLower` and `strings.TrimSpace`
-- together are the function `norm`, and `strings.EqualFold` is the function `equal_fold`.
pub mod Settings
use basuyudb.Base.{
  ℕ, ◌≡◌, Bool, true, false, List, [], ◌∷◌, Bytes, codes, eqb, Option, none, some, Result, ok, err,
  branch_pinned, if◌then◌else◌, not,
}
use basuyudb.Auth.Identity.{AuthSession, NamespaceId}

abbrev pub StringMap : Type 0
StringMap = Bytes → Option Bytes

abbrev pub no_entries : StringMap
no_entries k = none

abbrev pub set_entry : Bytes → Bytes → StringMap → StringMap
set_entry key v m k = if eqb key k then some v else m k

abbrev pub remove_entry : Bytes → StringMap → StringMap
remove_entry key m k = if eqb key k then none else m k

pub record Session : Type 0 where
  pub auth : AuthSession
  pub conn_id : ℕ
  pub params : StringMap
  pub override_branch : Bytes
  pub settings : Option StringMap

-- New
unfoldable pub new_session : AuthSession → ℕ → Option StringMap → Session
new_session a conn_id params = record {
  auth = a;
  conn_id = conn_id;
  params = elim params [ none ↦ no_entries | some m ↦ m ];
  override_branch = [];
  settings = none;
}

-- Namespace
unfoldable pub namespace : Session → NamespaceId
namespace s = s.auth.namespace

-- A parameter that is present and not empty, or the other string.
param_or : Option Bytes → Bytes → Bytes
param_or none other = other
param_or (some v) other = if eqb v [] then other else v

-- Branch
unfoldable pub branch : Session → Bytes
unfolding param_or
branch s =
    if not (eqb s.auth.branch [])
    then s.auth.branch
    else if not (eqb s.override_branch [])
    then s.override_branch
    else param_or (s.params (codes "branch")) (codes "main")

-- SetBranch
unfoldable pub set_branch : Session → Bytes → Session × Result (Unit {0})
set_branch s name =
    if not (eqb s.auth.branch [])
    then (s, err branch_pinned)
    else (record s { override_branch = name }, ok tt)

-- Param
unfoldable pub param : Session → Bytes → Option Bytes
param s key = s.params key

-- User
unfoldable pub user : Session → Bytes
unfolding param_or
user s =
    param_or (s.params (codes "user"))
      (if not (eqb s.auth.sub []) then s.auth.sub else codes "postgres")

module _ (norm : Bytes → Bytes) (equal_fold : Bytes → Bytes → Bool) where
  -- SetSetting
  unfoldable pub set_setting : Session → Bytes → Bytes → Session
  set_setting s key v =
      let old : StringMap = elim s.settings [ none ↦ no_entries | some m ↦ m ] in
      record s { settings = some (set_entry (norm key) v old) }

  -- GetSetting
  unfoldable pub get_setting : Session → Bytes → Option Bytes
  get_setting s key = elim s.settings [ none ↦ none | some m ↦ m (norm key) ]

  -- ResetSetting
  unfoldable pub reset_setting : Session → Bytes → Session
  reset_setting s key = elim s.settings [
    | none ↦ s
    | some m ↦ record s { settings = some (remove_entry (norm key) m) }
  ]

  -- ResetAllSettings
  unfoldable pub reset_all_settings : Session → Session
  reset_all_settings s = record s { settings = none }

  -- IsBypassRLS
  unfoldable pub is_bypass_rls : Session → Bool
  is_bypass_rls s = equal_fold s.auth.role (codes "admin")
