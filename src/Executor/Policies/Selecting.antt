-- ===== src/Executor/Policies/Selecting.antt =====
-- Which rows a SELECT keeps under the policies of the tables that it reads.
use basuyudb.Base.{
  ◌≡◌, ◌↔◌, inl, inr, refl, subst, Bool, true, false, List, [], ◌∷◌, Bytes, codes, ok,
  if◌then◌else◌, All, Bool-cases, Result-cases,
}
use basuyudb.Session.{Session, user}
use basuyudb.Executor.Policies.{Binding, rls_applies, rls_row_allowed, keep_row, apply_rls_select}
use basuyudb.Executor.Policies.Enforcement.{Allowed, rls_row_allowed-Allowed}

module _ (equal_fold : Bytes → Bytes → Bool) (sess : Session) where
  -- Under every binding for which row-level security is on, the policies let the row pass.
  abbrev pub Visible : List (Binding equal_fold) → Type 0
  Visible = All (λ b.
      rls_applies equal_fold b.schema sess ≡ true
      → Allowed equal_fold b.eval_cells (λ p. p.using_expr) (codes "SELECT") (user sess)
          b.schema.policies)

  -- The second list has the rows of the first that are visible, in their order.
  pub data Selected
      : List (List (Binding equal_fold)) → List (List (Binding equal_fold)) → Type 0 where
    nothing_left : Selected [] []
    kept :
        {row : List (Binding equal_fold)} {rows out : List (List (Binding equal_fold))}
        → Visible row
        → Selected rows out
        → Selected (row ∷ rows) (row ∷ out)
    hidden :
        {row : List (Binding equal_fold)} {rows out : List (List (Binding equal_fold))}
        → ¬ Visible row
        → Selected rows out
        → Selected (row ∷ rows) out

  keep_row-Visible :
      (row : List (Binding equal_fold)) → (keep_row equal_fold sess row ≡ ok true) ↔ Visible row
  unfolding keep_row
  keep_row-Visible [] = (λ h. tt, λ h. refl)
  keep_row-Visible (b ∷ row) =
      let (to, from) = keep_row-Visible row in
      let (sound, complete) =
        rls_row_allowed-Allowed equal_fold b.eval_cells b.schema sess (codes "SELECT") in
      elim (Bool-cases (rls_applies equal_fold b.schema sess)) [
        | inr f ↦ (λ h. (λ g. cc, to (rw (keep_row, f) at h)), λ v. rw f (from v.1))
        | inl g ↦ (
          λ h.
              elim (Result-cases
                (rls_row_allowed equal_fold b.eval_cells b.schema sess (codes "SELECT"))) [
                  | inl (true, o) ↦ (λ k. sound o, to (rw (keep_row, g, o) at h))
                  | inl (false, o) ↦ absurd (let k = rw (keep_row, g, o) at h in cc)
                  | inr (x, o) ↦ absurd (let k = rw (keep_row, g, o) at h in cc)
                ],
          λ v. rw (g, complete (v.0 g)) (from v.1),
        )
      ]

  -- applyRLSSelect, where no predicate fails: the result has, in their order, exactly the rows that the policies of every
  -- table with active row-level security in the row let pass for SELECT and the session's user.
  pub apply_rls_select-Selected :
      (rows : List (List (Binding equal_fold))) {out : List (List (Binding equal_fold))}
      → apply_rls_select equal_fold sess rows ≡ ok out
      → Selected rows out
  unfolding apply_rls_select
  apply_rls_select-Selected [] {out} h = let e : [] ≡ out = cc in subst (Selected []) e nothing_left
  apply_rls_select-Selected (row ∷ rows) {out} h =
      elim (Result-cases (keep_row equal_fold sess row)) [
        | inr (x, o) ↦ absurd (let k = rw (apply_rls_select, o) at h in cc)
        | inl (keep, o) ↦ elim (Result-cases (apply_rls_select equal_fold sess rows)) [
          | inr (x, p) ↦ absurd (let k = rw (apply_rls_select, o, p) at h in cc)
          | inl (rest, p) ↦
              let e : (if keep then row ∷ rest else rest) ≡ out =
                let k = rw (apply_rls_select, o, p) at h in cc in
              subst (Selected (row ∷ rows)) e
                (add keep o (apply_rls_select-Selected rows {out = rest} p))
        ]
      ]
    where
      add :
          {rest : List (List (Binding equal_fold))} (keep : Bool)
          → keep_row equal_fold sess row ≡ ok keep
          → Selected rows rest
          → Selected (row ∷ rows) (if keep then row ∷ rest else rest)
      add true o s = kept ((keep_row-Visible row).0 o) s
      add false o s = hidden (λ v. let k = (keep_row-Visible row).1 v in cc) s
