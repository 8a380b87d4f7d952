-- ===== src/Executor/PolicyStatements/Catalog.antt =====
-- What the policy statements make of a table's policies.
use basuyudb.Base.{
  ◌≡◌, inl, inr, refl, sym, subst, ap, ◌∙◌, ℕ, suc, Bool, false, List, [], ◌∷◌, ◌++◌, Bytes, Option,
  none, some, Result, ok, All, arith, Bool-cases, Result-cases, Option-cases, take, drop,
}
use basuyudb.Executor.Catalog.{RlsPolicy, TableSchema, find_in, find_policy, next_policy}
use basuyudb.Executor.PolicyStatements.{
  CreatePolicyStmt, AlterPolicyStmt, DropPolicyStmt, store, new_policy, add_policy, altered,
  alter_policy_in, remove_policy,
}

module _ (equal_fold : Bytes → Bytes → Bool) where
  -- No two policies of the list have one name.
  abbrev pub DistinctNames : List RlsPolicy → Type 0
  DistinctNames [] = Unit {0}
  DistinctNames (p ∷ ps) = All (λ q. equal_fold p.name q.name ≡ false) ps × DistinctNames ps

  abbrev Unnamed : Bytes → List RlsPolicy → Type 0
  Unnamed name = All (λ p. equal_fold p.name name ≡ false)

  next_none : (o : Option (RlsPolicy × ℕ)) → next_policy o ≡ none → o ≡ none
  unfolding next_policy
  next_none none h = refl
  next_none (some (p, i)) h = cc

  find_in-Unnamed :
      (ps : List RlsPolicy) (name : Bytes) → find_in equal_fold ps name ≡ none → Unnamed name ps
  unfolding find_in
  find_in-Unnamed [] name h = tt
  find_in-Unnamed (p ∷ ps) name h = elim (Bool-cases (equal_fold p.name name)) [
    | inl e ↦ absurd (let k = rw (find_in, e) at h in cc)
    | inr e ↦
        (e, find_in-Unnamed ps name (next_none (find_in equal_fold ps name) (rw (find_in, e) at h)))
  ]

  All-snoc :
      (name : Bytes) (ps : List RlsPolicy) (p : RlsPolicy)
      → All (λ q. equal_fold name q.name ≡ false) ps
      → equal_fold name p.name ≡ false
      → All (λ q. equal_fold name q.name ≡ false) (ps ++ (p ∷ []))
  All-snoc name [] p a h = (h, tt)
  All-snoc name (q ∷ ps) p (a, b) h = (a, All-snoc name ps p b h)

  snoc-DistinctNames :
      (ps : List RlsPolicy) (p : RlsPolicy)
      → DistinctNames ps
      → Unnamed p.name ps
      → DistinctNames (ps ++ (p ∷ []))
  snoc-DistinctNames [] p d u = (tt, tt)
  snoc-DistinctNames (q ∷ ps) p (a, d) (u, v) =
      (All-snoc q.name ps p a u, snoc-DistinctNames ps p d v)

  next_some :
      (o : Option (RlsPolicy × ℕ)) (p : RlsPolicy) (i : ℕ)
      → next_policy o ≡ some (p, i)
      → (j : ℕ) × (o ≡ some (p, j)) × (i ≡ suc j)
  unfolding next_policy
  next_some none p i h = cc
  next_some (some (q, j)) p i h =
      let a : q ≡ p = cc in let b : suc j ≡ i = cc in (j, rw a refl, sym b)

  -- The policy that is found stands at its index.
  find_in-split :
      (ps : List RlsPolicy) (name : Bytes) (p : RlsPolicy) (i : ℕ)
      → find_in equal_fold ps name ≡ some (p, i)
      → ps ≡ take i ps ++ (p ∷ drop (suc i) ps)
  unfolding find_in
  find_in-split [] name p i h = cc
  find_in-split (q ∷ ps) name p i h = elim (Bool-cases (equal_fold q.name name)) [
    | inl e ↦
        let k : some (q, 0) ≡ some (p, i) = rw (find_in, e) at h in
        let a : q ≡ p = cc in let b : 0 ≡ i = cc in rw (← b) (rw a refl)
    | inr e ↦
        let (j, f, g) = next_some (find_in equal_fold ps name) p i (rw (find_in, e) at h) in
        rw g (ap (λ l. q ∷ l) (find_in-split ps name p j f))
  ]

  All-replace :
      (name : Bytes) (xs zs : List RlsPolicy) (p p' : RlsPolicy)
      → p'.name ≡ p.name
      → All (λ q. equal_fold name q.name ≡ false) (xs ++ (p ∷ zs))
      → All (λ q. equal_fold name q.name ≡ false) (xs ++ (p' ∷ zs))
  All-replace name [] zs p p' e (a, b) = (ap (equal_fold name) e ∙ a, b)
  All-replace name (x ∷ xs) zs p p' e (a, b) = (a, All-replace name xs zs p p' e b)

  replace-DistinctNames :
      (xs zs : List RlsPolicy) (p p' : RlsPolicy)
      → p'.name ≡ p.name
      → DistinctNames (xs ++ (p ∷ zs))
      → DistinctNames (xs ++ (p' ∷ zs))
  replace-DistinctNames [] zs p p' e (a, d) =
      (subst (λ n. All (λ q. equal_fold n q.name ≡ false) zs) (sym e) a, d)
  replace-DistinctNames (x ∷ xs) zs p p' e (a, d) =
      (All-replace x.name xs zs p p' e a, replace-DistinctNames xs zs p p' e d)

  All-remove :
      (name : Bytes) (xs zs : List RlsPolicy) (p : RlsPolicy)
      → All (λ q. equal_fold name q.name ≡ false) (xs ++ (p ∷ zs))
      → All (λ q. equal_fold name q.name ≡ false) (xs ++ zs)
  All-remove name [] zs p (a, b) = b
  All-remove name (x ∷ xs) zs p (a, b) = (a, All-remove name xs zs p b)

  remove-DistinctNames :
      (xs zs : List RlsPolicy) (p : RlsPolicy)
      → DistinctNames (xs ++ (p ∷ zs))
      → DistinctNames (xs ++ zs)
  remove-DistinctNames [] zs p (a, d) = d
  remove-DistinctNames (x ∷ xs) zs p (a, d) =
      (All-remove x.name xs zs p a, remove-DistinctNames xs zs p d)

  module _ {Expr : Type 0} (to_upper : Bytes → Bytes) (deparse : Expr → Result Bytes) where
    new_policy-name :
        (s : CreatePolicyStmt Expr) (p : RlsPolicy)
        → new_policy equal_fold to_upper deparse s ≡ ok p
        → p.name ≡ s.policy_name
    unfolding new_policy
    new_policy-name s p h = ground arith

    altered-name :
        (s : AlterPolicyStmt Expr) (p p' : RlsPolicy)
        → altered equal_fold to_upper deparse s p ≡ ok p'
        → p'.name ≡ p.name
    unfolding altered
    altered-name s p p' h = ground arith

    -- A policy statement that changes the schema.
    pub data Changes (sch : TableSchema) : TableSchema → Type 0 where
      created :
          (s : CreatePolicyStmt Expr) {sch' : TableSchema}
          → add_policy equal_fold to_upper deparse s sch ≡ ok (store sch')
          → Changes sch sch'
      was_altered :
          (s : AlterPolicyStmt Expr) {sch' : TableSchema}
          → alter_policy_in equal_fold to_upper deparse s sch ≡ ok (store sch')
          → Changes sch sch'
      removed :
          (s : DropPolicyStmt) {sch' : TableSchema}
          → remove_policy equal_fold to_upper deparse s sch ≡ ok (store sch')
          → Changes sch sch'

    -- No two policies of a table ever have one name (up to letter case): CREATE POLICY, ALTER POLICY and DROP POLICY keep
    -- that so.
    pub Changes-DistinctNames :
        {sch sch' : TableSchema}
        → Changes sch sch'
        → DistinctNames sch.policies
        → DistinctNames sch'.policies
    unfolding add_policy find_policy alter_policy_in remove_policy
    Changes-DistinctNames {sch} {sch'} (created s h) d =
        elim (Option-cases (find_in equal_fold sch.policies s.policy_name)) [
          | inr (x, f) ↦ absurd (let k = rw (add_policy, f) at h in cc)
          | inl f ↦ elim (Result-cases (new_policy equal_fold to_upper deparse s)) [
            | inr (x, g) ↦ absurd (let k = rw (add_policy, f, g) at h in cc)
            | inl (p, g) ↦
                let k : ok (store (record sch { policies = sch.policies ++ (p ∷ []) }))
                    ≡ ok (store sch') =
                  rw (add_policy, f, g) at h in
                let e : sch.policies ++ (p ∷ []) ≡ sch'.policies = cc in
                subst DistinctNames e (
                  snoc-DistinctNames sch.policies p d (
                    subst (λ n. Unnamed n sch.policies) (sym (new_policy-name s p g))
                      (find_in-Unnamed sch.policies s.policy_name f)))
          ]
        ]
    Changes-DistinctNames {sch} {sch'} (was_altered s h) d =
        elim (Option-cases (find_in equal_fold sch.policies s.policy_name)) [
          | inl f ↦ absurd (let k = rw (alter_policy_in, f) at h in cc)
          | inr ((p, i), f) ↦ elim (Result-cases (altered equal_fold to_upper deparse s p)) [
            | inr (x, g) ↦ absurd (let k = rw (alter_policy_in, f, g) at h in cc)
            | inl (p', g) ↦
                let ps = take i sch.policies ++ (p' ∷ drop (suc i) sch.policies) in
                let k : ok (store (record sch { policies = ps })) ≡ ok (store sch') =
                  rw (alter_policy_in, f, g) at h in
                let e : ps ≡ sch'.policies = cc in
                subst DistinctNames e (
                  replace-DistinctNames (take i sch.policies) (drop (suc i) sch.policies) p p'
                    (altered-name s p p' g)
                    (subst DistinctNames (find_in-split sch.policies s.policy_name p i f) d))
          ]
        ]
    Changes-DistinctNames {sch} {sch'} (removed s h) d =
        elim (Option-cases (find_in equal_fold sch.policies s.policy_name)) [
          | inl f ↦ absurd (let k = rw (remove_policy, f) at h in ground arith)
          | inr ((p, i), f) ↦
              let ps = take i sch.policies ++ drop (suc i) sch.policies in
              let k : ok (store (record sch { policies = ps })) ≡ ok (store sch') =
                rw (remove_policy, f) at h in
              let e : ps ≡ sch'.policies = cc in
              subst DistinctNames e (
                remove-DistinctNames (take i sch.policies) (drop (suc i) sch.policies) p
                  (subst DistinctNames (find_in-split sch.policies s.policy_name p i f) d))
        ]
