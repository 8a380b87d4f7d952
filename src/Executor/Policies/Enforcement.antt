-- ===== src/Executor/Policies/Enforcement.antt =====
-- Which rows the policies of a table let pass.
use basuyudb.Base.{
  ap, ◌≡◌, ◌↔◌, ◌⊎◌, inl, inr, refl, ◌∙◌, Bool, true, false, not, List, [], ◌∷◌, Bytes, Option,
  Result, ok, err, ◌>>=◌, ◌||◌, if◌then◌else◌, All, Any, arith, row_policy_violation, Bool-cases,
  Result-cases,
}
use basuyudb.Session.{Session, user}
use basuyudb.Executor.Catalog.{RlsPolicy, TableSchema}
use basuyudb.Executor.Policies.{
  eval_policy_predicate, governs, permissive_turn, permissive_loop, restrictive_turn,
  restrictive_loop, check_policies, rls_row_allowed, rls_check_new_row, policy_check_expr,
}

module _ (equal_fold : Bytes → Bytes → Bool) (eval : Bytes → Result (Option Bool))
    (expr_of : RlsPolicy → Bytes) (cmd who : Bytes) where
  -- The policy's predicate is evaluated without an error.
  abbrev pub Answers : RlsPolicy → Type 0
  Answers p = (b : Bool) × (eval_policy_predicate eval (expr_of p) true ≡ ok b)

  abbrev pub Passes : RlsPolicy → Type 0
  Passes p = eval_policy_predicate eval (expr_of p) true ≡ ok true

  abbrev pub Governs : RlsPolicy → Type 0
  Governs p = governs equal_fold cmd who p ≡ true

  -- What the policies say together.
  pub record Allowed (ps : List RlsPolicy) : Type 0 where
    pub no_error : All (λ p. Governs p → p.permissive ≡ true → Answers p) ps
    pub some_permissive : Any (λ p. Governs p × (p.permissive ≡ true) × Passes p) ps
    pub every_restrictive : All (λ p. Governs p → p.permissive ≡ false → Passes p) ps

  -- A turn of the first loop either leaves what was met, or evaluates a governing permissive policy.
  permissive_turn_cases :
      (p : RlsPolicy) (m q : Bool)
      → ((permissive_turn equal_fold eval expr_of cmd who p (m, q) ≡ ok (m, q))
          × ¬ (Governs p × (p.permissive ≡ true)))
        ⊎ ((permissive_turn equal_fold eval expr_of cmd who p (m, q) ≡ (
              eval_policy_predicate eval (expr_of p) true >>= λ b.
              ok (true, if b then true else q)))
            × Governs p
            × (p.permissive ≡ true))
  unfolding permissive_turn
  permissive_turn_cases p m q = elim (Bool-cases (governs equal_fold cmd who p)) [
    | inr f ↦ inl (rw f refl, λ g. cc (g.0))
    | inl g ↦ elim (Bool-cases p.permissive) [
      | inr f ↦ inl (rw (g, f) refl, λ g. cc (g.1))
      | inl f ↦ inr (rw (g, f) refl, g, f)
    ]
  ]

  permissive_loop_sound :
      (ps : List RlsPolicy) (m q m' : Bool)
      → permissive_loop equal_fold eval expr_of cmd who ps (m, q) ≡ ok (m', true)
      → All (λ p. Governs p → p.permissive ≡ true → Answers p) ps
        × ((q ≡ true) ⊎ Any (λ p. Governs p × (p.permissive ≡ true) × Passes p) ps)
  unfolding permissive_loop
  permissive_loop_sound [] m q m' h = (tt, inl (cc))
  permissive_loop_sound (p ∷ ps) m q m' h = elim (permissive_turn_cases p m q) [
    | inl (e, n) ↦
        let (a, b) = permissive_loop_sound ps m q m' (rw (permissive_loop, e) at h) in
        ((λ g f. absurd (n (g, f)), a), elim b [ inl x ↦ inl x | inr y ↦ inr (inr y) ])
    | inr (e, g, f) ↦ elim (Result-cases (eval_policy_predicate eval (expr_of p) true)) [
      | inr (x, o) ↦ absurd (let k = rw (permissive_loop, e, o) at h in cc)
      | inl (b, o) ↦
          let (a, c) =
            permissive_loop_sound ps true (if b then true else q) m'
              (rw (permissive_loop, e, o) at h) in
          (
            (λ g f. (b, o), a),
            elim c [
              | inl x ↦ elim (Bool-cases b) [
                | inl y ↦ inr (inl (g, f, o ∙ ap ok y))
                | inr y ↦ inl (ground arith)
              ]
              | inr y ↦ inr (inr y)
            ],
          )
    ]
  ]

  permissive_loop_complete :
      (ps : List RlsPolicy) (m q : Bool)
      → All (λ p. Governs p → p.permissive ≡ true → Answers p) ps
      → ((m ≡ true) × (q ≡ true)) ⊎ Any (λ p. Governs p × (p.permissive ≡ true) × Passes p) ps
      → permissive_loop equal_fold eval expr_of cmd who ps (m, q) ≡ ok (true, true)
  unfolding permissive_loop
  permissive_loop_complete [] m q a (inl (x, y)) = rw (x, y) refl
  permissive_loop_complete [] m q a (inr n) = absurd n
  permissive_loop_complete (p ∷ ps) m q (a, rest) b = elim (permissive_turn_cases p m q) [
    | inl (e, n) ↦ rw e (permissive_loop_complete ps m q rest (skip b n))
    | inr (e, g, f) ↦
        let (v, o) = a g f in
        rw (e, o) (permissive_loop_complete ps true (if v then true else q) rest (seen v o b))
  ]
    where
      skip :
          ((m ≡ true) × (q ≡ true))
            ⊎ Any (λ p. Governs p × (p.permissive ≡ true) × Passes p) (p ∷ ps)
          → ¬ (Governs p × (p.permissive ≡ true))
          → ((m ≡ true) × (q ≡ true)) ⊎ Any (λ p. Governs p × (p.permissive ≡ true) × Passes p) ps
      skip (inl x) n = inl x
      skip (inr (inl (g, f, o))) n = absurd (n (g, f))
      skip (inr (inr y)) n = inr y

      seen :
          (v : Bool)
          → eval_policy_predicate eval (expr_of p) true ≡ ok v
          → ((m ≡ true) × (q ≡ true))
            ⊎ Any (λ p. Governs p × (p.permissive ≡ true) × Passes p) (p ∷ ps)
          → (◌≡◌ {A = Bool} true true × ((if v then true else q) ≡ true))
            ⊎ Any (λ p. Governs p × (p.permissive ≡ true) × Passes p) ps
      seen true o x = inl (refl, refl)
      seen false o (inl (x, y)) = inl (refl, y)
      seen false o (inr (inl (g, f, z))) = cc
      seen false o (inr (inr y)) = inr y

  restrictive_turn_cases :
      (p : RlsPolicy)
      → ((restrictive_turn equal_fold eval expr_of cmd who p ≡ ok true)
          × ¬ (Governs p × (p.permissive ≡ false)))
        ⊎ ((restrictive_turn equal_fold eval expr_of cmd who p
              ≡ eval_policy_predicate eval (expr_of p) true)
            × Governs p
            × (p.permissive ≡ false))
  unfolding restrictive_turn
  restrictive_turn_cases p = elim (Bool-cases (governs equal_fold cmd who p)) [
    | inr f ↦ inl (rw f (ground arith), λ g. cc (g.0))
    | inl g ↦ elim (Bool-cases p.permissive) [
      | inl f ↦ inl (rw (g, f) refl, λ g. cc (g.1))
      | inr f ↦ inr (rw (g, f) refl, g, f)
    ]
  ]

  restrictive_loop_iff :
      (ps : List RlsPolicy)
      → (restrictive_loop equal_fold eval expr_of cmd who ps ≡ ok true)
        ↔ All (λ p. Governs p → p.permissive ≡ false → Passes p) ps
  unfolding restrictive_loop
  restrictive_loop_iff [] = (λ h. tt, λ h. refl)
  restrictive_loop_iff (p ∷ ps) =
      let (to, from) = restrictive_loop_iff ps in
      elim (restrictive_turn_cases p) [
        | inl (e, n) ↦ (
          λ h. (λ g f. absurd (n (g, f)), to (rw (restrictive_loop, e) at h)),
          λ h. rw e (from h.1),
        )
        | inr (e, g, f) ↦ (
          λ h. elim (Result-cases (eval_policy_predicate eval (expr_of p) true)) [
            | inl (true, o) ↦ (λ g f. o, to (rw (restrictive_loop, e, o) at h))
            | inl (false, o) ↦ absurd (let k = rw (restrictive_loop, e, o) at h in cc)
            | inr (x, o) ↦ absurd (let k = rw (restrictive_loop, e, o) at h in cc)
          ],
          λ h. rw (e, h.0 g f) (from h.1),
        )
      ]

  -- The two loops let a row pass exactly if the governing permissive policies are evaluated without an error, one of
  -- them passes, and every governing restrictive policy passes.
  pub check_policies-Allowed :
      (ps : List RlsPolicy)
      → (check_policies equal_fold eval expr_of cmd who ps ≡ ok true) ↔ Allowed ps
  unfolding check_policies
  check_policies-Allowed ps = (to, from)
    where
      both :
          (m q : Bool)
          → permissive_loop equal_fold eval expr_of cmd who ps (false, false) ≡ ok (m, q)
          → (if not m || not q
              then ok false
              else restrictive_loop equal_fold eval expr_of cmd who ps)
            ≡ ok true
          → Allowed ps
      both false q o h = cc
      both true false o h = cc
      both true true o h =
          let (a, b) = permissive_loop_sound ps false false true o in
          record {
            no_error = a;
            some_permissive = elim b [ inl x ↦ absurd (cc) | inr y ↦ y ];
            every_restrictive = (restrictive_loop_iff ps).0 h;
          }

      to : check_policies equal_fold eval expr_of cmd who ps ≡ ok true → Allowed ps
      to h =
          elim (Result-cases (permissive_loop equal_fold eval expr_of cmd who ps (false, false))) [
            | inr (x, o) ↦ absurd (let k = rw (check_policies, o) at h in cc)
            | inl ((m, q), o) ↦ both m q o (rw (check_policies, o) at h)
          ]

      from : Allowed ps → check_policies equal_fold eval expr_of cmd who ps ≡ ok true
      from a =
          rw (permissive_loop_complete ps false false a.no_error (inr a.some_permissive))
            ((restrictive_loop_iff ps).1 a.every_restrictive)

module _ (equal_fold : Bytes → Bytes → Bool) (eval : Bytes → Result (Option Bool))
    (sch : TableSchema) (sess : Session) (cmd : Bytes) where
  -- rlsRowAllowed lets an existing row pass exactly if every permissive policy of the table that governs the command and
  -- the user has a USING predicate that is evaluated without an error, at least one of these predicates is true (or empty),
  -- and the USING predicate of every restrictive policy that governs them is true (or empty). So no row passes where no
  -- permissive policy governs.
  pub rls_row_allowed-Allowed :
      (rls_row_allowed equal_fold eval sch sess cmd ≡ ok true)
      ↔ Allowed equal_fold eval (λ p. p.using_expr) cmd (user sess) sch.policies
  unfolding rls_row_allowed
  rls_row_allowed-Allowed =
      check_policies-Allowed equal_fold eval (λ p. p.using_expr) cmd (user sess) sch.policies

  allowed_or_violation :
      (r : Result Bool)
      → (◌≡◌ {A = Result (Unit {0})}
          (r >>= λ b. if b then ok tt else err row_policy_violation)
          (ok tt))
        ↔ (r ≡ ok true)
  allowed_or_violation (ok true) = (λ h. refl, λ h. refl)
  allowed_or_violation (ok false) = (λ h. cc, λ h. cc)
  allowed_or_violation (err x) = (λ h. cc, λ h. cc)

  -- rlsCheckNewRow accepts a new row exactly if every permissive policy of the table that governs the command and the user
  -- has a check (its WITH CHECK predicate, or its USING predicate where it has none) that is evaluated without an error, at
  -- least one of these checks is true (or empty), and the check of every restrictive policy that governs them is true (or
  -- empty).
  pub rls_check_new_row-Allowed :
      (rls_check_new_row equal_fold eval sch sess cmd ≡ ok tt)
      ↔ Allowed equal_fold eval policy_check_expr cmd (user sess) sch.policies
  unfolding rls_check_new_row
  rls_check_new_row-Allowed =
      let (a, b) =
        allowed_or_violation
          (check_policies equal_fold eval policy_check_expr cmd (user sess) sch.policies) in
      let (c, d) =
        check_policies-Allowed equal_fold eval policy_check_expr cmd (user sess) sch.policies in
      (λ h. c (a h), λ h. b (d h))
