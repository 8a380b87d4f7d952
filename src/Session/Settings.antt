-- ===== src/Session/Settings.antt =====
-- The session's settings and its branch, over any sequence of calls.
use basuyudb.Base.{
  ◌≡◌, ◌≢◌, ◌∙◌, sym, refl, ap, Bool, true, false, Option-cases, inl, inr, List, [], ◌∷◌, Bytes,
  eqb, eqb_iff, Option, none, some, ok, err, branch_pinned, if◌then◌else◌, arith,
}
use basuyudb.Session.{
  Session, branch, set_branch, set_setting, get_setting, reset_setting, reset_all_settings,
}

-- A call that changes a session's settings.
pub data Call : Type 0 where
  set : Bytes → Bytes → Call
  reset : Bytes → Call
  reset_all : Call

abbrev nothing : Option Bytes
nothing = none

same_or : (b : Bool) → (if b then nothing else nothing) ≡ nothing
same_or true = refl
same_or false = refl

module _ (norm : Bytes → Bytes) (equal_fold : Bytes → Bytes → Bool) where
  abbrev pub do_call : Session → Call → Session
  do_call s (set key v) = set_setting norm equal_fold s key v
  do_call s (reset key) = reset_setting norm equal_fold s key
  do_call s reset_all = reset_all_settings norm equal_fold s

  abbrev pub run_calls : Session → List Call → Session
  run_calls s [] = s
  run_calls s (c ∷ cs) = run_calls (do_call s c) cs

  -- What the calls leave at a normalised name, read off them one by one.
  abbrev pub left_by : Bytes → Option Bytes → List Call → Option Bytes
  left_by k old [] = old
  left_by k old (set key v ∷ cs) = left_by k (if eqb (norm key) (norm k) then some v else old) cs
  left_by k old (reset key ∷ cs) = left_by k (if eqb (norm key) (norm k) then none else old) cs
  left_by k old (reset_all ∷ cs) = left_by k none cs

  one_call :
      (s : Session) (c : Call) (cs : List Call) (k : Bytes)
      → left_by k (get_setting norm equal_fold (do_call s c) k) cs
        ≡ left_by k (get_setting norm equal_fold s k) (c ∷ cs)
  unfolding get_setting set_setting reset_setting reset_all_settings
  one_call s (set key v) cs k = elim (Option-cases s.settings) [
    | inl e ↦ rw (e, get_setting) refl
    | inr (m, e) ↦ rw (e, get_setting) refl
  ]
  one_call s (reset key) cs k = elim (Option-cases s.settings) [
    | inl e ↦
        rw (e, get_setting, e) (ap (λ o. left_by k o cs) (sym (same_or (eqb (norm key) (norm k)))))
    | inr (m, e) ↦ rw (e, get_setting) refl
  ]
  one_call s reset_all cs k = refl

  -- After any sequence of calls, a setting is what the last call that concerns its name has left, where
  -- two names concern each other if they are normalised to one.
  pub get_setting-run_calls :
      (s : Session) (cs : List Call) (k : Bytes)
      → get_setting norm equal_fold (run_calls s cs) k
        ≡ left_by k (get_setting norm equal_fold s k) cs
  get_setting-run_calls s [] k = refl
  get_setting-run_calls s (c ∷ cs) k = get_setting-run_calls (do_call s c) cs k ∙ one_call s c cs k

-- A branch that the token pins is the session's branch, and SetBranch is refused and changes nothing;
-- without one, SetBranch to a name that is not empty makes it the session's branch.
pub branch-set_branch :
    (s : Session) (name : Bytes)
    → (s.auth.branch ≢ []
        → (set_branch s name ≡ (s, err branch_pinned)) × (branch s ≡ s.auth.branch))
      × (s.auth.branch ≡ []
          → name ≢ []
          → ((set_branch s name).1 ≡ ok tt) × (branch (set_branch s name).0 ≡ name))
unfolding set_branch branch eqb
branch-set_branch s name = (
  λ h.
      let e : eqb s.auth.branch [] ≡ false = ground (arith, eqb_iff s.auth.branch []) in
      (rw e refl, rw e refl),
  λ h k.
      let e : eqb name [] ≡ false = ground (arith, eqb_iff name []) in
      rw (h, eqb) (refl, rw e refl),
)
