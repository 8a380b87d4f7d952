-- ===== src/Base/Errors.antt =====
-- Go's `(value, error)` pairs: the errors that the modelled packages return, and the chain of calls
-- that stops at the first of them.
use mathlib.Core.Path.{◌≡◌, refl}
use mathlib.Core.Logic.{◌⊎◌, inl, inr}

-- `io` stands for every error of the storage library other than its "key not found".
pub data Error : Type 0 where
  key_not_found io : Error
  txn_done write_conflict : Error
  branch_exists no_such_branch cannot_modify_main corrupt_metadata merge_conflicts : Error
  short_proposal truncated_header truncated_key truncated_value : Error
  eof unexpected_eof : Error
  zero_namespace invalid_namespace no_single_namespace no_claims : Error
  branch_pinned no_sequence : Error
  bad_text : Error
  corrupt_row tombstone_row truncated_cell_header truncated_cell_value : Error
  no_such_table corrupt_schema duplicate_policy no_such_policy row_policy_violation : Error
  invalid_message_length invalid_startup_length : Error
  division_by_zero invalid_number invalid_integer invalid_float unsupported_operator
        undefined_column :
      Error

pub data Result {ℓ} (A : Type ℓ) : Type ℓ where
  ok : A → Result A
  err : Error → Result A

infixl 5 ◌>>=◌
abbrev pub ◌>>=◌ {ℓ κ} : {A : Type ℓ} {B : Type κ} → Result A → (A → Result B) → Result B
ok a >>= f = f a
err e >>= f = err e

pub Result-cases {ℓ} :
    {A : Type ℓ} (r : Result A) → ((a : A) × (r ≡ ok a)) ⊎ ((e : Error) × (r ≡ err e))
Result-cases (ok a) = inl (a, refl)
Result-cases (err e) = inr (e, refl)

-- A chain that ends with a result went through both of its calls.
pub >>=-eq-ok {ℓ κ} :
    {First : Type ℓ} {Second : Type κ} (r : Result First) (next : First → Result Second)
    {y : Second}
    → r >>= next ≡ ok y
    → (x : First) × (r ≡ ok x) × (next x ≡ ok y)
>>=-eq-ok (err e) next went = cc
>>=-eq-ok (ok x) next went = (x, refl, went)
