-- ===== src/Storage/Mvcc/Reads.antt =====
-- How a committed batch changes what reads at each timestamp see.
use basuyudb.Base.{
  ℕ, ◌≤◌, ◌<◌, ◌≡◌, refl, List, [], ◌∷◌, ◌++◌, Bytes, Option, none, some, eqb, eqb_iff, All,
  if◌then◌else◌, arith, Option-cases, inl, inr, Bool-cases,
}
use basuyudb.Storage.Mvcc.History.{Version, Write, stamp, newest}

-- The latest write of a key in a batch.
unfoldable pub find_write : List Write → Bytes → Option (Option Bytes)
find_write [] k = none
find_write ((j, v) ∷ ws) k = let rest = find_write ws k in if eqb j k then some v else rest

-- A key's version from the batch, if it wrote the key, or else what was there.
abbrev pub overlay : Bytes → ℕ → Option (Option Bytes) → Option Version → Option Version
overlay k ts (some v) old = some (record { key = k; ts = ts; value = v })
overlay k ts none old = old

abbrev pub UpTo : ℕ → List Version → Type 0
UpTo m = All (λ (v : Version). v.ts ≤ m)

pub newest_bound :
    (h : List Version) (m t : ℕ) (k : Bytes) (w : Version)
    → UpTo m h
    → newest h t k ≡ some w
    → w.ts ≤ m
unfolding newest
newest_bound [] m t k w u e = cc
newest_bound (v ∷ h) m t k w u e = elim (Option-cases (newest h t k)) [
  | inl f ↦ ground (arith, f)
  | inr (x, f) ↦ ground (arith, f, newest_bound h m t k x u.1 f)
]

-- A read at a time from the commit on sees the batch's writes, and the old versions of other keys.
pub newest-commit :
    (ws : List Write) (h : List Version) (ts t : ℕ) (k : Bytes)
    → UpTo ts h
    → ts ≤ t
    → newest (stamp ts ws ++ h) t k ≡ overlay k ts (find_write ws k) (newest h t k)
unfolding newest find_write
newest-commit [] h ts t k u le = refl
newest-commit ((j, v) ∷ ws) h ts t k u le = elim (Bool-cases (eqb j k)) [
  | inl e ↦ elim (Option-cases (newest h t k)) [
    | inl f ↦ ground (arith, newest-commit ws h ts t k u le, (eqb_iff j k).0 e, e, f)
    | inr (x, f) ↦ ground (
      arith,
      newest-commit ws h ts t k u le,
      (eqb_iff j k).0 e,
      e,
      f,
      newest_bound h ts t k x u f,
    )
  ]
  | inr e ↦ ground (arith, newest-commit ws h ts t k u le, e)
]

-- A read at an earlier time sees nothing of it.
pub newest_before :
    (ws : List Write) (h : List Version) (ts t : ℕ) (k : Bytes)
    → t < ts
    → newest (stamp ts ws ++ h) t k ≡ newest h t k
unfolding newest
newest_before [] h ts t k lt = refl
newest_before ((j, v) ∷ ws) h ts t k lt = ground (arith, newest_before ws h ts t k lt)

-- Two times from all versions on see the same.
pub newest_late :
    (h : List Version) (m t t' : ℕ) (k : Bytes)
    → UpTo m h
    → m ≤ t
    → m ≤ t'
    → newest h t k ≡ newest h t' k
unfolding newest
newest_late [] m t t' k u p q = refl
newest_late (v ∷ h) m t t' k u p q = ground (arith, newest_late h m t t' k u.1 p q)

pub UpTo-commit :
    (ws : List Write) (h : List Version) (ts : ℕ) → UpTo ts h → UpTo ts (stamp ts ws ++ h)
UpTo-commit [] h ts u = u
UpTo-commit ((j, v) ∷ ws) h ts u = (omega arith, UpTo-commit ws h ts u)

pub UpTo-mono : (h : List Version) (m n : ℕ) → m ≤ n → UpTo m h → UpTo n h
UpTo-mono [] m n le u = tt
UpTo-mono (v ∷ h) m n le u = (omega arith, UpTo-mono h m n le u.1)
