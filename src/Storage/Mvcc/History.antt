-- ===== src/Storage/Mvcc/History.antt =====
-- The versions of a multi-version store, and what a read at a timestamp sees of them.
use basuyudb.Base.{
  ℕ, ◌≡◌, ◌&&◌, List, [], ◌∷◌, Bytes, Option, none, some, eqb, cmp, Ordering, has_prefix, Result,
  ok, err, key_not_found, leb, if◌then◌else◌,
}

-- A key, its commit timestamp, and its value; no value is a delete.
pub record Version : Type 0 where
  pub key : Bytes
  pub ts : ℕ
  pub value : Option Bytes

-- One write of a batch.
abbrev pub Write : Type 0
Write = Bytes × Option Bytes

-- One entry of a scan.
abbrev pub Entry : Type 0
Entry = Bytes × Bytes

-- A committed batch.
abbrev pub stamp : ℕ → List Write → List Version
stamp ts [] = []
stamp ts ((k, v) ∷ ws) = record { key = k; ts = ts; value = v } ∷ stamp ts ws

-- The newer of two findings; the first wins at one timestamp.
abbrev pub newer : Version → Option Version → Version
newer v none = v
newer v (some w) = if leb w.ts v.ts then v else w

-- The newest version of a key that is not newer than `ts`. Of two at one timestamp, that which
-- stands first (which was written later).
unfoldable pub newest : List Version → ℕ → Bytes → Option Version
newest [] ts k = none
newest (v ∷ h) ts k =
    let rest = newest h ts k in if eqb v.key k && leb v.ts ts then some (newer v rest) else rest

-- The answer of a `Get`.
abbrev pub answer : Option Version → Result (Bytes × ℕ)
answer none = err key_not_found
answer (some v) = elim v.value [ none ↦ err key_not_found | some x ↦ ok (x, v.ts) ]

-- The value that is live.
abbrev pub live : Option Version → Option Bytes
live none = none
live (some v) = v.value

-- A look into the entries of a scan.
unfoldable pub lookup : Bytes → List Entry → Option Bytes
lookup k [] = none
lookup k ((j, v) ∷ es) = let rest = lookup k es in if eqb j k then some v else rest

-- Strictly ascending keys.
abbrev pub Above : Bytes → List Entry → Type 0
Above k [] = Unit
Above k ((j, v) ∷ es) = cmp k j ≡ Ordering.lt

abbrev pub IsAscending : List Entry → Type 0
IsAscending [] = Unit
IsAscending ((k, v) ∷ es) = Above k es × IsAscending es

-- The versions that a drop of a prefix leaves.
unfoldable pub without_prefix : Bytes → List Version → List Version
without_prefix p [] = []
without_prefix p (v ∷ h) =
    let rest = without_prefix p h in if has_prefix v.key p then rest else v ∷ rest
