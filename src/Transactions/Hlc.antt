-- ===== src/Transactions/Hlc.antt =====
-- engine/internal/transactions/hlc.go: the hybrid logical clock.
-- The wall clock is outside the program: each reading of it is an argument.
pub mod Monotone
pub mod Encoding
use basuyudb.Base.{
  ℕ, ◌+◌, ◌*◌, ◌/◌, ◌%◌, ◌^◌, ◌<◌, ◌≡◌, ◌⊎◌, ltb, leb, ◌==◌, if◌then◌else◌, List, [], ◌∷◌,
}

pub record HlcTimestamp : Type 0 where
  pub wall_nanos : ℕ
  pub logical : ℕ
  pub node_id : ℕ

pub record Hlc : Type 0 where
  pub last_wall : ℕ
  pub logical : ℕ
  pub node_id : ℕ

-- NewHLC
unfoldable pub new_hlc : ℕ → Hlc
new_hlc node_id = record { last_wall = 0; logical = 0; node_id = node_id }

-- uint32 `x++`
abbrev incr32 : ℕ → ℕ
incr32 x = (x + 1) % 2 ^ 32

-- Encode: the shift is cut to 64 bits and leaves its low 16 bits clear, so `|` adds.
unfoldable pub encode : HlcTimestamp → ℕ
encode t = t.wall_nanos / 1_000_000 * 2 ^ 16 % 2 ^ 64 + t.logical % 2 ^ 16

-- The timestamp that a method returns is the clock's new state.
abbrev pub reading : Hlc → HlcTimestamp
reading h = record { wall_nanos = h.last_wall; logical = h.logical; node_id = h.node_id }

-- Now, at the reading `wall` of the wall clock: the clock afterwards.
advance : Hlc → ℕ → Hlc
advance h wall =
    if ltb h.last_wall wall
    then record h { last_wall = wall; logical = 0 }
    else record h { logical = incr32 h.logical }

unfoldable pub now : Hlc → ℕ → HlcTimestamp × Hlc
unfolding advance
now h wall = let h' = advance h wall in (reading h', h')

-- Update, at the reading `wall`: the clock afterwards.
merge_remote : Hlc → ℕ → HlcTimestamp → Hlc
merge_remote h wall remote =
    let max_wall = if ltb wall remote.wall_nanos then remote.wall_nanos else wall in
    if max_wall == h.last_wall
    then record h { logical = incr32 h.logical }
    else if max_wall == remote.wall_nanos
    then record h {
      last_wall = max_wall;
      logical = if leb h.logical remote.logical then incr32 remote.logical else incr32 h.logical;
    }
    else record h { last_wall = max_wall; logical = 0 }

unfoldable pub update : Hlc → ℕ → HlcTimestamp → HlcTimestamp × Hlc
unfolding merge_remote
update h wall remote = let h' = merge_remote h wall remote in (reading h', h')

-- The order of timestamps: by wall time, then by the logical counter.
abbrev pub Before : HlcTimestamp → HlcTimestamp → Type 0
Before a b =
    (a.wall_nanos < b.wall_nanos) ⊎ ((a.wall_nanos ≡ b.wall_nanos) × (a.logical < b.logical))
