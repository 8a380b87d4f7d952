-- ===== src/Transactions/Hlc/Monotone.antt =====
-- Whether the clock's timestamps grow.
use basuyudb.Base.{
  ℕ, ◌+◌, ◌^◌, ◌≤◌, ◌<◌, ◌≡◌, ◌⊎◌, inl, inr, List, [], ◌∷◌, All, length, arith, max,
}
use basuyudb.Transactions.Hlc.{Hlc, HlcTimestamp, reading, now, update, Before}

-- The timestamps of a row of calls of `Now`, at these readings of the wall clock.
pub issue : Hlc → List ℕ → List HlcTimestamp
issue h [] = []
issue h (wall ∷ walls) = let (t, h') = now h wall in t ∷ issue h' walls

-- Each timestamp is before all that follow.
abbrev pub Increasing : List HlcTimestamp → Type 0
Increasing [] = Unit
Increasing (t ∷ ts) = All (Before t) ts × Increasing ts

-- `t` is the clock's state or earlier.
abbrev NotAfter : HlcTimestamp → Hlc → Type 0
NotAfter t h =
    (t.wall_nanos < h.last_wall) ⊎ ((t.wall_nanos ≡ h.last_wall) × (t.logical ≤ h.logical))

now-Before :
    (t : HlcTimestamp) (h : Hlc) (wall : ℕ)
    → h.logical + 1 < 2 ^ 32
    → NotAfter t h
    → Before t (now h wall).0
unfolding now
now-Before t h wall lt (inl b) = ground (arith, b)
now-Before t h wall lt (inr b) = ground (arith, b.0, b.1)

now-NotAfter :
    (t : HlcTimestamp) (h : Hlc) (wall : ℕ)
    → h.logical + 1 < 2 ^ 32
    → NotAfter t h
    → NotAfter t (now h wall).1
unfolding now
now-NotAfter t h wall lt (inl b) = ground (arith, b)
now-NotAfter t h wall lt (inr b) = ground (arith, b.0, b.1)

now_reading : (h : Hlc) (wall : ℕ) → NotAfter (now h wall).0 (now h wall).1
unfolding now
now_reading h wall = ground arith

now_logical : (h : Hlc) (wall : ℕ) → h.logical + 1 < 2 ^ 32 → (now h wall).1.logical ≤ h.logical + 1
unfolding now
now_logical h wall lt = ground arith

issue_after :
    (h : Hlc) (walls : List ℕ) (t : HlcTimestamp)
    → h.logical + length walls < 2 ^ 32
    → NotAfter t h
    → All (Before t) (issue h walls)
unfolding issue
issue_after h [] t fits b = tt
issue_after h (wall ∷ walls) t fits b = (
  now-Before t h wall (omega arith) b,
  issue_after (now h wall).1 walls t (omega (arith, now_logical h wall (omega arith)))
      (now-NotAfter t h wall (omega arith) b),
)

-- The timestamps of any row of calls of `Now` increase strictly, each before all later ones, whether
-- the wall clock advances, stands or runs backwards, as long as the uint32 counter does not wrap.
pub now-Increasing :
    (h : Hlc) (walls : List ℕ) → h.logical + length walls < 2 ^ 32 → Increasing (issue h walls)
unfolding issue
now-Increasing h [] fits = tt
now-Increasing h (wall ∷ walls) fits =
    let small : (now h wall).1.logical + length walls < 2 ^ 32 =
      omega (arith, now_logical h wall (omega arith)) in
    (
      issue_after (now h wall).1 walls (now h wall).0 small (now_reading h wall),
      now-Increasing (now h wall).1 walls small,
    )

-- Update returns a timestamp after the clock's last and after the remote one, where the wall clock
-- or the remote clock is ahead of the clock's last wall time and no counter wraps.
pub update_ahead :
    (h : Hlc) (wall : ℕ) (remote : HlcTimestamp)
    → h.last_wall < max wall remote.wall_nanos
    → h.logical + 1 < 2 ^ 32
    → remote.logical + 1 < 2 ^ 32
    → Before (reading h) (update h wall remote).0 × Before remote (update h wall remote).0
unfolding update
update_ahead h wall remote lt a b = ground arith

-- Update does not pass the remote clock where the remote time is the clock's own last wall time, the
-- remote counter is ahead, and the wall clock is not past that time.
pub update_misses_remote :
    (h : Hlc) (wall : ℕ) (remote : HlcTimestamp)
    → h.logical < remote.logical
    → remote.logical < 2 ^ 32
    → remote.wall_nanos ≡ h.last_wall
    → wall ≤ h.last_wall
    → ¬ Before remote (update h wall remote).0
unfolding update
update_misses_remote h wall remote lt fits e le = ground arith

-- Update sets the clock back where both the wall clock and the remote time are behind its last wall
-- time: it then returns a timestamp before one that it has issued.
pub update_sets_back :
    (h : Hlc) (wall : ℕ) (remote : HlcTimestamp)
    → wall < h.last_wall
    → remote.wall_nanos < h.last_wall
    → Before (update h wall remote).0 (reading h)
      × ((update h wall remote).1.last_wall < h.last_wall)
unfolding update
update_sets_back h wall remote a b = ground arith
