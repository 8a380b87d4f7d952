-- ===== src/Transactions/Hlc/Encoding.antt =====
-- The order of encoded timestamps.
use basuyudb.Base.{ℕ, ◌/◌, ◌%◌, ◌^◌, ◌<◌, ◌≡◌, ◌⊎◌, inl, inr, arith}
use basuyudb.Transactions.Hlc.{Hlc, HlcTimestamp, reading, now, encode}

-- Encode keeps the order of two timestamps of different milliseconds, and of two with the same
-- nanoseconds, while the counters fit 16 bits and the milliseconds fit 48.
pub encode_ordered :
    (a b : HlcTimestamp)
    → b.wall_nanos / 1_000_000 < 2 ^ 48
    → a.logical < 2 ^ 16
    → b.logical < 2 ^ 16
    → (a.wall_nanos / 1_000_000 < b.wall_nanos / 1_000_000)
      ⊎ ((a.wall_nanos ≡ b.wall_nanos) × (a.logical < b.logical))
    → encode a < encode b
unfolding encode
encode_ordered a b fits la lb (inl lt) = omega arith
encode_ordered a b fits la lb (inr (e, lt)) = omega arith

-- Encode is not monotonic: if the wall clock moves on within one millisecond while the counter
-- stands above 0 (modulo 2^16), `Now` returns a timestamp whose encoding is below that of the
-- timestamp before it.
pub encode_goes_back :
    (h : Hlc) (wall : ℕ)
    → h.last_wall < wall
    → wall / 1_000_000 ≡ h.last_wall / 1_000_000
    → 0 < h.logical % 2 ^ 16
    → encode (now h wall).0 < encode (reading h)
unfolding encode now
encode_goes_back h wall lt same pos = ground arith
