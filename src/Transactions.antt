-- ===== src/Transactions.antt =====
-- engine/internal/transactions: the clock, the overlay of a transaction's own writes, the engine.
pub mod Hlc
pub mod Overlay
pub mod Engine
