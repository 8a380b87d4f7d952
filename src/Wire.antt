-- ===== src/Wire.antt =====
-- engine/internal/wire: the PostgreSQL wire protocol's messages.
pub mod Protocol
