-- ===== src/Auth.antt =====
-- engine/internal/auth: the identity of a session.
pub mod Identity
