-- ===== src/Branch.antt =====
-- engine/internal/branch: copy-on-write branches.
pub mod Prefix
pub mod Manager
