-- ===== src/Executor.antt =====
-- engine/internal/executor: the parts of the SQL executor that carry logic of their own.
pub mod OrderEnc
pub mod SetOps
pub mod RowCodec
pub mod IntArith
pub mod Sequences
pub mod IndexScan
pub mod CopyText
pub mod Scan
pub mod Catalog
pub mod Policies
pub mod PolicyStatements
