-- ===== src/Domain.antt =====
-- common/domain: the types that the processes share, and the operations on them.
mod Types
pub mod Arith
unfoldable pub use Types.*
