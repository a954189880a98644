-- ===== src/Common/Exec.antt =====
-- Go code as state passing: its definition, and the laws of its parts.
mod Monad
mod Laws
pub use Monad.*
pub use Laws.*
