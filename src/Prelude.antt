-- ===== src/Prelude.antt =====
-- The names that the other modules share: the libraries', passed on, and those of the children.
mod Defs
pub mod Int
pub mod Text
pub mod Decimal
pub use Defs.*
