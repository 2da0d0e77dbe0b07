-- ===== src/Prelude/Text.antt =====
-- The text operations of Python that the program uses, over native texts.
pub mod Basic
pub mod Decimal
pub mod Matching
pub mod Paths
unfoldable pub use Basic.*
unfoldable pub use Decimal.*
unfoldable pub use Matching.*
unfoldable pub use Paths.*
