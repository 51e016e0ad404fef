-- ===== src/Text.antt =====
-- The functions of `str`, `[String]` and `char` that the crates call, on the native texts.
mod Dots
pub mod Search
pub mod Decimal
unfoldable pub use Dots.*
