-- ===== src/Text.antt =====
-- What the source uses of the standard library's `str`: splitting, trimming, decimal numbers.
pub mod Decimal
pub mod Split
pub mod Trim
pub mod Utf8
pub use Decimal.{is_digit}
