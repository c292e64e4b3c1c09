-- ===== src/Libc/Number.antt =====
-- `strtoull`, `strtoul` and `strtol` with base 0, and the decimal conversions of `printf`.
mod Print
mod Scan
pub mod RoundTrip
pub mod Chars
pub mod Hex
unfoldable pub use Print.*
unfoldable pub use Scan.*
