-- ===== src/Uri.antt =====
-- The URI library (url/): the grammar of RFC 2396 as functions that move the read position of a
-- string, and the theorems on them.
pub mod Chars
pub mod Defs
pub mod Path
pub mod Host
pub mod Reference
pub mod Escape
pub mod Written
pub mod Escaped
pub mod Unescaped
pub mod Scan
pub mod Frame
pub mod Segments
pub mod Resolve
mod Tests
