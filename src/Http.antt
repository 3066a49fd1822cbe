-- ===== src/Http.antt =====
-- The HTTP library (http/): the grammar of RFC 2616 as functions that move the read position of the
-- request, and the structure that they fill.
pub mod Chars
pub mod Lexer
pub mod Keyword
pub mod Arrays
pub mod Defs
pub mod RequestLine
pub mod Header
pub mod Request
pub mod Lines
pub mod Words
pub mod Quoted
pub mod Version
pub mod Moves
pub mod Values
pub mod LineMoves
pub mod Total
pub mod Rule
pub mod Dates
pub mod Fields
pub mod Work
mod Tests
