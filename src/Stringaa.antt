-- ===== src/Stringaa.antt =====
-- The string library (string/stringaa.h): counted buffers with a read and a write position.
pub mod Defs
pub mod Cursor
pub mod Store
pub mod Copy
pub mod Append
pub mod Moved
pub mod Rests
pub mod Find
pub mod Search
mod Tests
