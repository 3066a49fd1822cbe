-- ===== src/Worker.antt =====
-- The pool of workers (worker/): the shared ring of works, its index functions, and the two
-- operations that the server and the workers call under the mutex.
pub mod Sync
pub mod Work
pub mod Bounds
pub mod Fifo
pub mod Wrap
pub mod InRange
pub mod Reach
mod Tests
