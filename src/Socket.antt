-- ===== src/Socket.antt =====
-- The sockets (socket/): how a worker serves one connection.
pub mod Transfer
pub mod Serve
pub mod Closed
pub mod Shutdown
mod Tests
