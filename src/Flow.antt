-- ===== src/Flow.antt =====
-- The flow control of streams and of the connection, flowcontrol/.
pub mod Controller
pub mod Manager
mod Runs
