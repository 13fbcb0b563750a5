-- ===== src/Tests.antt =====
-- Runs at concrete inputs, and each theorem at an input that meets its hypotheses.
pub mod Wire
pub mod Session
pub mod Terminal
pub mod Loops
pub mod Reconnects
pub mod Calls
pub mod Delivery
pub mod Handshakes
