-- ===== src/Data.antt =====
-- src/data.c: the cyclic data session of one master.
pub mod Session
pub mod Outputs
pub mod Inputs
pub mod Frames
pub mod Receive
pub mod Step
pub mod Drain
pub mod Refine
pub mod Watchdog
pub mod Closing
pub mod Calls
pub mod Published
pub mod Chain
mod Tests
