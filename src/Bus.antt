-- ===== src/Bus.antt =====
-- src/bus.c: the masters' lifecycle, the bus cycle and the monitor.
pub mod State
pub mod Cycle
pub mod Thresholds
pub mod Quiet
mod Streaks
pub mod Metrics
pub mod Lifecycle
pub mod Monitor
pub mod Recovery
pub mod Threads
pub mod Schedule
mod Deadlines
mod Spread
pub mod Watch
mod Marking
mod Tests
