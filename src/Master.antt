-- ===== src/Master.antt =====
-- src/master.c: the steps of a start that talk to the slaves.
pub mod Timing
mod Polling
pub mod Topology
mod Matching
pub mod Sdo
mod Wire
mod Ranges
mod Encoding
mod Stands
mod Written
mod Skipped
pub mod Iomap
mod Reported
mod Mapping
pub mod Configure
mod Guarded
pub mod Open
mod Opening
mod Scanning
pub mod Fixed
mod Verified
mod Tests
