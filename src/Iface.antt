-- ===== src/Iface.antt =====
-- src/iface_state.c: the tuning of the network interface while a master runs, and the file that lets
-- the next start undo the tuning of a process that crashed. ethtool belongs to the system and is a
-- parameter; text is the list of its bytes.
pub mod Text
mod Numbers
mod Lines
pub mod Nic
mod Listing
pub mod Saved
mod Reload
pub mod Apply
mod Restored
mod Manual
mod Tests
