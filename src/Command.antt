-- ===== src/Command.antt =====
-- src/bus.c: the commands that load a configuration and that name a slave, up to the JSON of their
-- replies.
pub mod State
pub mod Requests
mod Numbers
pub mod Configure
mod Atomic
mod Sound
mod Tests
