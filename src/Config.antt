-- ===== src/Config.antt =====
-- src/config.h and src/config.c: the configuration of a master its parser and its validation.
pub mod Doubles
pub mod Types
pub mod Host
pub mod Defaults
pub mod DataTypes
pub mod Sdo
pub mod Pdos
mod Modules
mod Slaves
pub mod Parse
pub mod Shapes
mod Parsed
mod Loaded
pub mod Masters
mod Text
pub mod Truncation
pub mod Sample
pub mod Validate
mod Relations
mod Station
mod Accepted
mod Whole
mod Hex
mod Tests
