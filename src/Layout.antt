-- ===== src/Layout.antt =====
-- src/layout.c, with ecat_layout_init and ecat_layout_destroy of src/config.c: the offsets of the PDO
-- entries in the process image.
pub mod Build
mod Offsets
mod Fits
mod Capacity
mod Tests
