-- ===== src/Defs.antt =====
-- pybtp/defs.py: the numbers of the Bluetooth Tester Protocol, by service.
pub mod Core
pub mod Gap
pub mod Gatt
pub mod Gattc
pub mod L2cap
pub mod Mesh
