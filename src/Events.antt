-- ===== src/Events.antt =====
-- The event handlers of pybtp/btp.py, by service, and `BTPEventHandler`, which calls them.
pub mod Args
pub mod Gap
pub mod Gatt
pub mod GattCl
pub mod Mesh
pub mod Handler
pub mod Waits
