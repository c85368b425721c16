-- ===== src/Commands.antt =====
-- The commands of pybtp/btp.py: each sends one frame and checks the response.
pub mod Table
pub mod Response
pub mod Args
pub mod Db
pub mod Gatts
pub mod Gattc
pub mod GattCl
pub mod L2cap
pub mod Mesh
pub mod Core
pub mod Replies
pub mod Refusals
pub mod Handles
pub mod Gap
