-- ===== src/Testcases.antt =====
-- testcases/: the steps of the test cases over two devices.
pub mod Bench
pub mod Utils
pub mod Procedures
pub mod Advertised
pub mod Unheard
pub mod Futures
pub mod Listens
pub mod Steps
pub mod Verdicts
pub mod Heard
pub mod Links
pub mod Linked
pub mod Parted
pub mod Skips
pub mod Gap
pub mod Gatt
