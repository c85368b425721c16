-- ===== src/Defensics.antt =====
-- defensics/: the automation of a fuzzer's test run over the device under test.
pub mod Cases
pub mod Automation
pub mod Server
pub mod Turns
