-- ===== src/Examples.antt =====
-- Concrete inputs to which the theorems apply.
mod Wire
mod Device
mod Service
mod Requests
mod Table
mod Client
mod Links
mod Values
mod Discovery
mod Connection
mod Fuzzing
