-- ===== src/Examples.antt =====
-- Runs of the theorems at concrete inputs, component by component, with concrete libraries.
mod Instances
mod Wire
mod Registry
mod Filter
mod Certificates
mod Discovery
mod Sessions
mod Traffic
mod Operations
mod Issuing
mod Devices
mod Startup
mod Once
mod Handshakes
