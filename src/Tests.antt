-- ===== src/Tests.antt =====
-- Examples on concrete data.
mod Data
mod Sensors
mod Devices
mod Transfers
mod Nodes
mod Jobs
mod Managers
mod Windows
mod Instances
