-- ===== src/Tests.antt =====
-- A concrete controller, a network and a configuration, and the theorems applied to them.
mod Demo
mod Runs
mod Commands
mod Inventories
mod ProbeDemo
mod Probes
mod Configs
mod Requests
