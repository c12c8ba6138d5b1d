-- ===== src/Inventory.antt =====
-- The pure checks of internal/controller/controller.go on a zone's keys, and `DNSSECDataForKey` of
-- internal/dnsprobe/probe.go.
pub mod Keys
pub mod Roles
pub mod Prepublish
pub mod Split
pub mod Retirement
pub mod Enrollment
pub mod Material
pub mod Passed
pub mod Sound
pub mod Bounds
pub mod Multiset
