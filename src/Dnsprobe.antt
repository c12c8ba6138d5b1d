-- ===== src/Dnsprobe.antt =====
-- internal/dnsprobe/probe.go: the evidence that the controller's observer collects from DNS servers.
pub mod Message
pub mod Network
pub mod Checks
pub mod Denial
pub mod Referral
pub mod Evidence
pub mod Parent
pub mod Observer
pub mod Log
