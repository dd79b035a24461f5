-- ===== src/Driver.antt =====
-- internal/driver: the discovery of readers (discover.go), and the times in their reports (device.go).
pub mod Networks
pub mod Discover
pub mod Reports
mod Examples
