-- ===== src/Scenarios.antt =====
-- Concrete stores and runs, at which the theorems apply.
pub mod Moderation
pub mod Complaints
pub mod Rates
pub mod Notifications
pub mod Fragments
pub mod Replication
pub mod Rounds
pub mod Bridge
pub mod Exchange
pub mod Presences
