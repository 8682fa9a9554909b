-- ===== src/Notification.antt =====
-- Notifications: who is told of a message, and how a delivery is tried.
pub mod Models
pub mod Routing
pub mod Building
pub mod Backoff
pub mod Deliveries
