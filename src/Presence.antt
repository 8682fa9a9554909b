-- ===== src/Presence.antt =====
-- internal/domain/presence: what an account shows of itself, and to whom.
pub mod Models
pub mod Service
pub mod Visibility
