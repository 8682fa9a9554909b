-- ===== src/Conversation.antt =====
-- The conversation domain.
pub mod Models
pub mod Events
pub mod Params
pub mod Store
pub mod Moderation
