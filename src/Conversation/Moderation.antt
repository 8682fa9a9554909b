-- ===== src/Conversation/Moderation.antt =====
-- Moderation of conversations: its scopes, policies, restrictions, rate limits and audit trail.
pub mod Target
pub mod RateLimit
pub mod Audit
pub mod Policy
pub mod Restrictions
pub mod Reports
