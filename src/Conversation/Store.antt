-- ===== src/Conversation/Store.antt =====
-- internal/domain/conversation/store.go and moderation.go's storage, as the in-memory store
-- (teststore/) implements it: the rows that moderation reads and writes.
mod Rows
mod Writes
mod Frames
pub use Rows.{StoreReads, MemoryStore, is_unspecified}
pub use Writes.{Saved, is_pending, is_reviewed_well, no_type, no_state}
unfoldable pub use Rows.{
  kind_text, policy_key, restriction_key, member_key, policy_by_target, restriction_by,
  report_by_id, rate_state_by, conversation_by_id, member_by, topic_by, memory_reads,
}
unfoldable pub use Writes.{
  save_policy, save_report, save_action, save_restriction, delete_restriction, save_rate_state,
  save_event,
}
pub use Frames.*
