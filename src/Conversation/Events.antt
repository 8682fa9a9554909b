-- ===== src/Conversation/Events.antt =====
-- internal/domain/conversation/models.go: the events of the sync log.
use zvonilka.Base.{Text, Time, ℕ, List}

pub data EventType : Type 0 where
  unspecified conversation_created conversation_updated conversation_members user_updated
        admin_action_recorded message_created message_delivered message_read message_edited
        message_deleted message_pinned message_reaction_added message_reaction_updated
        message_reaction_removed sync_acknowledged topic_created topic_updated topic_archived
        topic_pinned topic_closed :
      EventType

pub record EncryptedPayload : Type 0 where
  pub key_id : Text
  pub algorithm : Text
  pub nonce : List ℕ
  pub ciphertext : List ℕ
  pub aad : List ℕ
  pub metadata : List (Text × Text)

pub record EventEnvelope : Type 0 where
  pub event_id : Text
  pub event_type : EventType
  pub conversation_id : Text
  pub actor_account_id : Text
  pub actor_device_id : Text
  pub causation_id : Text
  pub correlation_id : Text
  pub message_id : Text
  pub sequence : ℕ  -- uint64
  pub payload_type : Text
  pub payload : EncryptedPayload
  pub read_through_sequence : ℕ  -- uint64
  pub metadata : List (Text × Text)
  pub created_at : Time
