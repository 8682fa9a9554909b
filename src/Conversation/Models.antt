-- ===== src/Conversation/Models.antt =====
-- internal/domain/conversation: models.go, moderation.go and errors.go, as far as
-- moderation reads them. A string type with declared constants is a data type of these constants.
use zvonilka.Base.{ℕ, ℤ, Text, Time, Duration, pos, Bool, false, List, []}

pub data Error : Type 0 where
  not_found conflict invalid_input forbidden rate_limited : Error
  -- Any other error of the store, such as a lost connection.
  internal : Error

pub data ConversationKind : Type 0 where
  unspecified direct group channel saved_messages : ConversationKind

pub data MemberRole : Type 0 where
  unspecified owner admin member guest : MemberRole

pub record ConversationSettings : Type 0 where
  pub only_admins_can_write : Bool
  pub only_admins_can_add_members : Bool
  pub allow_reactions : Bool
  pub allow_forwards : Bool
  pub allow_threads : Bool
  pub require_encrypted_messages : Bool
  pub require_trusted_devices : Bool
  pub require_join_approval : Bool
  pub pinned_messages_only_admins : Bool
  pub slow_mode_interval : Duration

pub record Conversation : Type 0 where
  pub id : Text
  pub kind : ConversationKind
  pub title : Text
  pub description : Text
  pub avatar_media_id : Text
  pub owner_account_id : Text
  pub settings : ConversationSettings
  pub archived : Bool
  pub muted : Bool
  pub pinned : Bool
  pub hidden : Bool
  pub last_sequence : ℕ
  pub unread_count : ℕ
  pub unread_mention_count : ℕ
  pub created_at : Time
  pub updated_at : Time
  pub last_message_at : Time

pub record ConversationTopic : Type 0 where
  pub conversation_id : Text
  pub id : Text
  pub root_message_id : Text
  pub title : Text
  pub created_by_account_id : Text
  pub is_general : Bool
  pub archived : Bool
  pub pinned : Bool
  pub closed : Bool
  pub last_sequence : ℕ
  pub message_count : ℕ
  pub created_at : Time
  pub updated_at : Time
  pub last_message_at : Time
  pub archived_at : Time
  pub closed_at : Time

pub record ConversationMember : Type 0 where
  pub conversation_id : Text
  pub account_id : Text
  pub role : MemberRole
  pub invited_by_account_id : Text
  pub muted : Bool
  pub banned : Bool
  pub joined_at : Time
  pub left_at : Time

pub data ModerationTargetKind : Type 0 where
  unspecified conversation topic channel : ModerationTargetKind

pub record ModerationPolicy : Type 0 where
  pub target_kind : ModerationTargetKind
  pub target_id : Text
  pub only_admins_can_write : Bool
  pub only_admins_can_add_members : Bool
  pub allow_reactions : Bool
  pub allow_forwards : Bool
  pub allow_threads : Bool
  pub require_encrypted_messages : Bool
  pub require_trusted_devices : Bool
  pub require_join_approval : Bool
  pub pinned_messages_only_admins : Bool
  pub slow_mode_interval : Duration
  pub anti_spam_window : Duration
  pub anti_spam_burst_limit : ℤ
  pub shadow_mode : Bool
  pub created_at : Time
  pub updated_at : Time

pub data ModerationReportStatus : Type 0 where
  unspecified pending resolved rejected : ModerationReportStatus

pub record ModerationReport : Type 0 where
  pub id : Text
  pub target_kind : ModerationTargetKind
  pub target_id : Text
  pub reporter_account_id : Text
  pub target_account_id : Text
  pub reason : Text
  pub details : Text
  pub status : ModerationReportStatus
  pub reviewed_by_account_id : Text
  pub reviewed_at : Time
  pub resolution : Text
  pub created_at : Time
  pub updated_at : Time

pub data ModerationActionType : Type 0 where
  unspecified ban kick mute unmute shadow_ban shadow_unban policy_set report_set report_resolve
        report_reject slow_mode_set anti_spam_set :
      ModerationActionType

pub record ModerationAction : Type 0 where
  pub id : Text
  pub target_kind : ModerationTargetKind
  pub target_id : Text
  pub actor_account_id : Text
  pub target_account_id : Text
  pub type : ModerationActionType
  pub duration : Duration
  pub reason : Text
  pub metadata : List (Text × Text)
  pub created_at : Time

pub data ModerationRestrictionState : Type 0 where
  unspecified muted banned shadowed : ModerationRestrictionState

pub record ModerationRestriction : Type 0 where
  pub target_kind : ModerationTargetKind
  pub target_id : Text
  pub account_id : Text
  pub state : ModerationRestrictionState
  pub applied_by_account_id : Text
  pub reason : Text
  pub expires_at : Time
  pub created_at : Time
  pub updated_at : Time

pub record ModerationRateState : Type 0 where
  pub target_kind : ModerationTargetKind
  pub target_id : Text
  pub account_id : Text
  pub last_write_at : Time
  pub window_started_at : Time
  pub window_count : ℕ  -- uint64
  pub updated_at : Time

pub record ModerationDecision : Type 0 where
  pub allowed : Bool
  pub shadow_hidden : Bool
  pub retry_after : Duration

-- The zero values that Go gives where nothing was stored.
abbrev pub no_restriction : ModerationRestriction
no_restriction = record {
  target_kind = ModerationTargetKind.unspecified;
  target_id = [];
  account_id = [];
  state = ModerationRestrictionState.unspecified;
  applied_by_account_id = [];
  reason = [];
  expires_at = 0;
  created_at = 0;
  updated_at = 0;
}

abbrev pub no_rate_state : ModerationRateState
no_rate_state = record {
  target_kind = ModerationTargetKind.unspecified;
  target_id = [];
  account_id = [];
  last_write_at = 0;
  window_started_at = 0;
  window_count = 0;
  updated_at = 0;
}

abbrev pub refused : ModerationDecision
refused = record { allowed = false; shadow_hidden = false; retry_after = pos 0 }
