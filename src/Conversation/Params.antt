-- ===== src/Conversation/Params.antt =====
-- internal/domain/conversation/params.go: the parameters of the moderation operations.
use zvonilka.Base.{ℤ, Text, Time, Duration, Bool}
use zvonilka.Conversation.Models.{
  MemberRole, ModerationTargetKind, ModerationPolicy, ModerationRestrictionState,
}

pub record SetModerationPolicyParams : Type 0 where
  pub target_kind : ModerationTargetKind
  pub target_id : Text
  pub actor_account_id : Text
  pub only_admins_can_write : Bool
  pub only_admins_can_add_members : Bool
  pub allow_reactions : Bool
  pub allow_forwards : Bool
  pub allow_threads : Bool
  pub require_encrypted_messages : Bool
  pub require_trusted_devices : Bool
  pub require_join_approval : Bool
  pub pinned_messages_only_admins : Bool
  pub slow_mode_interval : Duration
  pub anti_spam_window : Duration
  pub anti_spam_burst_limit : ℤ
  pub shadow_mode : Bool
  pub created_at : Time

pub record ApplyModerationRestrictionParams : Type 0 where
  pub target_kind : ModerationTargetKind
  pub target_id : Text
  pub actor_account_id : Text
  pub target_account_id : Text
  pub state : ModerationRestrictionState
  pub reason : Text
  pub duration : Duration
  pub created_at : Time

pub record LiftModerationRestrictionParams : Type 0 where
  pub target_kind : ModerationTargetKind
  pub target_id : Text
  pub actor_account_id : Text
  pub target_account_id : Text
  pub reason : Text
  pub created_at : Time

pub record CheckModerationWriteParams : Type 0 where
  pub target_kind : ModerationTargetKind
  pub target_id : Text
  pub actor_account_id : Text
  pub actor_role : MemberRole
  pub base_policy : ModerationPolicy
  pub created_at : Time

pub record RecordModerationWriteParams : Type 0 where
  pub target_kind : ModerationTargetKind
  pub target_id : Text
  pub actor_account_id : Text
  pub anti_spam_window : Duration
  pub created_at : Time

pub record SubmitModerationReportParams : Type 0 where
  pub target_kind : ModerationTargetKind
  pub target_id : Text
  pub reporter_account_id : Text
  pub target_account_id : Text
  pub reason : Text
  pub details : Text
  pub created_at : Time

pub record ResolveModerationReportParams : Type 0 where
  pub report_id : Text
  pub resolver_account_id : Text
  pub resolved : Bool
  pub resolution : Text
  pub reviewed_at : Time
