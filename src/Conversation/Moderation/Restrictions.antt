-- ===== src/Conversation/Moderation/Restrictions.antt =====
-- internal/domain/conversation/restrictions.go: mutes, bans and shadow bans of an account.
pub mod Enforcement
pub mod Refusal
use zvonilka.Base.{
  Text, codes, trim_space, is_empty, if◌then◌else◌, Bool, not, ◌&&◌, ◌||◌, Time, Duration, pos,
  is_positive, is_zero, before, time_add, or_now, [], ◌∷◌, Result, ok, err, ◌>>=◌, ◌>>◌, refuse_if,
}
use zvonilka.Conversation.Models.{
  Error, not_found, invalid_input, forbidden, ModerationTargetKind, ModerationRestriction,
  ModerationRestrictionState, ModerationAction, ModerationActionType, Conversation,
}
use zvonilka.Conversation.Params.{ApplyModerationRestrictionParams, LiftModerationRestrictionParams}
use zvonilka.Conversation.Store.{
  StoreReads, MemoryStore, Saved, is_unspecified, no_state, memory_reads, save_restriction,
  delete_restriction,
}
use zvonilka.Conversation.Moderation.Target.{lookup_moderation_conversation, can_moderate}
use zvonilka.Conversation.Moderation.RateLimit.{is_expired}
use zvonilka.Conversation.Moderation.Audit.{
  Draws, save_moderation_action_with_sync_event, log_drawn,
}

unfoldable pub restriction_action_type : ModerationRestrictionState → ModerationActionType
restriction_action_type ModerationRestrictionState.muted = ModerationActionType.mute
restriction_action_type ModerationRestrictionState.banned = ModerationActionType.ban
restriction_action_type ModerationRestrictionState.shadowed = ModerationActionType.shadow_ban
restriction_action_type ModerationRestrictionState.unspecified = ModerationActionType.unspecified

unfoldable pub moderation_lift_action_type : ModerationTargetKind → ModerationActionType
moderation_lift_action_type kind = ModerationActionType.unmute

unfoldable pub time_or_zero : Duration → Time → Time
time_or_zero duration base = if is_positive duration then time_add base duration else 0

abbrev pub state_text : ModerationRestrictionState → Text
state_text ModerationRestrictionState.unspecified = []
state_text ModerationRestrictionState.muted = codes "muted"
state_text ModerationRestrictionState.banned = codes "banned"
state_text ModerationRestrictionState.shadowed = codes "shadowed"

-- The parameters with their texts trimmed and their time set.
abbrev pub trimmed_apply :
    ApplyModerationRestrictionParams → Time → ApplyModerationRestrictionParams
trimmed_apply params clock = record params {
  target_id = trim_space params.target_id;
  actor_account_id = trim_space params.actor_account_id;
  target_account_id = trim_space params.target_account_id;
  reason = trim_space params.reason;
  created_at = or_now params.created_at clock;
}

abbrev pub next_restriction : ApplyModerationRestrictionParams → ModerationRestriction
next_restriction params = record {
  target_kind = params.target_kind;
  target_id = params.target_id;
  account_id = params.target_account_id;
  state = params.state;
  applied_by_account_id = params.actor_account_id;
  reason = params.reason;
  expires_at = time_or_zero params.duration params.created_at;
  created_at = params.created_at;
  updated_at = params.created_at;
}

abbrev pub restriction_action : ApplyModerationRestrictionParams → Text → ModerationAction
restriction_action params action_id = record {
  id = action_id;
  target_kind = params.target_kind;
  target_id = params.target_id;
  actor_account_id = params.actor_account_id;
  target_account_id = params.target_account_id;
  type = restriction_action_type params.state;
  duration = params.duration;
  reason = params.reason;
  metadata = (codes "state", state_text params.state) ∷ [];
  created_at = params.created_at;
}

-- The conversation of a target, where the actor is a member that manages it.
unfoldable pub authorize :
    StoreReads → ModerationTargetKind → Text → Text → Result Error Conversation
authorize reads kind target_id actor = do
  conversation ← lookup_moderation_conversation reads kind target_id
  member ← reads.member_row conversation.id actor
  refuse_if (not (can_moderate member actor)) forbidden
  ok conversation

-- One transaction: an error leaves the store as it was.
unfoldable pub apply_moderation_restriction :
    MemoryStore → Time → Draws → ApplyModerationRestrictionParams → Saved ModerationRestriction
apply_moderation_restriction s clock draws given = do
  let params = trimmed_apply given clock
  refuse_if
      (is_unspecified params.target_kind
        || is_empty params.target_id
        || is_empty params.actor_account_id
        || is_empty params.target_account_id
        || no_state params.state)
      invalid_input
  conversation ←
      authorize (memory_reads s) params.target_kind params.target_id params.actor_account_id
  (saved, s') ← save_restriction s (next_restriction params)
  (logged, s'') ← log_drawn s' clock draws conversation.id (restriction_action params)
  ok (saved, s'')

abbrev pub trimmed_lift : LiftModerationRestrictionParams → Time → LiftModerationRestrictionParams
trimmed_lift params clock = record params {
  target_id = trim_space params.target_id;
  actor_account_id = trim_space params.actor_account_id;
  target_account_id = trim_space params.target_account_id;
  reason = trim_space params.reason;
  created_at = or_now params.created_at clock;
}

abbrev pub lift_action : LiftModerationRestrictionParams → Text → ModerationAction
lift_action params action_id = record {
  id = action_id;
  target_kind = params.target_kind;
  target_id = params.target_id;
  actor_account_id = params.actor_account_id;
  target_account_id = params.target_account_id;
  type = moderation_lift_action_type params.target_kind;
  duration = pos 0;
  reason = params.reason;
  metadata = (codes "state", codes "lifted") ∷ [];
  created_at = params.created_at;
}

unfoldable pub lift_moderation_restriction :
    MemoryStore → Time → Draws → LiftModerationRestrictionParams → Result Error MemoryStore
lift_moderation_restriction s clock draws given = do
  let params = trimmed_lift given clock
  refuse_if
      (is_unspecified params.target_kind
        || is_empty params.target_id
        || is_empty params.actor_account_id
        || is_empty params.target_account_id)
      invalid_input
  conversation ←
      authorize (memory_reads s) params.target_kind params.target_id params.actor_account_id
  s' ← delete_restriction s params.target_kind params.target_id params.target_account_id
  (logged, s'') ← log_drawn s' clock draws conversation.id (lift_action params)
  ok s''

-- ModerationRestrictionByTargetAndAccount: an expired row reads as none.
unfoldable pub restriction_by_target_and_account :
    StoreReads → Time → ModerationTargetKind → Text → Text → Result Error ModerationRestriction
restriction_by_target_and_account reads clock kind target_id account_id = do
  refuse_if
      (is_unspecified kind || is_empty (trim_space target_id) || is_empty (trim_space account_id))
      invalid_input
  restriction ← reads.restriction kind (trim_space target_id) (trim_space account_id)
  if is_expired clock restriction then err not_found else ok restriction
