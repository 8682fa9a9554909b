-- ===== src/Conversation/Moderation/Policy.antt =====
-- internal/domain/conversation/policy.go: the write of a moderation policy.
pub mod Override
use zvonilka.Base.{
  Text, codes, trim_space, is_empty, if◌then◌else◌, Bool, not, ◌||◌, Time, pos, eqb_ℤ, or_now,
  Option, none, some, [], ◌∷◌, Result, ok, err, ◌>>=◌, ◌>>◌, refuse_if, false,
}
use zvonilka.Conversation.Models.{
  Error, internal, invalid_input, forbidden, ModerationPolicy, ModerationAction,
  ModerationActionType, Conversation, ModerationTargetKind,
}
use zvonilka.Conversation.Params.{SetModerationPolicyParams}
use zvonilka.Conversation.Store.{
  StoreReads, MemoryStore, Saved, is_unspecified, kind_text, memory_reads, save_policy,
}
use zvonilka.Conversation.Moderation.Target.{
  is_topic, existing_moderation_policy, lookup_moderation_conversation, can_moderate,
}
use zvonilka.Conversation.Moderation.Audit.{
  Draws, save_moderation_action_with_sync_event, log_drawn,
}

unfoldable pub preserve_inherited_topic_threads :
    SetModerationPolicyParams → ModerationPolicy → Bool
preserve_inherited_topic_threads params inherited =
    if not (is_topic params.target_kind)
    then false
    else if params.allow_threads || not inherited.allow_threads
    then false
    else params.only_admins_can_write
      || params.only_admins_can_add_members
      || params.allow_reactions
      || params.allow_forwards
      || params.require_encrypted_messages
      || params.require_join_approval
      || params.pinned_messages_only_admins
      || not (eqb_ℤ params.slow_mode_interval (pos 0))
      || not (eqb_ℤ params.anti_spam_window (pos 0))
      || not (eqb_ℤ params.anti_spam_burst_limit (pos 0))
      || params.shadow_mode

-- The row that the write stores. `existing` says whether it replaces a row.
unfoldable pub next_policy :
    SetModerationPolicyParams → Text → Time → ModerationPolicy → Bool → ModerationPolicy
next_policy params target_id now inherited existing = record {
  target_kind = params.target_kind;
  target_id = target_id;
  only_admins_can_write = params.only_admins_can_write;
  only_admins_can_add_members = params.only_admins_can_add_members;
  allow_reactions = params.allow_reactions;
  allow_forwards = params.allow_forwards;
  allow_threads =
      if preserve_inherited_topic_threads params inherited
      then inherited.allow_threads
      else params.allow_threads;
  require_encrypted_messages = params.require_encrypted_messages;
  require_trusted_devices = params.require_trusted_devices;
  require_join_approval = params.require_join_approval;
  pinned_messages_only_admins = params.pinned_messages_only_admins;
  slow_mode_interval = params.slow_mode_interval;
  anti_spam_window = params.anti_spam_window;
  anti_spam_burst_limit = params.anti_spam_burst_limit;
  shadow_mode = params.shadow_mode;
  created_at = if existing then inherited.created_at else now;
  updated_at = now;
}

abbrev pub policy_action : SetModerationPolicyParams → Text → Text → Time → Text → ModerationAction
policy_action params target_id actor now action_id = record {
  id = action_id;
  target_kind = params.target_kind;
  target_id = target_id;
  actor_account_id = actor;
  target_account_id = [];
  type = ModerationActionType.policy_set;
  duration = pos 0;
  reason = [];
  metadata = (codes "target_kind", kind_text params.target_kind) ∷ [];
  created_at = now;
}

-- The reads that a write of an override begins with: the conversation of the target, the policy
-- before the write, and whether a row holds it. The actor is a member that manages the conversation.
unfoldable pub admit :
    StoreReads
    → ModerationTargetKind
    → Text
    → Text
    → Result Error (Conversation × ModerationPolicy × Bool)
admit reads kind target_id actor = do
  conversation ← lookup_moderation_conversation reads kind target_id
  (inherited, existing) ← existing_moderation_policy reads conversation kind target_id
  member ← reads.member_row conversation.id actor
  refuse_if (not (can_moderate member actor)) forbidden
  ok (conversation, inherited, existing)

-- The writes: the row, then the action that announces it.
unfoldable pub store_override :
    MemoryStore
    → Time
    → Draws
    → Text
    → ModerationPolicy
    → (Text → ModerationAction)
    → Saved ModerationPolicy
store_override s clock draws conversation_id policy action = do
  (saved, s') ← save_policy s policy
  (logged, s'') ← log_drawn s' clock draws conversation_id action
  ok (saved, s'')

-- One transaction: an error leaves the store as it was.
unfoldable pub set_moderation_policy :
    MemoryStore → Time → Draws → SetModerationPolicyParams → Saved ModerationPolicy
set_moderation_policy s clock draws params = do
  let target_id = trim_space params.target_id
  let actor = trim_space params.actor_account_id
  let now = or_now params.created_at clock
  refuse_if (is_unspecified params.target_kind || is_empty target_id || is_empty actor)
      invalid_input
  (conversation, inherited, existing) ← admit (memory_reads s) params.target_kind target_id actor
  store_override s clock draws conversation.id (next_policy params target_id now inherited existing)
      (policy_action params target_id actor now)
