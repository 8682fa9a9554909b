-- ===== src/Conversation/Moderation/Audit.antt =====
-- internal/domain/conversation/audit.go and `trimMetadata` of service.go: the audit trail and the
-- sync event that an action is announced by.
pub mod Trail
use zvonilka.Base.{
  Text, codes, decimal, trim_space, is_empty, is_zero, is_positive, pos_part, if◌then◌else◌, Bool,
  true, false, ◌||◌, Option, none, some, List, [], ◌∷◌, Result, ok, err, ◌>>=◌, ◌>>◌, refuse_if,
  Time,
}
use zvonilka.Base.Dict
use zvonilka.Conversation.Models.{
  Error, internal, invalid_input, ModerationTargetKind, ModerationAction, ModerationActionType,
}
use zvonilka.Conversation.Events.{EventEnvelope, EventType, EncryptedPayload}
use zvonilka.Conversation.Store.{
  MemoryStore, Saved, is_unspecified, no_type, kind_text, save_action, save_event,
}
use zvonilka.Conversation.Moderation.Target.{split_moderation_key}

-- What `newID` draws from the system's random source: nothing, where that source fails. `eventID`
-- gives the empty text then.
pub record Draws : Type 0 where
  pub action_id : Option Text
  pub event_id : Text

-- A key or value that is empty once trimmed is dropped.
unfoldable pub trim_metadata : List (Text × Text) → List (Text × Text)
trim_metadata [] = []
trim_metadata ((k, v) ∷ rest) =
    let kept = trim_metadata rest in
    if is_empty (trim_space k) || is_empty (trim_space v)
    then kept
    else Dict.put kept (trim_space k) (trim_space v)

unfoldable pub action_type_text : ModerationActionType → Text
action_type_text ModerationActionType.unspecified = []
action_type_text ModerationActionType.ban = codes "ban"
action_type_text ModerationActionType.kick = codes "kick"
action_type_text ModerationActionType.mute = codes "mute"
action_type_text ModerationActionType.unmute = codes "unmute"
action_type_text ModerationActionType.shadow_ban = codes "shadow_ban"
action_type_text ModerationActionType.shadow_unban = codes "shadow_unban"
action_type_text ModerationActionType.policy_set = codes "policy_set"
action_type_text ModerationActionType.report_set = codes "report_set"
action_type_text ModerationActionType.report_resolve = codes "report_resolve"
action_type_text ModerationActionType.report_reject = codes "report_reject"
action_type_text ModerationActionType.slow_mode_set = codes "slow_mode_set"
action_type_text ModerationActionType.anti_spam_set = codes "anti_spam_set"

unfoldable pub sync_visible_moderation_action : ModerationActionType → Bool
sync_visible_moderation_action ModerationActionType.unspecified = false
sync_visible_moderation_action ModerationActionType.report_set = false
sync_visible_moderation_action ModerationActionType.report_resolve = false
sync_visible_moderation_action ModerationActionType.report_reject = false
sync_visible_moderation_action _ = true

unfoldable pub moderation_event_metadata : ModerationAction → List (Text × Text)
unfolding action_type_text kind_text decimal
moderation_event_metadata action =
    let base =
      (codes "action_id", action.id)
      ∷ (codes "action_type", action_type_text action.type)
      ∷ (codes "target_kind", kind_text action.target_kind)
      ∷ (codes "target_id", action.target_id)
      ∷ [] in
    let aimed =
      if is_empty action.target_account_id
      then base
      else Dict.put base (codes "target_account_id") action.target_account_id in
    if is_positive action.duration
    then Dict.put aimed (codes "duration_nanos") (decimal (pos_part action.duration))
    else aimed

unfoldable pub save_moderation_action :
    MemoryStore → Time → Draws → ModerationAction → Saved ModerationAction
save_moderation_action s clock draws given = do
  let action = record given {
    target_id = trim_space given.target_id;
    actor_account_id = trim_space given.actor_account_id;
    target_account_id = trim_space given.target_account_id;
    reason = trim_space given.reason;
    metadata = trim_metadata given.metadata;
  }
  refuse_if
      (is_unspecified action.target_kind
        || is_empty action.target_id
        || is_empty action.actor_account_id
        || no_type action.type)
      invalid_input
  action_id ←
      (if is_empty action.id
        then elim draws.action_id [ none ↦ err internal | some fresh ↦ ok fresh ]
        else ok action.id)
  let stamped = if is_zero action.created_at then clock else action.created_at
  save_action s (record action { id = action_id; created_at = stamped })

abbrev pub no_payload : EncryptedPayload
no_payload = record {
  key_id = [];
  algorithm = [];
  nonce = [];
  ciphertext = [];
  aad = [];
  metadata = [];
}

abbrev pub moderation_event : Draws → Text → ModerationAction → EventEnvelope
moderation_event draws conversation_id saved = record {
  event_id = draws.event_id;
  event_type = EventType.admin_action_recorded;
  conversation_id = conversation_id;
  actor_account_id = saved.actor_account_id;
  actor_device_id = [];
  causation_id = [];
  correlation_id = [];
  message_id = [];
  sequence = 0;
  payload_type = codes "moderation_action";
  payload = no_payload;
  read_through_sequence = 0;
  metadata = moderation_event_metadata saved;
  created_at = saved.created_at;
}

unfoldable pub save_moderation_action_with_sync_event :
    MemoryStore
    → Time
    → Draws
    → Text
    → ModerationAction
    → Saved (ModerationAction × Option EventEnvelope)
save_moderation_action_with_sync_event s clock draws conversation_id action = do
  (saved, s') ← save_moderation_action s clock draws action
  if sync_visible_moderation_action saved.type
      then (do
        (event, s'') ← save_event s' (moderation_event draws conversation_id saved)
        ok ((saved, some event), s''))
      else ok ((saved, none), s')

-- `newID`, whose failure is an error that is not of the domain.
abbrev pub drawn : Option Text → Result Error Text
drawn none = err internal
drawn (some id) = ok id

-- An action under an id that is drawn for it: the end of each moderation transaction.
unfoldable pub log_drawn :
    MemoryStore
    → Time
    → Draws
    → Text
    → (Text → ModerationAction)
    → Saved (ModerationAction × Option EventEnvelope)
log_drawn s clock draws conversation_id action = do
  action_id ← drawn draws.action_id
  save_moderation_action_with_sync_event s clock draws conversation_id (action action_id)

abbrev pub split_conversation_id : Text × Text → Result Error Text
split_conversation_id (conversation_id, topic_id) =
    if is_empty conversation_id || is_empty topic_id then err invalid_input else ok conversation_id

unfoldable pub moderation_conversation_id : ModerationTargetKind → Text → Result Error Text
moderation_conversation_id ModerationTargetKind.unspecified target_id = err invalid_input
moderation_conversation_id ModerationTargetKind.topic target_id =
    split_conversation_id (split_moderation_key (trim_space target_id))
moderation_conversation_id _ target_id =
    if is_empty (trim_space target_id) then err invalid_input else ok (trim_space target_id)

unfoldable pub log_moderation_action :
    MemoryStore → Time → Draws → ModerationAction → Saved ModerationAction
log_moderation_action s clock draws given = do
  let action = record given {
    target_id = trim_space given.target_id;
    actor_account_id = trim_space given.actor_account_id;
    target_account_id = trim_space given.target_account_id;
    reason = trim_space given.reason;
    created_at = if is_zero given.created_at then clock else given.created_at;
  }
  refuse_if
      (is_unspecified action.target_kind
        || is_empty action.target_id
        || is_empty action.actor_account_id
        || no_type action.type)
      invalid_input
  conversation_id ← moderation_conversation_id action.target_kind action.target_id
  ((saved, event), s') ← save_moderation_action_with_sync_event s clock draws conversation_id action
  ok (saved, s')
