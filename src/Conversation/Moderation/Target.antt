-- ===== src/Conversation/Moderation/Target.antt =====
-- internal/domain/conversation/policy.go: the scope of a write and the policy that governs it.
pub mod Keys
use zvonilka.Base.{
  Text, trim_space, is_empty, cut, if◌then◌else◌, none, some, ◌++◌, ◌∷◌, [], Result, ok, err, pos,
  ◌>>=◌, text_eq, Bool, true, false, ◌||◌,
}
use zvonilka.Conversation.Models.{
  Error, invalid_input, Conversation, ConversationKind, ConversationMember, MemberRole,
  ModerationTargetKind, ModerationPolicy,
}
use zvonilka.Conversation.Store.{StoreReads}

-- moderationTargetSeparator
abbrev pub separator : Prim.Native.Nat.ℕ
separator = 0x1F

unfoldable pub moderation_key : Text → Text → Text
moderation_key conversation_id topic_id =
    if is_empty (trim_space topic_id)
    then trim_space conversation_id
    else trim_space conversation_id ++ (separator ∷ trim_space topic_id)

-- The parts of a target id whose white space is cut off.
unfoldable pub split_trimmed : Text → Text × Text
split_trimmed target_id = if is_empty target_id then ([], []) else elim (cut separator target_id) [
  | none ↦ (target_id, [])
  | some (conversation_id, topic_id) ↦ (conversation_id, topic_id)
]

unfoldable pub split_moderation_key : Text → Text × Text
split_moderation_key target_id = split_trimmed (trim_space target_id)

abbrev pub is_topic : ModerationTargetKind → Bool
is_topic ModerationTargetKind.topic = true
is_topic _ = false

abbrev pub scope_of_kind : ConversationKind → ModerationTargetKind
scope_of_kind ConversationKind.channel = ModerationTargetKind.channel
scope_of_kind _ = ModerationTargetKind.conversation

unfoldable pub moderation_target : Conversation → Text → ModerationTargetKind × Text
moderation_target conversation thread_id =
    if is_empty (trim_space thread_id)
    then (scope_of_kind conversation.kind, conversation.id)
    else (ModerationTargetKind.topic, moderation_key conversation.id (trim_space thread_id))

unfoldable pub base_moderation_policy :
    Conversation → ModerationTargetKind → Text → ModerationPolicy
base_moderation_policy conversation target_kind target_id = record {
  target_kind = target_kind;
  target_id = target_id;
  only_admins_can_write = settings.only_admins_can_write;
  only_admins_can_add_members = settings.only_admins_can_add_members;
  allow_reactions = settings.allow_reactions;
  allow_forwards = settings.allow_forwards;
  allow_threads = settings.allow_threads;
  require_encrypted_messages = settings.require_encrypted_messages;
  require_trusted_devices = settings.require_trusted_devices;
  require_join_approval = settings.require_join_approval;
  pinned_messages_only_admins = settings.pinned_messages_only_admins;
  slow_mode_interval = settings.slow_mode_interval;
  anti_spam_window = pos 0;
  anti_spam_burst_limit = pos 0;
  shadow_mode = false;
  created_at = conversation.created_at;
  updated_at = conversation.updated_at;
}
  where
    open conversation use {settings}

-- `if errors.Is(err, ErrNotFound) { … }` on a row that was looked up.
abbrev pub or_else {ℓ} : {A : Type ℓ} → Result Error A → Result Error A → Result Error A
or_else (ok a) other = ok a
or_else (err Error.not_found) other = other
or_else (err e) other = err e

-- policyForConversation, for a target that is computed already.
unfoldable pub policy_for_target :
    StoreReads → Conversation → ModerationTargetKind × Text → Result Error ModerationPolicy
policy_for_target reads conversation (kind, target_id) =
    let base = ok (base_moderation_policy conversation kind target_id) in
    or_else (reads.policy kind target_id) (
      if is_topic kind
      then or_else (reads.policy ModerationTargetKind.conversation conversation.id) base
      else base)

unfoldable pub policy_for_conversation :
    StoreReads → Conversation → Text → Result Error ModerationPolicy
unfolding policy_for_target
policy_for_conversation reads conversation thread_id =
    policy_for_target reads conversation (moderation_target conversation thread_id)

-- The policy that a target has before a write, and whether a row of its own holds it.
inherited_policy :
    StoreReads → Conversation → ModerationTargetKind → Text → Result Error (ModerationPolicy × Bool)
inherited_policy reads conversation ModerationTargetKind.topic target_id = do
  inherited ← policy_for_conversation reads conversation (split_moderation_key target_id).1
  ok (inherited, false)
inherited_policy reads conversation ModerationTargetKind.unspecified target_id = err invalid_input
inherited_policy reads conversation kind target_id =
    ok (base_moderation_policy conversation kind target_id, false)

unfoldable pub existing_moderation_policy :
    StoreReads → Conversation → ModerationTargetKind → Text → Result Error (ModerationPolicy × Bool)
unfolding inherited_policy
existing_moderation_policy reads conversation kind target_id =
    or_else (do policy ← reads.policy kind target_id; ok (policy, true))
      (inherited_policy reads conversation kind target_id)

-- lookupModerationConversation
channel_only : ModerationTargetKind → Conversation → Result Error Conversation
channel_only ModerationTargetKind.channel conversation = elim conversation.kind [
  | ConversationKind.channel ↦ ok conversation
  | _ ↦ err invalid_input
]
channel_only _ conversation = ok conversation

lookup_topic_conversation : StoreReads → Text × Text → Result Error Conversation
lookup_topic_conversation reads (conversation_id, topic_id) =
    if is_empty conversation_id || is_empty topic_id then err invalid_input else do
      conversation ← reads.conversation_row conversation_id
      topic ← reads.topic_row conversation.id topic_id
      if text_eq topic.conversation_id conversation.id then ok conversation else err invalid_input

unfoldable pub lookup_moderation_conversation :
    StoreReads → ModerationTargetKind → Text → Result Error Conversation
unfolding channel_only lookup_topic_conversation
lookup_moderation_conversation reads ModerationTargetKind.unspecified target_id = err invalid_input
lookup_moderation_conversation reads ModerationTargetKind.topic target_id =
    lookup_topic_conversation reads (split_moderation_key target_id)
lookup_moderation_conversation reads kind target_id = do
  conversation ← reads.conversation_row target_id
  channel_only kind conversation

abbrev pub is_manager : MemberRole → Bool
is_manager MemberRole.owner = true
is_manager MemberRole.admin = true
is_manager _ = false

unfoldable pub can_moderate : ConversationMember → Text → Bool
can_moderate member actor_account_id =
    if text_eq member.account_id actor_account_id then is_manager member.role else false
