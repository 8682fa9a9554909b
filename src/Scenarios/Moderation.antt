-- ===== src/Scenarios/Moderation.antt =====
-- A group with an owner and a member, whom the owner bans and lets in again.
use zvonilka.Base.{
  codes, pos, false, true, [], ◌∷◌, some, none, Result, ok, err, ◌≡◌, refl, inl, Option, trim_space,
  text_eq, cut, is_space, trim_left, trim_right, decimal, if◌then◌else◌, ◌↔◌, ◌⊎◌,
}
use zvonilka.Base.Dict
use zvonilka.Conversation.Models.{
  forbidden, refused, Conversation, ConversationKind, ConversationSettings, ConversationMember,
  MemberRole, ModerationTargetKind, ModerationPolicy, ModerationRestriction,
  ModerationRestrictionState, ModerationAction, ModerationActionType, no_restriction,
}
use zvonilka.Conversation.Events.{EventEnvelope}
use zvonilka.Conversation.Params.{
  SetModerationPolicyParams, ApplyModerationRestrictionParams, LiftModerationRestrictionParams,
  CheckModerationWriteParams,
}
use zvonilka.Conversation.Store.{
  MemoryStore, memory_reads, restriction_by, policy_by_target, IsValidPolicy, kind_text, policy_key,
  restriction_key, member_key, conversation_by_id, member_by, save_policy, save_action,
  save_restriction, delete_restriction, save_event,
}
use zvonilka.Conversation.Moderation.Target.{
  moderation_key, split_moderation_key, split_trimmed, can_moderate, lookup_moderation_conversation,
  existing_moderation_policy, base_moderation_policy, is_manager,
}
use zvonilka.Conversation.Moderation.Target.Keys.{split_moderation_key-moderation_key}
use zvonilka.Conversation.Moderation.RateLimit.{
  check_moderation_write, effective_restriction, live_restriction, expire, allowed, rate_limit,
}
use zvonilka.Conversation.Moderation.RateLimit.Decision.{
  check_moderation_write-allowed_iff, IsComplete,
}
use zvonilka.Conversation.Moderation.Audit.{
  Draws, save_moderation_action, save_moderation_action_with_sync_event, log_drawn,
  moderation_event_metadata, trim_metadata, sync_visible_moderation_action, action_type_text,
}
use zvonilka.Conversation.Moderation.Policy.{
  admit, store_override, set_moderation_policy, next_policy, preserve_inherited_topic_threads,
}
use zvonilka.Conversation.Moderation.Policy.Override.{Admitted, set_moderation_policy-Admitted}
use zvonilka.Conversation.Moderation.Restrictions.{
  apply_moderation_restriction, lift_moderation_restriction, authorize, time_or_zero,
  restriction_action_type, moderation_lift_action_type,
}
use zvonilka.Conversation.Moderation.Restrictions.Enforcement.{Authorized, apply-Authorized}
use zvonilka.Conversation.Moderation.Restrictions.Refusal.{check-apply-refused}

abbrev pub open_settings : ConversationSettings
open_settings = record {
  only_admins_can_write = false;
  only_admins_can_add_members = false;
  allow_reactions = true;
  allow_forwards = true;
  allow_threads = true;
  require_encrypted_messages = false;
  require_trusted_devices = false;
  require_join_approval = false;
  pinned_messages_only_admins = false;
  slow_mode_interval = pos 0;
}

abbrev pub room : Conversation
room = record {
  id = codes "room";
  kind = ConversationKind.group;
  title = codes "Room";
  description = [];
  avatar_media_id = [];
  owner_account_id = codes "ann";
  settings = open_settings;
  archived = false;
  muted = false;
  pinned = false;
  hidden = false;
  last_sequence = 0;
  unread_count = 0;
  unread_mention_count = 0;
  created_at = 1;
  updated_at = 1;
  last_message_at = 0;
}

abbrev pub ann : ConversationMember
ann = record {
  conversation_id = codes "room";
  account_id = codes "ann";
  role = MemberRole.owner;
  invited_by_account_id = [];
  muted = false;
  banned = false;
  joined_at = 1;
  left_at = 0;
}

abbrev pub bob : ConversationMember
bob = record ann { account_id = codes "bob"; role = MemberRole.member }

abbrev pub start : MemoryStore
start = record {
  conversations_by_id = (codes "room", room) ∷ [];
  topics_by_key = [];
  members_by_key = (codes "room|ann", ann) ∷ (codes "room|bob", bob) ∷ [];
  events_by_id = [];
  moderation_policies_by_key = [];
  moderation_reports_by_id = [];
  moderation_actions_by_id = [];
  moderation_restrictions = [];
  moderation_rate_states = [];
  event_order = [];
  next_sequence = 0;
}

abbrev pub draws : Draws
draws = record { action_id = some (codes "act-1"); event_id = codes "evt-1" }

abbrev ban : ApplyModerationRestrictionParams
ban = record {
  target_kind = ModerationTargetKind.conversation;
  target_id = codes "room";
  actor_account_id = codes "ann";
  target_account_id = codes "bob";
  state = ModerationRestrictionState.banned;
  reason = codes "spam";
  duration = pos 50;
  created_at = 0;
}

-- What an operation gives, or the given pair where it fails.
abbrev pub given {ℓ} : {A : Type ℓ} {E : Type 0} → A → Result E A → A
given a (ok b) = b
given a (err e) = a

abbrev banned_row : ModerationRestriction
banned_row = record {
  target_kind = ModerationTargetKind.conversation;
  target_id = codes "room";
  account_id = codes "bob";
  state = ModerationRestrictionState.banned;
  applied_by_account_id = codes "ann";
  reason = codes "spam";
  expires_at = 150;
  created_at = 100;
  updated_at = 100;
}

abbrev banned : ModerationRestriction × MemoryStore
banned = given (no_restriction, start) (apply_moderation_restriction start 100 draws ban)

ban_done : apply_moderation_restriction start 100 draws ban ≡ ok (banned_row, banned.1)
unfolding authorize lookup_moderation_conversation can_moderate trim_space trim_left trim_right
    is_space text_eq Dict.get Dict.put memory_reads conversation_by_id member_by member_key
    log_drawn save_moderation_action_with_sync_event save_moderation_action save_action
    trim_metadata sync_visible_moderation_action moderation_event_metadata action_type_text
    kind_text decimal save_event apply_moderation_restriction save_restriction restriction_key
    policy_key time_or_zero restriction_action_type
ban_done = refl

abbrev check : CheckModerationWriteParams
check = record {
  target_kind = ModerationTargetKind.conversation;
  target_id = codes "room";
  actor_account_id = codes "bob";
  actor_role = MemberRole.member;
  base_policy = base_moderation_policy room ModerationTargetKind.conversation (codes "room");
  created_at = 0;
}

check-apply-refused_example :
    check_moderation_write (memory_reads banned.1) 149 check ≡ err (refused, forbidden)
check-apply-refused_example =
    check-apply-refused start banned.1 100 draws ban banned_row 149 check ban_done (inl refl) refl
      refl refl refl

apply-Authorized_example :
    Authorized start ModerationTargetKind.conversation
      (trim_space (codes "room"))
      (trim_space (codes "ann"))
    × (restriction_by banned.1 ModerationTargetKind.conversation
          (trim_space (codes "room"))
          (trim_space (codes "bob"))
        ≡ ok banned_row)
    × ((action : ModerationAction) × (banned.1.moderation_actions_by_id
          ≡ Dict.put start.moderation_actions_by_id action.id action)
        × (Dict.get start.moderation_actions_by_id action.id ≡ none))
    × (banned.1.moderation_policies_by_key ≡ start.moderation_policies_by_key)
    × (banned.1.moderation_rate_states ≡ start.moderation_rate_states)
apply-Authorized_example = apply-Authorized start banned.1 100 draws ban banned_row ban_done

abbrev lift : LiftModerationRestrictionParams
lift = record {
  target_kind = ModerationTargetKind.conversation;
  target_id = codes "room";
  actor_account_id = codes "ann";
  target_account_id = codes "bob";
  reason = [];
  created_at = 0;
}

abbrev pub more_draws : Draws
more_draws = record { action_id = some (codes "act-2"); event_id = codes "evt-2" }

abbrev lifted : MemoryStore
lifted = given start (lift_moderation_restriction banned.1 120 more_draws lift)

lift_done : lift_moderation_restriction banned.1 120 more_draws lift ≡ ok lifted
unfolding lift_moderation_restriction delete_restriction moderation_lift_action_type Dict.remove
    authorize lookup_moderation_conversation can_moderate trim_space trim_left trim_right is_space
    text_eq Dict.get Dict.put memory_reads conversation_by_id member_by member_key log_drawn
    save_moderation_action_with_sync_event save_moderation_action save_action trim_metadata
    sync_visible_moderation_action moderation_event_metadata action_type_text kind_text decimal
    save_event apply_moderation_restriction save_restriction restriction_key policy_key time_or_zero
    restriction_action_type
lift_done = refl

abbrev slow : SetModerationPolicyParams
slow = record {
  target_kind = ModerationTargetKind.conversation;
  target_id = codes "room";
  actor_account_id = codes "ann";
  only_admins_can_write = false;
  only_admins_can_add_members = false;
  allow_reactions = true;
  allow_forwards = true;
  allow_threads = true;
  require_encrypted_messages = false;
  require_trusted_devices = false;
  require_join_approval = false;
  pinned_messages_only_admins = false;
  slow_mode_interval = pos 10;
  anti_spam_window = pos 100;
  anti_spam_burst_limit = pos 3;
  shadow_mode = false;
  created_at = 0;
}

abbrev set : ModerationPolicy × MemoryStore
set = given (check.base_policy, start) (set_moderation_policy start 100 draws slow)

set_done : set_moderation_policy start 100 draws slow ≡ ok (set.0, set.1)
unfolding set_moderation_policy admit store_override existing_moderation_policy policy_by_target
    policy_key next_policy preserve_inherited_topic_threads base_moderation_policy save_policy
    authorize lookup_moderation_conversation can_moderate trim_space trim_left trim_right is_space
    text_eq Dict.get Dict.put memory_reads conversation_by_id member_by member_key log_drawn
    save_moderation_action_with_sync_event save_moderation_action save_action trim_metadata
    sync_visible_moderation_action moderation_event_metadata action_type_text kind_text decimal
    save_event
set_done = refl

set_moderation_policy-Admitted_example :
    (a : Admitted start slow) × (policy_by_target set.1 ModerationTargetKind.conversation
        (trim_space (codes "room"))
      ≡ ok set.0)
    × IsValidPolicy set.0
    × (set.0.created_at ≡ (if a.existing then a.inherited.created_at else 100))
set_moderation_policy-Admitted_example =
    set_moderation_policy-Admitted start set.1 100 draws slow set.0 set_done

abbrev kick : ModerationAction
kick = record {
  id = codes "act-9";
  target_kind = ModerationTargetKind.conversation;
  target_id = codes "room";
  actor_account_id = codes "ann";
  target_account_id = codes "bob";
  type = ModerationActionType.kick;
  duration = pos 0;
  reason = [];
  metadata = [];
  created_at = 70;
}

abbrev kicked : (ModerationAction × Option EventEnvelope) × MemoryStore
kicked =
    given ((kick, none), start)
      (save_moderation_action_with_sync_event start 100 draws (codes "room") kick)

kick_done :
    save_moderation_action_with_sync_event start 100 draws (codes "room") kick
    ≡ ok ((kicked.0.0, kicked.0.1), kicked.1)
unfolding trim_space trim_left trim_right is_space text_eq Dict.get Dict.put log_drawn
    save_moderation_action_with_sync_event save_moderation_action save_action trim_metadata
    sync_visible_moderation_action moderation_event_metadata action_type_text kind_text decimal
    save_event
kick_done = refl

split_moderation_key-moderation_key_example :
    split_moderation_key (moderation_key (codes " room ") (codes "news"))
    ≡ (trim_space (codes " room "), trim_space (codes "news"))
unfolding trim_space
split_moderation_key-moderation_key_example =
    split_moderation_key-moderation_key (codes " room ") (codes "news") refl refl refl

unrestricted :
    effective_restriction
      (memory_reads start)
      149
      ModerationTargetKind.conversation
      (trim_space (codes "room"))
      (trim_space (codes "bob"))
    ≡ ok no_restriction
unfolding effective_restriction live_restriction expire memory_reads restriction_by restriction_key
    policy_key kind_text trim_space trim_left trim_right is_space text_eq Dict.get
    split_moderation_key split_trimmed cut
unrestricted = refl

named : IsComplete check
unfolding trim_space trim_left trim_right is_space
named = (refl, refl, refl)

check_moderation_write-allowed_iff_example :
    (check_moderation_write (memory_reads start) 149 check ≡ ok allowed) ↔ (
      ((no_restriction.state ≡ ModerationRestrictionState.shadowed)
        × (allowed ≡ record allowed { shadow_hidden = true }))
      ⊎ ((no_restriction.state ≡ ModerationRestrictionState.unspecified)
          × (allowed ≡ allowed)
          × ((check.base_policy.only_admins_can_write ≡ false)
              ⊎ (is_manager MemberRole.member ≡ true))
          × (rate_limit
                (memory_reads start)
                149
                check.base_policy
                ModerationTargetKind.conversation
                (trim_space (codes "room"))
                (trim_space (codes "bob"))
              ≡ ok tt)))
check_moderation_write-allowed_iff_example =
    check_moderation_write-allowed_iff (memory_reads start) 149 check no_restriction allowed named
      unrestricted
