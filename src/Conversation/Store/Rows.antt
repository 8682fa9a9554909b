-- ===== src/Conversation/Store/Rows.antt =====
-- internal/domain/conversation/teststore: the maps of `memoryStore` and the reads of them.
use zvonilka.Base.{
  ℕ, Text, codes, is_empty, trim_space, Bool, ◌||◌, if◌then◌else◌, Option, none, some, List, [],
  ◌∷◌, ◌++◌, Result, ok, err, true, false,
}
use zvonilka.Base.Dict
use zvonilka.Base.Dict.{Dict}
use zvonilka.Conversation.Models.{
  Error, not_found, Conversation, ConversationTopic, ConversationMember, ModerationTargetKind,
  ModerationPolicy, ModerationReport, ModerationAction, ModerationRestriction, ModerationRateState,
}
use zvonilka.Conversation.Events.{EventEnvelope}

pub record MemoryStore : Type 0 where
  pub conversations_by_id : Dict Conversation
  pub topics_by_key : Dict ConversationTopic
  pub members_by_key : Dict ConversationMember
  pub events_by_id : Dict EventEnvelope
  pub moderation_policies_by_key : Dict ModerationPolicy
  pub moderation_reports_by_id : Dict ModerationReport
  pub moderation_actions_by_id : Dict ModerationAction
  pub moderation_restrictions : Dict ModerationRestriction
  pub moderation_rate_states : Dict ModerationRateState
  pub event_order : List Text
  pub next_sequence : ℕ  -- uint64

-- The reads of the `Store` interface that moderation makes.
pub record StoreReads : Type 0 where
  pub policy : ModerationTargetKind → Text → Result Error ModerationPolicy
  pub restriction : ModerationTargetKind → Text → Text → Result Error ModerationRestriction
  pub rate_state : ModerationTargetKind → Text → Text → Result Error ModerationRateState
  pub conversation_row : Text → Result Error Conversation
  pub member_row : Text → Text → Result Error ConversationMember
  pub topic_row : Text → Text → Result Error ConversationTopic

unfoldable pub kind_text : ModerationTargetKind → Text
kind_text ModerationTargetKind.unspecified = []
kind_text ModerationTargetKind.conversation = codes "conversation"
kind_text ModerationTargetKind.topic = codes "topic"
kind_text ModerationTargetKind.channel = codes "channel"

abbrev pub is_unspecified : ModerationTargetKind → Bool
is_unspecified ModerationTargetKind.unspecified = true
is_unspecified _ = false

-- Two parts joined by "|".
abbrev pub joined : Text → Text → Text
joined a b = a ++ (0x7C ∷ b)

unfoldable pub policy_key : ModerationTargetKind → Text → Text
policy_key kind target_id = joined (trim_space (kind_text kind)) (trim_space target_id)

unfoldable pub restriction_key : ModerationTargetKind → Text → Text → Text
restriction_key kind target_id account_id =
    joined (policy_key kind target_id) (trim_space account_id)

unfoldable pub member_key : Text → Text → Text
member_key conversation_id account_id = joined conversation_id account_id

-- `row, ok := m[key]; if !ok { return ErrNotFound }`
abbrev pub or_not_found {ℓ} : {A : Type ℓ} → Option A → Result Error A
or_not_found none = err not_found
or_not_found (some a) = ok a

unfoldable pub policy_by_target :
    MemoryStore → ModerationTargetKind → Text → Result Error ModerationPolicy
policy_by_target s kind target_id =
    if is_unspecified kind || is_empty (trim_space target_id)
    then err not_found
    else or_not_found
        (Dict.get s.moderation_policies_by_key (policy_key kind (trim_space target_id)))

unfoldable pub restriction_by :
    MemoryStore → ModerationTargetKind → Text → Text → Result Error ModerationRestriction
restriction_by s kind target_id account_id =
    if is_unspecified kind || is_empty (trim_space target_id) || is_empty (trim_space account_id)
    then err not_found
    else or_not_found (
        Dict.get s.moderation_restrictions
          (restriction_key kind (trim_space target_id) (trim_space account_id)))

unfoldable pub rate_state_by :
    MemoryStore → ModerationTargetKind → Text → Text → Result Error ModerationRateState
rate_state_by s kind target_id account_id =
    if is_unspecified kind || is_empty (trim_space target_id) || is_empty (trim_space account_id)
    then err not_found
    else or_not_found (
        Dict.get s.moderation_rate_states
          (restriction_key kind (trim_space target_id) (trim_space account_id)))

unfoldable pub report_by_id : MemoryStore → Text → Result Error ModerationReport
report_by_id s report_id =
    if is_empty (trim_space report_id)
    then err not_found
    else or_not_found (Dict.get s.moderation_reports_by_id (trim_space report_id))

unfoldable pub conversation_by_id : MemoryStore → Text → Result Error Conversation
conversation_by_id s conversation_id =
    if is_empty (trim_space conversation_id)
    then err not_found
    else or_not_found (Dict.get s.conversations_by_id (trim_space conversation_id))

unfoldable pub member_by : MemoryStore → Text → Text → Result Error ConversationMember
member_by s conversation_id account_id =
    or_not_found
      (Dict.get s.members_by_key (member_key (trim_space conversation_id) (trim_space account_id)))

unfoldable pub topic_by : MemoryStore → Text → Text → Result Error ConversationTopic
topic_by s conversation_id topic_id =
    or_not_found
      (Dict.get s.topics_by_key (member_key (trim_space conversation_id) (trim_space topic_id)))

unfoldable pub memory_reads : MemoryStore → StoreReads
memory_reads s = record {
  policy = policy_by_target s;
  restriction = restriction_by s;
  rate_state = rate_state_by s;
  conversation_row = conversation_by_id s;
  member_row = member_by s;
  topic_row = topic_by s;
}
