-- ===== src/Federation/Carried.antt =====
-- internal/domain/federation/worker.go: which events of the conversations a link carries.
use zvonilka.Base.{
  Text, Bool, true, false, List, [], ◌∷◌, Result, ok, ◌>>=◌, none, some, not, trim_lower,
  if◌then◌else◌, is_empty, ◌&&◌, any, ◌||◌, codes, text_eq,
}
use zvonilka.Base.Dict
use zvonilka.Federation.Models.{Error, Link, Peer, ConversationKind, EventFamily, MessageKind}
use zvonilka.Federation.LinkForm.{
  conversation_kind_text, event_family_text, message_kind_text, is_ultra_constrained, is_disabled,
}
use zvonilka.Conversation.Events.{EventEnvelope, EventType}

unfoldable pub event_family : EventType → EventFamily
event_family EventType.conversation_created = EventFamily.conversation
event_family EventType.conversation_updated = EventFamily.conversation
event_family EventType.conversation_members = EventFamily.membership
event_family EventType.message_created = EventFamily.message
event_family EventType.message_edited = EventFamily.message
event_family EventType.message_deleted = EventFamily.message
event_family EventType.message_pinned = EventFamily.message
event_family EventType.message_reaction_added = EventFamily.message
event_family EventType.message_reaction_updated = EventFamily.message
event_family EventType.message_reaction_removed = EventFamily.message
event_family EventType.message_delivered = EventFamily.receipt
event_family EventType.message_read = EventFamily.receipt
event_family EventType.sync_acknowledged = EventFamily.receipt
event_family EventType.topic_created = EventFamily.topic
event_family EventType.topic_updated = EventFamily.topic
event_family EventType.topic_archived = EventFamily.topic
event_family EventType.topic_pinned = EventFamily.topic
event_family EventType.topic_closed = EventFamily.topic
event_family EventType.user_updated = EventFamily.user
event_family EventType.admin_action_recorded = EventFamily.admin_action
event_family EventType.unspecified = EventFamily.unspecified

unfoldable pub event_family_allowed : List EventFamily → EventEnvelope → Bool
event_family_allowed [] event = true
event_family_allowed (a ∷ as') event =
    let family = event_family_text (event_family event.event_type) in
    not (is_empty family) && any (λ c. text_eq (event_family_text c) family) (a ∷ as')

abbrev pub has_message : EventType → Bool
has_message EventType.message_created = true
has_message EventType.message_edited = true
has_message _ = false

-- The text of the kind, or none where it is not one of the declared ones.
unfoldable pub link_message_kind : Text → Text
link_message_kind value =
    let kind = trim_lower value in
    if any (text_eq kind) (
      codes "text"
      ∷ codes "image"
      ∷ codes "video"
      ∷ codes "document"
      ∷ codes "voice"
      ∷ codes "sticker"
      ∷ codes "gif"
      ∷ codes "system"
      ∷ [])
    then kind
    else []

-- event.Metadata[key]
abbrev pub metadata_value : EventEnvelope → Text → Text
metadata_value event key = elim (Dict.get event.metadata key) [ none ↦ [] | some value ↦ value ]

unfoldable pub allows_kind : Link → List MessageKind → Text → Bool
allows_kind link [] kind = true
allows_kind link (a ∷ as') kind =
    if is_empty kind
    then not (is_ultra_constrained link.delivery_class) && not (is_disabled link.media_policy)
    else any (λ c. text_eq (message_kind_text c) kind) (a ∷ as')

unfoldable pub message_kind_allowed : Link → EventEnvelope → Bool
message_kind_allowed link event =
    not (has_message event.event_type)
    || allows_kind link link.allowed_message_kinds
        (link_message_kind (metadata_value event (codes "message_kind")))

abbrev pub comes_from : Peer → EventEnvelope → Bool
comes_from peer event =
    let origin = trim_lower (metadata_value event (codes "federation_origin_server")) in
    not (is_empty origin) && text_eq origin (trim_lower peer.server_name)

-- The text of the kind of a conversation is read from the conversations' store.
unfoldable pub conversation_allowed :
    (Text → Result Error Text) → List ConversationKind → EventEnvelope → Result Error Bool
conversation_allowed kind_of [] event = ok true
conversation_allowed kind_of (a ∷ as') event = elim (is_empty event.conversation_id) [
  | true ↦ ok true
  | false ↦ do
    kind ← kind_of event.conversation_id
    ok (any (λ c. text_eq (conversation_kind_text c) (trim_lower kind)) (a ∷ as'))
]

-- The loop that keeps the events that the link carries.
unfoldable pub carried_events :
    (Text → Result Error Text)
    → Peer
    → Link
    → List EventEnvelope
    → Result Error (List EventEnvelope)
carried_events kind_of peer link [] = ok []
carried_events kind_of peer link (event ∷ events) =
    let rest = carried_events kind_of peer link events in
    if comes_from peer event
      || not (event_family_allowed link.allowed_event_families event)
      || not (message_kind_allowed link event)
    then rest
    else do
      allowed ← conversation_allowed kind_of link.allowed_conversation_kinds event
      kept ← rest
      ok (if allowed then event ∷ kept else kept)
