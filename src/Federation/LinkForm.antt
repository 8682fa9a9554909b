-- ===== src/Federation/LinkForm.antt =====
-- internal/domain/federation/models.go: the normal form of a link.
use zvonilka.Base.{
  ◌>>◌, Text, Time, ℤ, [], ◌∷◌, List, true, false, codes, if◌then◌else◌, Bool, pos, or_now, Result,
  text_eq, is_empty, ◌||◌, ◌*◌, is_positive, trim_space, trim_lower, refuse_if, ltb_ℤ, ok,
}
use zvonilka.Federation.Models.{
  Error, invalid_input, Link, LinkState, TransportKind, DeliveryClass, DiscoveryMode, MediaPolicy,
  ConversationKind, EventFamily, MessageKind,
}
use zvonilka.Notification.Routing.{text_lt}

abbrev pub conversation_kind_text : ConversationKind → Text
conversation_kind_text ConversationKind.unspecified = []
conversation_kind_text ConversationKind.direct = codes "direct"
conversation_kind_text ConversationKind.group = codes "group"
conversation_kind_text ConversationKind.channel = codes "channel"

abbrev pub event_family_text : EventFamily → Text
event_family_text EventFamily.unspecified = []
event_family_text EventFamily.conversation = codes "conversation"
event_family_text EventFamily.membership = codes "membership"
event_family_text EventFamily.message = codes "message"
event_family_text EventFamily.receipt = codes "receipt"
event_family_text EventFamily.topic = codes "topic"
event_family_text EventFamily.user = codes "user"
event_family_text EventFamily.admin_action = codes "admin_action"

abbrev pub message_kind_text : MessageKind → Text
message_kind_text MessageKind.unspecified = []
message_kind_text MessageKind.text = codes "text"
message_kind_text MessageKind.image = codes "image"
message_kind_text MessageKind.video = codes "video"
message_kind_text MessageKind.document = codes "document"
message_kind_text MessageKind.voice = codes "voice"
message_kind_text MessageKind.sticker = codes "sticker"
message_kind_text MessageKind.gif = codes "gif"
message_kind_text MessageKind.system = codes "system"

module _ {A : Type 0} (text : A → Text) where
  -- The loop over the values, from the last: a value whose text is there already is passed over, and
  -- the rest stands in the order of the texts.
  unfoldable pub insert_value : A → List A → List A
  insert_value a [] = a ∷ []
  insert_value a (b ∷ bs) =
      let rest = insert_value a bs in
      if text_eq (text a) (text b)
      then b ∷ bs
      else if text_lt (text a) (text b)
      then a ∷ b ∷ bs
      else b ∷ rest

  unfoldable pub sorted_values : List A → List A
  sorted_values [] = []
  sorted_values (a ∷ as') =
      let rest = sorted_values as' in if is_empty (text a) then rest else insert_value a rest

  -- normalizeConversationKinds, normalizeEventFamilies and normalizeMessageKinds: the declared
  -- values, each once and in order, or the default where there is none.
  unfoldable pub normalize_values : List A → List A → List A
  normalize_values default values = elim (sorted_values values) [
    | [] ↦ default
    | a ∷ rest ↦ a ∷ rest
  ]

abbrev pub default_conversation_kinds : List ConversationKind
default_conversation_kinds =
    ConversationKind.direct ∷ ConversationKind.group ∷ ConversationKind.channel ∷ []

abbrev pub default_event_families : DeliveryClass → List EventFamily
default_event_families DeliveryClass.ultra_constrained =
    EventFamily.conversation ∷ EventFamily.membership ∷ EventFamily.message ∷ EventFamily.receipt
    ∷ EventFamily.topic ∷ []
default_event_families _ =
    EventFamily.conversation ∷ EventFamily.membership ∷ EventFamily.message ∷ EventFamily.receipt
    ∷ EventFamily.topic ∷ EventFamily.user ∷ EventFamily.admin_action ∷ []

abbrev pub is_disabled : MediaPolicy → Bool
is_disabled MediaPolicy.disabled = true
is_disabled _ = false

abbrev pub is_ultra_constrained : DeliveryClass → Bool
is_ultra_constrained DeliveryClass.ultra_constrained = true
is_ultra_constrained _ = false

abbrev pub default_message_kinds : DeliveryClass → MediaPolicy → List MessageKind
default_message_kinds delivery_class media_policy =
    if is_ultra_constrained delivery_class || is_disabled media_policy
    then MessageKind.system ∷ MessageKind.text ∷ []
    else MessageKind.document ∷ MessageKind.gif ∷ MessageKind.image ∷ MessageKind.sticker
      ∷ MessageKind.system ∷ MessageKind.text ∷ MessageKind.video ∷ MessageKind.voice ∷ []

abbrev pub or_https : TransportKind → TransportKind
or_https TransportKind.unspecified = TransportKind.https
or_https kind = kind

abbrev pub or_realtime : DeliveryClass → DeliveryClass
or_realtime DeliveryClass.unspecified = DeliveryClass.realtime
or_realtime kind = kind

abbrev pub or_manual : DiscoveryMode → DiscoveryMode
or_manual DiscoveryMode.unspecified = DiscoveryMode.manual
or_manual mode = mode

abbrev pub or_media_policy : DeliveryClass → MediaPolicy → MediaPolicy
or_media_policy delivery_class MediaPolicy.unspecified =
    if is_ultra_constrained delivery_class
    then MediaPolicy.disabled
    else MediaPolicy.reference_proxy
or_media_policy delivery_class policy = policy

abbrev pub or_active : LinkState → LinkState
or_active LinkState.unspecified = LinkState.active
or_active state = state

-- The limits of a class that is set.
abbrev pub default_bundle_bytes : DeliveryClass → ℤ
default_bundle_bytes DeliveryClass.realtime = pos (256 * 1024)
default_bundle_bytes DeliveryClass.delay_tolerant = pos (64 * 1024)
default_bundle_bytes _ = pos (2 * 1024)

abbrev pub default_fragment_bytes : DeliveryClass → ℤ
default_fragment_bytes DeliveryClass.realtime = pos (64 * 1024)
default_fragment_bytes DeliveryClass.delay_tolerant = pos (8 * 1024)
default_fragment_bytes _ = pos 192

abbrev pub positive_or_default : ℤ → ℤ → ℤ
positive_or_default n default = if is_positive n then n else default

-- The row with its defaults, before the tests on it.
unfoldable pub defaulted_link : Link → Time → Link
defaulted_link l now =
    let delivery_class = or_realtime l.delivery_class in
    let media_policy = or_media_policy delivery_class l.media_policy in
    let created_at = or_now l.created_at now in
    record {
      id = trim_space l.id;
      peer_id = trim_space l.peer_id;
      name = trim_lower l.name;
      endpoint = trim_space l.endpoint;
      transport_kind = or_https l.transport_kind;
      delivery_class = delivery_class;
      discovery_mode = or_manual l.discovery_mode;
      media_policy = media_policy;
      state = or_active l.state;
      max_bundle_bytes =
          positive_or_default l.max_bundle_bytes (default_bundle_bytes delivery_class);
      max_fragment_bytes =
          positive_or_default l.max_fragment_bytes (default_fragment_bytes delivery_class);
      allowed_conversation_kinds =
          normalize_values conversation_kind_text default_conversation_kinds
            l.allowed_conversation_kinds;
      allowed_event_families =
          normalize_values event_family_text (default_event_families delivery_class)
            l.allowed_event_families;
      allowed_message_kinds =
          normalize_values message_kind_text (default_message_kinds delivery_class media_policy)
            l.allowed_message_kinds;
      created_at = created_at;
      updated_at = or_now l.updated_at created_at;
      last_healthy_at = l.last_healthy_at;
      last_error = trim_space l.last_error;
    }

unfoldable pub normalize_link : Link → Time → Result Error Link
normalize_link l now = do
  let row = defaulted_link l now
  refuse_if (is_empty row.id || is_empty row.peer_id || is_empty row.name) invalid_input
  refuse_if (ltb_ℤ row.max_bundle_bytes row.max_fragment_bytes) invalid_input
  ok row
