-- ===== src/Notification/Building.antt =====
-- internal/domain/notification/routing.go: the deliveries that a message is fanned out into.
pub mod Reasons
use zvonilka.Base.{
  ℕ, Text, codes, Time, pos, Bool, true, false, not, ◌&&◌, ◌||◌, if◌then◌else◌, Option, none, some,
  List, [], ◌∷◌, ◌++◌, is_empty, is_zero, before, trim_space, text_eq, ltb, ◌==◌, eqb_ℤ, ltb_ℤ,
  leb_ℤ,
}
use zvonilka.Base.Dict
use zvonilka.Base.Dict.{Dict}
use zvonilka.Conversation.Models.{Conversation, ConversationKind, ConversationMember}
use zvonilka.Notification.Models.{
  NotificationKind, DeliveryMode, DeliveryState, QuietHours, Preference, ConversationOverride,
  PushToken, Delivery, Message, PresenceState, no_override, no_member, default_preference,
}
use zvonilka.Notification.Routing.{
  Route, recipient_ids, route_decision, should_deliver, delivery_mode_for_presence,
}

abbrev pub kind_text : NotificationKind → Text
kind_text NotificationKind.unspecified = []
kind_text NotificationKind.direct = codes "direct"
kind_text NotificationKind.group = codes "group"
kind_text NotificationKind.channel = codes "channel"
kind_text NotificationKind.mention = codes "mention"
kind_text NotificationKind.reply = codes "reply"

-- strings.Join(parts, ":")
unfoldable pub join_colon : List Text → Text
join_colon [] = []
join_colon (a ∷ []) = a
join_colon (a ∷ b ∷ rest) = a ++ (0x3A ∷ join_colon (b ∷ rest))

-- What the deliveries of one event share.
pub record Fanout : Type 0 where
  pub now : Time
  pub event_id : Text
  pub conversation : Conversation
  pub message : Message

-- The part of a delivery that a queued and a suppressed one have in common; `place` is the device,
-- or "muted".
abbrev pub delivery_to : Fanout → Text → Text → Route → Delivery
delivery_to f account_id place route =
    let key = join_colon (
      f.event_id
      ∷ f.conversation.id
      ∷ f.message.id
      ∷ account_id
      ∷ place
      ∷ kind_text route.kind
      ∷ route.reason
      ∷ []) in
    record {
      id = key;
      dedup_key = key;
      event_id = f.event_id;
      conversation_id = f.conversation.id;
      message_id = f.message.id;
      account_id = account_id;
      device_id = [];
      push_token_id = [];
      kind = route.kind;
      reason = route.reason;
      mode = DeliveryMode.in_app;
      state = DeliveryState.suppressed;
      priority = route.priority;
      attempts = 0;
      next_attempt_at = 0;
      lease_token = [];
      lease_expires_at = 0;
      last_attempt_at = 0;
      last_error = [];
      created_at = f.now;
      updated_at = f.now;
    }

unfoldable pub queued_delivery : Fanout → Text → Text → Text → Route → DeliveryMode → Delivery
queued_delivery f account_id device_id push_token_id route mode =
    record (delivery_to f account_id device_id route) {
      device_id = device_id;
      push_token_id = push_token_id;
      mode = mode;
      state = DeliveryState.queued;
      next_attempt_at = f.now;
    }

unfoldable pub suppressed_delivery : Fanout → Text → Route → Delivery
suppressed_delivery f account_id route = delivery_to f account_id (codes "muted") route

unfoldable pub membership_by_account_id : List ConversationMember → Text → ConversationMember
membership_by_account_id [] account_id = no_member
membership_by_account_id (m ∷ ms) account_id =
    let rest = membership_by_account_id ms account_id in
    if text_eq m.account_id account_id then m else rest

-- The maps of `buildDeliveries`, by account.
pub record Recipients : Type 0 where
  pub preferences : Dict Preference
  pub overrides : Dict ConversationOverride
  pub presences : Dict PresenceState
  pub push_tokens : Dict (List PushToken)

abbrev pub or_zero {ℓ} : {A : Type ℓ} → A → Option A → A
or_zero zero none = zero
or_zero zero (some a) = a

-- The stored preference, or the default where none is stored or the row is blank.
unfoldable pub preference_of : Dict Preference → Text → Time → Preference
preference_of preferences account_id now = elim (Dict.get preferences account_id) [
  | none ↦ default_preference account_id now
  | some p ↦ if is_empty p.account_id then default_preference account_id now else p
]

queue_tokens : Fanout → Text → Route → DeliveryMode → List PushToken → List Delivery
queue_tokens f account_id route mode [] = []
queue_tokens f account_id route mode (t ∷ ts) =
    queued_delivery f account_id t.device_id t.id route mode
    ∷ queue_tokens f account_id route mode ts

queue_all : Fanout → Text → Route → DeliveryMode → List PushToken → List Delivery
queue_all f account_id route mode [] = queued_delivery f account_id [] [] route mode ∷ []
queue_all f account_id route mode (t ∷ ts) = queue_tokens f account_id route mode (t ∷ ts)

-- The body of the loop, for an account that a route leads to.
unfoldable pub routed_deliveries :
    (Text → Time → ℕ) → Recipients → List ConversationMember → Fanout → Text → Route → List Delivery
unfolding queue_all queue_tokens
routed_deliveries local_minute maps members f account_id route =
    let tokens = or_zero [] (Dict.get maps.push_tokens account_id) in
    let presence = or_zero PresenceState.unspecified (Dict.get maps.presences account_id) in
    if should_deliver local_minute (preference_of maps.preferences account_id f.now)
      (or_zero no_override (Dict.get maps.overrides account_id))
      (membership_by_account_id members account_id) route.kind route.reason f.now
    then queue_all f account_id route (delivery_mode_for_presence presence tokens) tokens
    else suppressed_delivery f account_id route ∷ []

unfoldable pub account_deliveries :
    (Text → Time → ℕ) → Recipients → List ConversationMember → Fanout → Text → List Delivery
account_deliveries local_minute maps members f account_id =
    elim (route_decision f.conversation f.message account_id) [
      | none ↦ []
      | some route ↦ routed_deliveries local_minute maps members f account_id route
    ]

each_account :
    (Text → Time → ℕ) → Recipients → List ConversationMember → Fanout → List Text → List Delivery
each_account local_minute maps members f [] = []
each_account local_minute maps members f (a ∷ rest) =
    account_deliveries local_minute maps members f a
    ++ each_account local_minute maps members f rest

unfoldable pub build_deliveries :
    (Text → Time → ℕ) → Recipients → List ConversationMember → Fanout → List Delivery
unfolding each_account
build_deliveries local_minute maps members f =
    each_account local_minute maps members f (recipient_ids f.conversation f.message members)
