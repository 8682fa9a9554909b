-- ===== src/Notification/Routing/Muting.antt =====
-- What a muted conversation still lets through.
use zvonilka.Base.{
  Text, Time, ℕ, Bool, false, arith, ◌≡◌, ◌||◌, some, ◌&&◌, not, text_eq, codes, text_eq_refl,
  text_eq_sym, trim_space,
}
use zvonilka.Conversation.Models.{Conversation, ConversationMember, ConversationKind}
use zvonilka.Notification.Models.{ConversationOverride, Message, Preference}
use zvonilka.Notification.Routing.{
  Route, route_decision, route_of_kind, should_deliver, active_conversation_member, kind_enabled,
  is_mentioned, reply_ids, muted_at, quiet_hours_active,
}

-- The account was mentioned, or replied to.
abbrev pub is_addressed : Message → Text → Bool
is_addressed message a =
    is_mentioned a message.mention_account_ids || is_mentioned a (reply_ids message)

-- The account turned its notifications down: in the conversation, for a while, or at this hour.
abbrev pub is_quiet : (Text → Time → ℕ) → Preference → ConversationOverride → Time → Bool
is_quiet local_minute preference override now =
    override.muted
    || override.mentions_only
    || muted_at now override.muted_until
    || muted_at now preference.muted_until
    || quiet_hours_active local_minute now preference.quiet_hours

abbrev is_urgent : Text → Bool
is_urgent reason = text_eq reason (codes "mention") || text_eq reason (codes "reply")

route_of_kind-calm :
    (kind : ConversationKind) (route : Route)
    → route_of_kind kind ≡ some route
    → is_urgent route.reason ≡ false
unfolding text_eq
route_of_kind-calm kind route r = ground arith

is_urgent-route :
    (conversation : Conversation) (message : Message) (a : Text) (route : Route)
    → route_decision conversation message a ≡ some route
    → is_urgent route.reason ≡ is_addressed message a
unfolding route_decision is_mentioned
is_urgent-route conversation message a route r = ground (
  arith,
  route_of_kind-calm conversation.kind route,
  text_eq_refl (codes "mention"),
  text_eq_refl (codes "reply"),
  text_eq_sym a (trim_space message.reply_account_id),
)

-- An account that a message has a route to is let through exactly where its notifications and those of
-- the route's kind are on, it is an active member, and it was addressed by a mention or a reply unless
-- its notifications are not turned down.
pub should_deliver-route_decision :
    (local_minute : Text → Time → ℕ) (conversation : Conversation) (message : Message) (a : Text)
    (route : Route) (preference : Preference) (override : ConversationOverride)
    (member : ConversationMember) (now : Time)
    → route_decision conversation message a ≡ some route
    → should_deliver local_minute preference override member route.kind route.reason now ≡ (
        preference.enabled
        && active_conversation_member member
        && kind_enabled preference route.kind
        && (is_addressed message a || not (is_quiet local_minute preference override now)))
unfolding should_deliver route_decision is_mentioned
should_deliver-route_decision local_minute conversation message a route preference override member
      now r =
    ground (arith, is_urgent-route conversation message a route r)
