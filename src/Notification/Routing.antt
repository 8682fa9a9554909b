-- ===== src/Notification/Routing.antt =====
-- internal/domain/notification/routing.go: the recipients of a message, the route to each, and
-- whether its settings let a notification through.
pub mod Quiet
pub mod Audience
pub mod Muting
use zvonilka.Base.{
  ℕ, Text, codes, Time, pos, Bool, true, false, not, ◌&&◌, ◌||◌, if◌then◌else◌, Option, none, some,
  List, [], ◌∷◌, ◌++◌, is_empty, is_zero, before, trim_space, text_eq, ltb, ◌==◌, eqb_ℤ, ltb_ℤ,
  leb_ℤ, ℤ,
}
use zvonilka.Base.Dict
use zvonilka.Base.Dict.{Dict}
use zvonilka.Conversation.Models.{Conversation, ConversationKind, ConversationMember}
use zvonilka.Notification.Models.{
  NotificationKind, DeliveryMode, DeliveryState, QuietHours, Preference, ConversationOverride,
  PushToken, Delivery, Message, PresenceState, no_override, no_member, default_preference,
}

-- s < t, as Go compares strings.
unfoldable pub text_lt : Text → Text → Bool
text_lt [] [] = false
text_lt [] (b ∷ t) = true
text_lt (a ∷ s) [] = false
text_lt (a ∷ s) (b ∷ t) = ltb a b || ((a == b) && text_lt s t)

-- A key put into a map whose keys are sorted afterwards.
unfoldable pub insert_sorted : Text → List Text → List Text
insert_sorted a [] = a ∷ []
insert_sorted a (b ∷ ids) =
    let rest = insert_sorted a ids in
    if text_eq a b then b ∷ ids else if text_lt a b then a ∷ b ∷ ids else b ∷ rest

unfoldable pub insert_all : List Text → List Text → List Text
insert_all [] ids = ids
insert_all (a ∷ rest) ids = insert_sorted a (insert_all rest ids)

unfoldable pub active_conversation_member : ConversationMember → Bool
active_conversation_member member = is_zero member.left_at && not member.banned

unfoldable pub is_mentioned : Text → List Text → Bool
is_mentioned account_id [] = false
is_mentioned account_id (a ∷ rest) = text_eq a account_id || is_mentioned account_id rest

-- The members that hear of a message of `sender`.
unfoldable pub listeners : Text → List ConversationMember → List Text
listeners sender [] = []
listeners sender (m ∷ ms) =
    let rest = listeners sender ms in
    if not (active_conversation_member m) || text_eq m.account_id sender
    then rest
    else m.account_id ∷ rest

abbrev pub reply_ids : Message → List Text
reply_ids message =
    if is_empty (trim_space message.reply_account_id)
    then []
    else trim_space message.reply_account_id ∷ []

unfoldable pub recipient_ids : Conversation → Message → List ConversationMember → List Text
recipient_ids conversation message members = elim conversation.kind [
  | ConversationKind.saved_messages ↦ []
  | _ ↦ insert_all (reply_ids message) (
      insert_all message.mention_account_ids
        (insert_all (listeners message.sender_account_id members) []))
]

-- Kind, reason and priority of a notification.
pub record Route : Type 0 where
  pub kind : NotificationKind
  pub reason : Text
  pub priority : ℤ

abbrev pub route_of_kind : ConversationKind → Option Route
route_of_kind ConversationKind.direct =
    some (record { kind = NotificationKind.direct; reason = codes "direct"; priority = pos 80 })
route_of_kind ConversationKind.group =
    some (record { kind = NotificationKind.group; reason = codes "group"; priority = pos 60 })
route_of_kind ConversationKind.channel =
    some (record { kind = NotificationKind.channel; reason = codes "channel"; priority = pos 50 })
route_of_kind _ = none

unfoldable pub route_decision : Conversation → Message → Text → Option Route
route_decision conversation message account_id =
    if is_empty account_id || text_eq account_id message.sender_account_id
    then none
    else if is_mentioned account_id message.mention_account_ids
    then some
        (record { kind = NotificationKind.mention; reason = codes "mention"; priority = pos 100 })
    else if not (is_empty (trim_space message.reply_account_id))
        && text_eq (trim_space message.reply_account_id) account_id
    then some (record { kind = NotificationKind.reply; reason = codes "reply"; priority = pos 90 })
    else route_of_kind conversation.kind

abbrev pub zone_of : QuietHours → Text
zone_of quiet =
    if is_empty (trim_space quiet.timezone) then codes "UTC" else trim_space quiet.timezone

-- `local_minute zone now` is the minute of the day in a time zone; Go falls back on UTC where it
-- does not know the zone.
unfoldable pub quiet_hours_active : (Text → Time → ℕ) → Time → QuietHours → Bool
quiet_hours_active local_minute now quiet =
    if not quiet.enabled
    then false
    else if eqb_ℤ quiet.start_minute quiet.end_minute
    then false
    else (let current = pos (local_minute (zone_of quiet) now) in
        if ltb_ℤ quiet.start_minute quiet.end_minute
        then leb_ℤ quiet.start_minute current && ltb_ℤ current quiet.end_minute
        else leb_ℤ quiet.start_minute current || ltb_ℤ current quiet.end_minute)

abbrev pub kind_enabled : Preference → NotificationKind → Bool
kind_enabled preference NotificationKind.direct = preference.direct_enabled
kind_enabled preference NotificationKind.group = preference.group_enabled
kind_enabled preference NotificationKind.channel = preference.channel_enabled
kind_enabled preference NotificationKind.mention = preference.mention_enabled
kind_enabled preference NotificationKind.reply = preference.reply_enabled
kind_enabled preference NotificationKind.unspecified = true

abbrev pub muted_at : Time → Time → Bool
muted_at now until = not (is_zero until) && before now until

unfoldable pub should_deliver :
    (Text → Time → ℕ)
    → Preference
    → ConversationOverride
    → ConversationMember
    → NotificationKind
    → Text
    → Time
    → Bool
should_deliver local_minute preference override member kind reason now =
    if not preference.enabled
    then false
    else if not (active_conversation_member member)
    then false
    else if not (kind_enabled preference kind)
    then false
    else if not (text_eq reason (codes "mention")) && not (text_eq reason (codes "reply"))
    then not (
        muted_at now override.muted_until
        || override.muted
        || override.mentions_only
        || muted_at now preference.muted_until
        || quiet_hours_active local_minute now preference.quiet_hours)
    else true

abbrev pub is_present : PresenceState → Bool
is_present PresenceState.online = true
is_present PresenceState.away = true
is_present _ = false

unfoldable pub delivery_mode_for_presence : PresenceState → List PushToken → DeliveryMode
delivery_mode_for_presence state [] = DeliveryMode.in_app
delivery_mode_for_presence state (token ∷ tokens) =
    if is_present state then DeliveryMode.in_app else DeliveryMode.push
