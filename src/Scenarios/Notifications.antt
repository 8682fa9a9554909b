-- ===== src/Scenarios/Notifications.antt =====
-- A message in a group, its deliveries, and the life of one of them.
use zvonilka.Base.{
  ℕ, ◌+◌, ◌%◌, ◌-◌, Text, codes, Time, pos, true, not, ◌&&◌, ◌||◌, List, [], ◌∷◌, some, ok, ◌≡◌,
  refl, arith, trim_space, All, any, map, ltb, trim_left, trim_right, is_space, text_eq, false,
}
use zvonilka.Base.Dict
use mathlib.Core.Option
use zvonilka.Base.{if◌then◌else◌, err, is_empty, text_eq_iff}
use zvonilka.Notification.Models.{conflict}
use zvonilka.Conversation.Models.{ConversationMember}
use zvonilka.Notification.Models.{
  Delivery, DeliveryState, DeliveryMode, NotificationKind, QuietHours, Preference, Message,
  PushToken, default_preference, no_override, default_settings,
}
use zvonilka.Notification.Routing.{
  Route, is_mentioned, recipient_ids, reply_ids, route_decision, should_deliver, zone_of,
  quiet_hours_active, active_conversation_member, kind_enabled,
}
use zvonilka.Notification.Routing.Quiet.{quiet_hours_active-circular}
use zvonilka.Notification.Routing.Audience.{hears, is_mentioned-recipient_ids}
use zvonilka.Notification.Routing.Muting.{is_addressed, is_quiet, should_deliver-route_decision}
use zvonilka.Notification.Building.{Fanout, Recipients, build_deliveries}
use zvonilka.Notification.Building.Reasons.{Justified, build_deliveries-Justified}
use zvonilka.Notification.Deliveries.{
  DeliveryStore, ClaimDeliveriesParams, RetryDeliveryParams, is_due, is_queued, is_settled, leased,
  settle, requeue, store_claim, mark_delivery_delivered, fail_delivery, retry_delivery, store_retry,
  leased_delivery, sort_due, insert_due, rows, lease_each,
}
use zvonilka.Notification.Deliveries.Lifecycle.{
  IsValid, Step, Steps, here, next, claim, HasAttempts, Steps-IsValid,
}
use zvonilka.Notification.Deliveries.Leases.{Held, mark_delivery_delivered-Held}
use zvonilka.Notification.Deliveries.Retry.{retry_delivery-Step}
use zvonilka.Notification.Deliveries.Claims.{Claim, due_at, store_claim-first}
use zvonilka.Scenarios.Moderation.{room, ann, bob}

abbrev members : List ConversationMember
members = ann ∷ bob ∷ []

abbrev hello : Message
hello = record {
  id = codes "m1";
  sender_account_id = codes "ann";
  mention_account_ids = codes "bob" ∷ [];
  reply_account_id = [];
}

is_mentioned-recipient_ids_example :
    is_mentioned (codes "bob") (recipient_ids room hello members) ≡ (
      is_mentioned (codes "bob") (reply_ids hello)
      || is_mentioned (codes "bob") hello.mention_account_ids
      || any (hears (codes "ann") (codes "bob")) members)
is_mentioned-recipient_ids_example =
    is_mentioned-recipient_ids room hello members (codes "bob") (λ e. ground arith)

-- Every zone is at half past three.
abbrev clock_of : Text → Time → ℕ
clock_of zone now = 210

abbrev night : QuietHours
night = record { enabled = true; start_minute = pos 1320; end_minute = pos 420; timezone = [] }

quiet_hours_active-circular_example :
    quiet_hours_active clock_of 500 night
    ≡ ltb ((clock_of (zone_of night) 500 + 1440 - 1320) % 1440) ((420 + 1440 - 1320) % 1440)
quiet_hours_active-circular_example =
    quiet_hours_active-circular clock_of 500 night 1320 420 refl refl refl (omega arith)
      (omega arith) (omega arith)

abbrev mention : Route
mention = record { kind = NotificationKind.mention; reason = codes "mention"; priority = pos 100 }

abbrev asleep : Preference
asleep = record (default_preference (codes "bob") 1) { quiet_hours = night }

should_deliver-route_decision_example :
    should_deliver clock_of asleep no_override bob NotificationKind.mention (codes "mention") 500
    ≡ (asleep.enabled
        && active_conversation_member bob
        && kind_enabled asleep NotificationKind.mention
        && (is_addressed hello (codes "bob") || not (is_quiet clock_of asleep no_override 500)))
unfolding route_decision text_eq is_mentioned
should_deliver-route_decision_example =
    should_deliver-route_decision clock_of room hello (codes "bob") mention asleep no_override bob
      500 refl

abbrev phone : PushToken
phone = record {
  id = codes "t1";
  account_id = codes "bob";
  device_id = codes "d1";
  provider = codes "fcm";
  token = codes "x";
  enabled = true;
  created_at = 1;
  updated_at = 1;
  revoked_at = 0;
}

abbrev maps : Recipients
maps = record {
  preferences = (codes "bob", asleep) ∷ [];
  overrides = [];
  presences = [];
  push_tokens = (codes "bob", phone ∷ []) ∷ [];
}

abbrev fanout : Fanout
fanout = record { now = 500; event_id = codes "e1"; conversation = room; message = hello }

build_deliveries-Justified_example :
    All (Justified clock_of maps members fanout) (build_deliveries clock_of maps members fanout)
build_deliveries-Justified_example = build_deliveries-Justified clock_of maps members fanout

-- A delivery to the phone, leased from 500 to 530.
abbrev fresh : Delivery
fresh = record {
  id = codes "dl1";
  dedup_key = codes "dl1";
  event_id = codes "e1";
  conversation_id = codes "room";
  message_id = codes "m1";
  account_id = codes "bob";
  device_id = codes "d1";
  push_token_id = codes "t1";
  kind = NotificationKind.mention;
  reason = codes "mention";
  mode = DeliveryMode.push;
  state = DeliveryState.queued;
  priority = pos 100;
  attempts = 0;
  next_attempt_at = 500;
  lease_token = [];
  lease_expires_at = 0;
  last_attempt_at = 0;
  last_error = [];
  created_at = 500;
  updated_at = 500;
}

abbrev held : Delivery
held = leased (codes "lease") 500 (pos 30) fresh

fresh_due : is_due 500 fresh ≡ true
unfolding is_due
fresh_due = refl

abbrev claimed_step : Step (pos 5) fresh held
claimed_step = claim fresh (codes "lease") 500 (pos 30) fresh_due refl

fresh-IsValid : IsValid fresh
fresh-IsValid = record { unleased = refl; ends = refl }

Steps-IsValid_example : IsValid held × HasAttempts (pos 5) held
Steps-IsValid_example = Steps-IsValid refl (next here claimed_step) fresh-IsValid refl

abbrev sent : Delivery
sent = settle DeliveryState.delivered [] 510 fresh

sent_settled : is_settled sent.state ≡ true
unfolding settle
sent_settled = refl

stay : Steps (pos 5) sent sent
stay = here

abbrev store_of : Delivery → DeliveryStore
store_of d = record {
  deliveries_by_id = (codes "dl1", d) ∷ [];
  delivery_ids_by_dedup = (codes "dl1", codes "dl1") ∷ [];
  worker_cursors_by_name = [];
}

marked :
    mark_delivery_delivered (store_of held) 510 (codes "dl1") (codes "lease") 0
    ≡ ok (
      settle DeliveryState.delivered [] 510 held,
      store_of (settle DeliveryState.delivered [] 510 held),
    )
unfolding mark_delivery_delivered leased_delivery leased settle trim_space trim_left trim_right
    is_space text_eq Dict.get Dict.put
marked = refl

abbrev delivered : Delivery
delivered = settle DeliveryState.delivered [] 510 held

own_id : (k : Text) (d : Delivery) → Dict.get (store_of held).deliveries_by_id k ≡ some d → d.id ≡ k
unfolding Dict.get leased
own_id k d h = ground (arith, text_eq_iff (codes "dl1") k)

mark_delivery_delivered-Held_example :
    (d : Delivery) × Held
      (store_of held)
      (trim_space (codes "dl1"))
      (trim_space (codes "lease"))
      510
      d
    × Step (pos 5) d delivered
    × (delivered ≡ record d {
      state = DeliveryState.delivered;
      attempts = d.attempts + 1;
      last_attempt_at = 510;
      last_error = [];
      next_attempt_at = 510;
      lease_token = [];
      lease_expires_at = 0;
      updated_at = 510;
    })
    × ((k : Text)
        → Dict.get (store_of delivered).deliveries_by_id k ≡ (
            if text_eq (trim_space (codes "dl1")) k
            then some delivered
            else Dict.get (store_of held).deliveries_by_id k))
    × ((later : Time) (other : Text) (later_at : Time)
        → is_empty (trim_space other) ≡ false
        → mark_delivery_delivered (store_of delivered) later (codes "dl1") other later_at
          ≡ err conflict)
mark_delivery_delivered-Held_example =
    mark_delivery_delivered-Held (pos 5) (store_of held) (store_of delivered) 510 (codes "dl1")
      (codes "lease") 0 delivered own_id marked

abbrev broken : Delivery
broken = settle DeliveryState.failed (codes "gone") 510 held

marked_failed :
    fail_delivery (store_of held) 510 (codes "dl1") (codes "lease") (codes "gone") 0
    ≡ ok (broken, store_of broken)
unfolding fail_delivery leased_delivery leased settle trim_space trim_left trim_right is_space
    text_eq Dict.get Dict.put
marked_failed = refl

abbrev again : RetryDeliveryParams
again = record {
  delivery_id = codes "dl1";
  lease_token = codes "lease";
  last_error = codes "timeout";
  retry_at = 900;
  max_attempts = pos 0;
  attempted_at = 510;
}

abbrev put_back : Delivery
put_back = requeue (record again { max_attempts = pos 5 }) 510 held

retried :
    retry_delivery (store_of held) default_settings 510 again ≡ ok (put_back, store_of put_back)
unfolding retry_delivery store_retry leased_delivery leased requeue trim_space trim_left trim_right
    is_space text_eq Dict.get Dict.put
retried = refl

retry_delivery-Step_example :
    (d : Delivery) × (Dict.get (store_of held).deliveries_by_id (trim_space (codes "dl1")) ≡ some d)
    × Step (pos 5) d put_back
    × ((is_queued put_back.state && ltb put_back.next_attempt_at 510) ≡ false)
retry_delivery-Step_example =
    retry_delivery-Step (store_of held) (store_of put_back) default_settings 510 again put_back
      retried

abbrev one : ClaimDeliveriesParams
one = record {
  before_time = 500;
  limit = pos 1;
  lease_token = codes "lease";
  lease_duration = pos 30;
}

claimed_one : store_claim (store_of fresh) 500 one ≡ ok (held ∷ [], store_of held)
unfolding store_claim sort_due insert_due rows lease_each is_due leased text_eq Dict.get Dict.put
claimed_one = refl

store_claim-first_example :
    (c : Claim (due_at (store_of fresh) 500) 1) × ((held ∷ [])
      ≡ map (leased (codes "lease") 500 (pos 30)) c.taken)
    × All (λ d. is_due 500 d ≡ true) c.taken
    × ((k : Text)
        → Dict.get (store_of held).deliveries_by_id k ≡ (
            if any (λ d. text_eq d.id k) c.taken
            then Option.map
                (leased (codes "lease") 500 (pos 30))
                (Dict.get (store_of fresh).deliveries_by_id k)
            else Dict.get (store_of fresh).deliveries_by_id k))
unfolding Dict.get
store_claim-first_example =
    store_claim-first (store_of fresh) (store_of held) 500 one (held ∷ []) (refl, refl, tt) refl
      claimed_one
