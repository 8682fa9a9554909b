-- ===== src/Notification/Models.antt =====
-- internal/domain/notification/models.go and settings.go, with what routing reads of a message and
-- of a presence snapshot.
use zvonilka.Base.{
  ℕ, ℤ, Text, Time, Duration, pos, Bool, true, false, List, [], trim_space, is_positive,
  if◌then◌else◌, ltb_ℤ,
}
use zvonilka.Conversation.Models.{ConversationMember, MemberRole}
-- presence.PresenceState
pub use zvonilka.Presence.Models.{PresenceState}

pub data Error : Type 0 where
  invalid_input not_found conflict : Error
  -- Any other error of the store.
  internal : Error

pub data NotificationKind : Type 0 where
  unspecified direct group channel mention reply : NotificationKind

pub data DeliveryMode : Type 0 where
  unspecified in_app push : DeliveryMode

pub data DeliveryState : Type 0 where
  unspecified queued suppressed delivered failed : DeliveryState

pub record QuietHours : Type 0 where
  pub enabled : Bool
  pub start_minute : ℤ
  pub end_minute : ℤ
  pub timezone : Text

pub record Preference : Type 0 where
  pub account_id : Text
  pub enabled : Bool
  pub direct_enabled : Bool
  pub group_enabled : Bool
  pub channel_enabled : Bool
  pub mention_enabled : Bool
  pub reply_enabled : Bool
  pub quiet_hours : QuietHours
  pub muted_until : Time
  pub updated_at : Time

pub record ConversationOverride : Type 0 where
  pub conversation_id : Text
  pub account_id : Text
  pub muted : Bool
  pub mentions_only : Bool
  pub muted_until : Time
  pub updated_at : Time

-- The platform of a token is not read here.
pub record PushToken : Type 0 where
  pub id : Text
  pub account_id : Text
  pub device_id : Text
  pub provider : Text
  pub token : Text
  pub enabled : Bool
  pub created_at : Time
  pub updated_at : Time
  pub revoked_at : Time

pub record Delivery : Type 0 where
  pub id : Text
  pub dedup_key : Text
  pub event_id : Text
  pub conversation_id : Text
  pub message_id : Text
  pub account_id : Text
  pub device_id : Text
  pub push_token_id : Text
  pub kind : NotificationKind
  pub reason : Text
  pub mode : DeliveryMode
  pub state : DeliveryState
  pub priority : ℤ
  pub attempts : ℕ
  pub next_attempt_at : Time
  pub lease_token : Text
  pub lease_expires_at : Time
  pub last_attempt_at : Time
  pub last_error : Text
  pub created_at : Time
  pub updated_at : Time

-- conversation.Message, as far as routing reads it; `reply_account_id` is ReplyTo.SenderAccountID.
pub record Message : Type 0 where
  pub id : Text
  pub sender_account_id : Text
  pub mention_account_ids : List Text
  pub reply_account_id : Text

-- The zero values that a Go map gives for a missing key.
abbrev pub no_quiet_hours : QuietHours
no_quiet_hours = record { enabled = false; start_minute = pos 0; end_minute = pos 0; timezone = [] }

abbrev pub no_override : ConversationOverride
no_override = record {
  conversation_id = [];
  account_id = [];
  muted = false;
  mentions_only = false;
  muted_until = 0;
  updated_at = 0;
}

abbrev pub no_member : ConversationMember
no_member = record {
  conversation_id = [];
  account_id = [];
  role = MemberRole.unspecified;
  invited_by_account_id = [];
  muted = false;
  banned = false;
  joined_at = 0;
  left_at = 0;
}

abbrev pub no_delivery : Delivery
no_delivery = record {
  id = [];
  dedup_key = [];
  event_id = [];
  conversation_id = [];
  message_id = [];
  account_id = [];
  device_id = [];
  push_token_id = [];
  kind = NotificationKind.unspecified;
  reason = [];
  mode = DeliveryMode.unspecified;
  state = DeliveryState.unspecified;
  priority = pos 0;
  attempts = 0;
  next_attempt_at = 0;
  lease_token = [];
  lease_expires_at = 0;
  last_attempt_at = 0;
  last_error = [];
  created_at = 0;
  updated_at = 0;
}

unfoldable pub default_preference : Text → Time → Preference
default_preference account_id now = record {
  account_id = trim_space account_id;
  enabled = true;
  direct_enabled = true;
  group_enabled = true;
  channel_enabled = true;
  mention_enabled = true;
  reply_enabled = true;
  quiet_hours = no_quiet_hours;
  muted_until = 0;
  updated_at = now;
}

pub record Settings : Type 0 where
  pub worker_poll_interval : Duration
  pub retry_initial_backoff : Duration
  pub retry_max_backoff : Duration
  pub delivery_lease_ttl : Duration
  pub max_attempts : ℤ
  pub batch_size : ℤ

-- In nanoseconds.
abbrev pub default_settings : Settings
default_settings = record {
  worker_poll_interval = pos 2000000000;
  retry_initial_backoff = pos 10000000000;
  retry_max_backoff = pos 300000000000;
  delivery_lease_ttl = pos 30000000000;
  max_attempts = pos 5;
  batch_size = pos 200;
}

abbrev pub positive_or : ℤ → ℤ → ℤ
positive_or a b = if is_positive a then a else b

-- Settings.normalize
unfoldable pub normalize_settings : Settings → Settings
normalize_settings s =
    let initial = positive_or s.retry_initial_backoff default_settings.retry_initial_backoff in
    let max = positive_or s.retry_max_backoff default_settings.retry_max_backoff in
    record {
      worker_poll_interval =
          positive_or s.worker_poll_interval default_settings.worker_poll_interval;
      retry_initial_backoff = initial;
      retry_max_backoff = if ltb_ℤ max initial then initial else max;
      delivery_lease_ttl = positive_or s.delivery_lease_ttl default_settings.delivery_lease_ttl;
      max_attempts = positive_or s.max_attempts default_settings.max_attempts;
      batch_size = positive_or s.batch_size default_settings.batch_size;
    }
