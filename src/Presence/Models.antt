-- ===== src/Presence/Models.antt =====
-- internal/domain/presence/state.go and settings.go, and what presence reads of internal/domain/
-- identity/models.go.
use zvonilka.Base.{Text, Time, Duration, pos, Bool, [], is_positive, if◌then◌else◌}

pub data Error : Type 0 where
  invalid_input not_found : Error
  -- Any other error of a store.
  internal : Error

pub data PresenceState : Type 0 where
  unspecified offline online away busy invisible : PresenceState

pub record Presence : Type 0 where
  pub account_id : Text
  pub state : PresenceState
  pub custom_status : Text
  pub hidden_until : Time
  pub updated_at : Time

pub record Snapshot : Type 0 where
  pub account_id : Text
  pub state : PresenceState
  pub custom_status : Text
  pub last_seen_at : Time
  pub last_seen_hidden : Bool
  pub updated_at : Time

pub record SetParams : Type 0 where
  pub account_id : Text
  pub state : PresenceState
  pub custom_status : Text
  pub hide_last_seen_for : Duration
  pub recorded_at : Time

pub record GetParams : Type 0 where
  pub account_id : Text
  pub viewer_account_id : Text

-- The online window. Settings.normalize; five minutes in nanoseconds.
unfoldable pub online_window : Duration → Duration
online_window given = if is_positive given then given else pos 300000000000

abbrev pub no_presence : Presence
no_presence = record {
  account_id = [];
  state = PresenceState.unspecified;
  custom_status = [];
  hidden_until = 0;
  updated_at = 0;
}

pub data AccountStatus : Type 0 where
  active suspended revoked : AccountStatus

pub data DeviceStatus : Type 0 where
  active suspended revoked unverified : DeviceStatus

pub data SessionStatus : Type 0 where
  active revoked : SessionStatus

-- identity.Account, Session and Device, as far as presence reads them.
pub record Account : Type 0 where
  pub id : Text
  pub status : AccountStatus
  pub last_auth_at : Time

pub record Session : Type 0 where
  pub status : SessionStatus
  pub last_seen_at : Time

pub record Device : Type 0 where
  pub status : DeviceStatus
  pub last_seen_at : Time
