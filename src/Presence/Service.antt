-- ===== src/Presence/Service.antt =====
-- internal/domain/presence/service.go and resolve.go, over teststore/store.go.
use zvonilka.Base.{
  Text, Time, Duration, pos, Bool, true, false, not, ◌&&◌, ◌||◌, if◌then◌else◌, none, some, List,
  [], ◌∷◌, is_empty, is_zero, is_positive, before, time_add, time_sub, leb_ℤ, ltb_ℤ, or_now,
  trim_space, text_eq, any, Result, ok, err, ◌>>=◌, ◌>>◌, refuse_if,
}
use zvonilka.Base.Dict
use zvonilka.Base.Dict.{Dict}
use zvonilka.Presence.Models.{
  Error, invalid_input, not_found, PresenceState, Presence, Snapshot, SetParams, GetParams,
  no_presence, Account, AccountStatus, Session, SessionStatus, Device, DeviceStatus,
}

-- IdentityReader: the reads of the identity store.
pub record IdentityReader : Type 0 where
  pub account_by_id : Text → Result Error Account
  pub sessions_by_account_id : Text → Result Error (List Session)
  pub devices_by_account_id : Text → Result Error (List Device)

unfoldable pub active_account : IdentityReader → Text → Result Error Account
active_account identity account_id = do
  account ← identity.account_by_id account_id
  elim account.status [ AccountStatus.active ↦ ok account | _ ↦ err not_found ]

-- `if t.After(u) { u = t }`
abbrev pub later_of : Time → Time → Time
later_of t u = if before u t then t else u

abbrev pub is_active_session : Session → Bool
is_active_session s = elim s.status [ SessionStatus.active ↦ true | _ ↦ false ]

abbrev pub is_active_device : Device → Bool
is_active_device d = elim d.status [ DeviceStatus.active ↦ true | _ ↦ false ]

unfoldable pub latest_session : Time → List Session → Time
latest_session last_seen [] = last_seen
latest_session last_seen (s ∷ ss) =
    latest_session (if is_active_session s then later_of s.last_seen_at last_seen else last_seen) ss

unfoldable pub latest_device : Time → List Device → Time
latest_device last_seen [] = last_seen
latest_device last_seen (d ∷ ds) =
    latest_device (if is_active_device d then later_of d.last_seen_at last_seen else last_seen) ds

unfoldable pub last_seen_at : IdentityReader → Account → Result Error Time
last_seen_at identity account = do
  sessions ← identity.sessions_by_account_id account.id
  devices ← identity.devices_by_account_id account.id
  ok (latest_device (latest_session account.last_auth_at sessions) devices)

abbrev pub is_online : Time → Duration → Time → Bool
is_online now window last_seen = not (is_zero last_seen) && leb_ℤ (time_sub now last_seen) window

-- The `switch` on the state.
unfoldable pub shown_state : Bool → Bool → Bool → PresenceState → PresenceState
shown_state is_self has_record online PresenceState.invisible =
    if is_self then PresenceState.invisible else PresenceState.offline
shown_state is_self has_record online PresenceState.unspecified =
    if has_record
    then PresenceState.offline
    else if online
    then PresenceState.online
    else PresenceState.offline
shown_state is_self has_record online state = state

abbrev pub is_invisible : PresenceState → Bool
is_invisible PresenceState.invisible = true
is_invisible _ = false

-- `window` is the online window of the settings; `now` is what `s.currentTime()` returns.
unfoldable pub snapshot : Time → Duration → Text → Presence → Time → Snapshot
snapshot now window viewer row last_seen =
    let is_self = text_eq viewer row.account_id in
    let state =
      shown_state is_self (not (is_empty (trim_space row.account_id)))
        (is_online now window last_seen) row.state in
    let hidden =
      (not is_self && not (is_zero row.hidden_until) && before now row.hidden_until)
      || (not is_self && is_invisible state) in
    record {
      account_id = row.account_id;
      state = state;
      custom_status = row.custom_status;
      last_seen_at = if hidden then 0 else last_seen;
      last_seen_hidden = hidden;
      updated_at = row.updated_at;
    }

-- The store's PresenceByAccountID, where a missing row is the zero value.
unfoldable pub presence_row : Dict Presence → Text → Presence
presence_row s account_id = elim (Dict.get s account_id) [ none ↦ no_presence | some row ↦ row ]

abbrev pub is_unspecified : PresenceState → Bool
is_unspecified PresenceState.unspecified = true
is_unspecified _ = false

abbrev pub or_offline : PresenceState → PresenceState
or_offline PresenceState.unspecified = PresenceState.offline
or_offline state = state

-- The store's SavePresence.
unfoldable pub save_presence : Dict Presence → Presence → Result Error (Presence × Dict Presence)
save_presence s given = do
  let next = record given {
    account_id = trim_space given.account_id;
    custom_status = trim_space given.custom_status;
    state = or_offline given.state;
  }
  refuse_if (is_empty next.account_id) invalid_input
  refuse_if (is_zero next.updated_at) invalid_input
  ok (next, Dict.put s next.account_id next)

-- The row that a change stores.
abbrev pub next_presence : Presence → Time → SetParams → Presence
next_presence existing clock params =
    let recorded_at = or_now params.recorded_at clock in
    record {
      account_id = trim_space params.account_id;
      state = or_offline (if is_unspecified params.state then existing.state else params.state);
      custom_status = trim_space params.custom_status;
      hidden_until =
          if is_positive params.hide_last_seen_for
          then time_add recorded_at params.hide_last_seen_for
          else 0;
      updated_at = recorded_at;
    }

unfoldable pub set_presence :
    Dict Presence → IdentityReader → Time → SetParams → Result Error (Presence × Dict Presence)
set_presence s identity clock params = do
  let account_id = trim_space params.account_id
  refuse_if (is_empty account_id) invalid_input
  refuse_if (ltb_ℤ params.hide_last_seen_for (pos 0)) invalid_input
  account ← active_account identity account_id
  save_presence s (next_presence (presence_row s account_id) clock params)

unfoldable pub get_presence :
    Dict Presence → IdentityReader → Time → Duration → GetParams → Result Error Snapshot
get_presence s identity now window params = do
  let account_id = trim_space params.account_id
  refuse_if (is_empty account_id) invalid_input
  account ← active_account identity account_id
  last_seen ← last_seen_at identity account
  ok
      (record (snapshot now window (trim_space params.viewer_account_id) (presence_row s account_id)
        last_seen) { account_id = account_id })

-- NormalizeIDs: the ids trimmed, without empty ones and repetitions.
unfoldable pub normalize_from : List Text → List Text → List Text
normalize_from seen [] = []
normalize_from seen (v ∷ vs) =
    let id = trim_space v in
    let rest = normalize_from seen vs in
    let added = normalize_from (id ∷ seen) vs in
    if is_empty id || any (text_eq id) seen then rest else id ∷ added

unfoldable pub normalize_ids : List Text → List Text
unfolding normalize_from
normalize_ids values = normalize_from [] values

-- The loop of ListPresence: accounts that are not found are left out.
unfoldable pub list_each :
    Dict Presence
    → IdentityReader
    → Time
    → Duration
    → Text
    → List Text
    → Dict Snapshot
    → Result Error (Dict Snapshot)
list_each s identity now window viewer [] snapshots = ok snapshots
list_each s identity now window viewer (id ∷ ids) snapshots =
    elim (get_presence s identity now window
      (record { account_id = id; viewer_account_id = viewer })) [
        | ok shown ↦ list_each s identity now window viewer ids (Dict.put snapshots id shown)
        | err Error.not_found ↦ list_each s identity now window viewer ids snapshots
        | err e ↦ err e
      ]

unfoldable pub list_presence :
    Dict Presence
    → IdentityReader
    → Time
    → Duration
    → List Text
    → Text
    → Result Error (Dict Snapshot)
list_presence s identity now window account_ids viewer =
    list_each s identity now window viewer (normalize_ids account_ids) []
