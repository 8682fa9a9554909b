-- ===== src/Scenarios/Presences.antt =====
-- An account with a phone and a laptop, and what others see of it.
use zvonilka.Base.{
  ◌+◌, codes, pos, true, false, List, [], ◌∷◌, ok, ◌≡◌, refl, before, if◌then◌else◌, text_eq,
  trim_space, trim_left, trim_right, is_space,
}
use zvonilka.Base.Dict
use zvonilka.Base.Dict.{Dict}
use zvonilka.Presence.Models.{
  PresenceState, Presence, Snapshot, SetParams, Account, AccountStatus, Session, SessionStatus,
  Device, DeviceStatus,
}
use zvonilka.Presence.Service.{
  IdentityReader, active_account, last_seen_at, latest_session, latest_device, snapshot,
  shown_state, presence_row, save_presence, set_presence, get_presence,
}
use zvonilka.Presence.Visibility.{snapshot_of_invisible, get_presence-set_presence}

abbrev account : Account
account = record { id = codes "ann"; status = AccountStatus.active; last_auth_at = 100 }

abbrev sessions : List Session
sessions =
    (record { status = SessionStatus.active; last_seen_at = 180 })
    ∷ (record { status = SessionStatus.revoked; last_seen_at = 300 })
    ∷ []

abbrev devices : List Device
devices = (record { status = DeviceStatus.active; last_seen_at = 200 }) ∷ []

abbrev identity : IdentityReader
identity = record {
  account_by_id = λ id. ok account;
  sessions_by_account_id = λ id. ok sessions;
  devices_by_account_id = λ id. ok devices;
}

seen : last_seen_at identity account ≡ ok 200
unfolding last_seen_at latest_session latest_device
seen = refl

abbrev unseen : Presence
unseen = record {
  account_id = codes "ann";
  state = PresenceState.invisible;
  custom_status = [];
  hidden_until = 0;
  updated_at = 150;
}

others : text_eq (codes "bob") (codes "ann") ≡ false
unfolding text_eq
others = refl

snapshot_of_invisible_example :
    ((snapshot 210 (pos 50) (codes "bob") unseen 200).state ≡ PresenceState.offline)
    × ((snapshot 210 (pos 50) (codes "bob") unseen 200).last_seen_at ≡ 200)
    × ((snapshot 210 (pos 50) (codes "bob") unseen 200).last_seen_hidden ≡ false)
snapshot_of_invisible_example =
    snapshot_of_invisible 210 (pos 50) (codes "bob") unseen 200 refl refl others

abbrev hide : SetParams
hide = record {
  account_id = codes "ann";
  state = PresenceState.away;
  custom_status = [];
  hide_last_seen_for = pos 60;
  recorded_at = 0;
}

abbrev hidden_row : Presence
hidden_row = record {
  account_id = codes "ann";
  state = PresenceState.away;
  custom_status = [];
  hidden_until = 260;
  updated_at = 200;
}

abbrev hidden_rows : Dict Presence
hidden_rows = (codes "ann", hidden_row) ∷ []

hide_done : set_presence [] identity 200 hide ≡ ok (hidden_row, hidden_rows)
unfolding set_presence active_account presence_row save_presence trim_space trim_left trim_right
    is_space Dict.get Dict.put
hide_done = refl

abbrev shown : Snapshot
shown = record {
  account_id = codes "ann";
  state = PresenceState.away;
  custom_status = [];
  last_seen_at = 0;
  last_seen_hidden = true;
  updated_at = 200;
}

shown_to_bob :
    get_presence hidden_rows identity 230
      (pos 50)
      (record { account_id = codes "ann"; viewer_account_id = codes "bob" })
    ≡ ok shown
unfolding get_presence active_account last_seen_at latest_session latest_device snapshot shown_state
    presence_row trim_space trim_left trim_right is_space text_eq Dict.get
shown_to_bob = refl

found_account : active_account identity (codes "ann") ≡ ok account
unfolding active_account
found_account = refl

get_presence-set_presence_example :
    (shown.last_seen_hidden ≡ before 230 (200 + 60))
    × (shown.last_seen_at ≡ (if before 230 (200 + 60) then 0 else 200))
unfolding trim_space trim_left trim_right is_space text_eq
get_presence-set_presence_example =
    get_presence-set_presence [] hidden_rows identity 200 230 (pos 50) hide (codes "bob") hidden_row
      account 200 shown refl hide_done refl found_account seen shown_to_bob
