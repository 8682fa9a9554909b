-- ===== src/Presence/Visibility.antt =====
-- What other viewers see of an account.
use mathlib.Core.Path.{sym, ap}
use zvonilka.Base.{
  Text, Time, Duration, pos_part, true, false, List, [], ◌∷◌, ok, arith, ◌≡◌, refl, ◌≤◌, ◌<◌, ◌+◌,
  ◌==◌, ◌⊎◌, Result-cases, inl, inr, is_positive, or_now, trim_space, text_eq, any, All, before,
  trim_space-IsTrimmed, ◌++◌, if◌then◌else◌, Bool-cases, ◌∙◌, any-append, All-append, All-map, some,
}
use zvonilka.Base.Dict
use zvonilka.Base.Dict.{Dict, get-put_self}
use zvonilka.Presence.Models.{
  PresenceState, Presence, Snapshot, SetParams, Account, Session, Device,
}
use zvonilka.Presence.Service.{
  IdentityReader, active_account, later_of, is_active_session, is_active_device, latest_session,
  latest_device, last_seen_at, snapshot, shown_state, presence_row, save_presence, set_presence,
  get_presence, next_presence,
}

-- Another viewer's snapshot of an invisible account that does not hide its last-seen time: the state
-- reads offline, but the time is shown all the same, and not marked as hidden.
pub snapshot_of_invisible :
    (now : Time) (window : Duration) (viewer : Text) (row : Presence) (last_seen : Time)
    → row.state ≡ PresenceState.invisible
    → row.hidden_until ≡ 0
    → text_eq viewer row.account_id ≡ false
    → ((snapshot now window viewer row last_seen).state ≡ PresenceState.offline)
      × ((snapshot now window viewer row last_seen).last_seen_at ≡ last_seen)
      × ((snapshot now window viewer row last_seen).last_seen_hidden ≡ false)
unfolding snapshot shown_state
snapshot_of_invisible now window viewer row last_seen s h v = ground arith

save_presence-ok :
    (s t : Dict Presence) (given saved : Presence)
    → save_presence s given ≡ ok (saved, t)
    → (saved.account_id ≡ trim_space given.account_id)
      × (saved.hidden_until ≡ given.hidden_until)
      × (0 < given.updated_at)
      × (t ≡ Dict.put s saved.account_id saved)
unfolding save_presence
save_presence-ok s t given saved h = ground arith

set_presence-row :
    (s t : Dict Presence) (identity : IdentityReader) (clock : Time) (params : SetParams)
    (saved : Presence)
    → is_positive params.hide_last_seen_for ≡ true
    → set_presence s identity clock params ≡ ok (saved, t)
    → (presence_row t (trim_space params.account_id) ≡ saved)
      × (saved.account_id ≡ trim_space params.account_id)
      × (saved.hidden_until ≡ or_now params.recorded_at clock + pos_part params.hide_last_seen_for)
      × (0 < or_now params.recorded_at clock)
unfolding set_presence presence_row
set_presence-row s t identity clock params saved p h =
    let id = trim_space params.account_id in
    let row = next_presence (presence_row s id) clock params in
    elim (Result-cases (active_account identity id)) [
      | inr (x, e) ↦ ground arith
      | inl (account, e) ↦
          let (a, b, c, d) = save_presence-ok s t row saved (ground arith) in
          let named : saved.account_id ≡ id = a ∙ trim_space-IsTrimmed params.account_id in
          let found : Dict.get t id ≡ some saved =
            ap (λ m. Dict.get m id) (d ∙ ap (λ k. Dict.put s k saved) named)
            ∙ get-put_self s id saved in
          (ground (arith, found), named, ground arith, c)
    ]

snapshot-hidden :
    (now : Time) (window : Duration) (viewer : Text) (row : Presence) (last_seen : Time)
    → text_eq viewer row.account_id ≡ false
    → 0 < row.hidden_until
    → ((snapshot now window viewer row last_seen).last_seen_hidden ≡ before now row.hidden_until)
      × ((snapshot now window viewer row last_seen).last_seen_at
          ≡ (if before now row.hidden_until then 0 else last_seen))
unfolding snapshot shown_state
snapshot-hidden now window viewer row last_seen v l = ground arith

-- An account that hid its last-seen time for a while: until that while is over, counted from the time
-- of the change, every other viewer's snapshot has no time and says that it is hidden; from then on the
-- snapshot has the account's last-seen time, and does not say that it is hidden. The account can be
-- looked up, and `last_seen` is its last-seen time.
pub get_presence-set_presence :
    (s t : Dict Presence) (identity : IdentityReader) (clock now : Time) (window : Duration)
    (params : SetParams) (viewer : Text) (saved : Presence) (account : Account) (last_seen : Time)
    (shown : Snapshot)
    → is_positive params.hide_last_seen_for ≡ true
    → set_presence s identity clock params ≡ ok (saved, t)
    → text_eq (trim_space viewer) (trim_space params.account_id) ≡ false
    → active_account identity (trim_space params.account_id) ≡ ok account
    → last_seen_at identity account ≡ ok last_seen
    → get_presence t identity now window
        (record { account_id = params.account_id; viewer_account_id = viewer })
      ≡ ok shown
    → (shown.last_seen_hidden
        ≡ before now (or_now params.recorded_at clock + pos_part params.hide_last_seen_for))
      × (shown.last_seen_at ≡ (
          if before now (or_now params.recorded_at clock + pos_part params.hide_last_seen_for)
          then 0
          else last_seen))
unfolding get_presence
get_presence-set_presence s t identity clock now window params viewer saved account last shown p h v
      e q g =
    let id = trim_space params.account_id in
    let (row, named, hidden, begun) = set_presence-row s t identity clock params saved p h in
    let shot = snapshot now window (trim_space viewer) saved last in
    let same : shown ≡ record shot { account_id = id } = ground arith in
    let unlike : text_eq (trim_space viewer) saved.account_id ≡ false =
      ap (text_eq (trim_space viewer)) named ∙ v in
    let (until, time) =
      snapshot-hidden now window (trim_space viewer) saved last unlike
        (omega (arith, hidden, begun)) in
    (
      ap (λ x. x.last_seen_hidden) same ∙ until ∙ ap (before now) hidden,
      ap (λ x. x.last_seen_at) same ∙ time ∙ ap (λ n. if before now n then 0 else last) hidden,
    )

-- The times of the active sessions, and of the active devices.
unfoldable pub session_times : List Session → List Time
session_times [] = []
session_times (s ∷ ss) =
    let rest = session_times ss in if is_active_session s then s.last_seen_at ∷ rest else rest

unfoldable pub device_times : List Device → List Time
device_times [] = []
device_times (d ∷ ds) =
    let rest = device_times ds in if is_active_device d then d.last_seen_at ∷ rest else rest

-- The greatest of a time and some others.
abbrev pub IsLatest : Time → Time → List Time → Type 0
IsLatest latest first times =
    (first ≤ latest)
    × All (λ t. t ≤ latest) times
    × ((latest ≡ first) ⊎ (any (λ t. t == latest) times ≡ true))

IsLatest-earlier :
    (latest t first : Time) (times : List Time)
    → IsLatest latest (later_of t first) times
    → IsLatest latest first (t ∷ times)
IsLatest-earlier latest t first times (l, all_below, inl e) =
    (ground arith, (ground arith, all_below), ground arith)
IsLatest-earlier latest t first times (l, all_below, inr h) =
    (ground arith, (ground arith, all_below), inr (ground arith))

latest_session-IsLatest :
    (first : Time) (ss : List Session) → IsLatest (latest_session first ss) first (session_times ss)
unfolding latest_session session_times
latest_session-IsLatest first [] = (omega arith, tt, inl refl)
latest_session-IsLatest first (s ∷ ss) = elim (Bool-cases (is_active_session s)) [
  | inl h ↦
      let latest = latest_session (later_of s.last_seen_at first) ss in
      rw h (
        IsLatest-earlier latest s.last_seen_at first (session_times ss)
          (latest_session-IsLatest (later_of s.last_seen_at first) ss))
  | inr h ↦ rw h (latest_session-IsLatest first ss)
]

latest_device-IsLatest :
    (first : Time) (ds : List Device) → IsLatest (latest_device first ds) first (device_times ds)
unfolding latest_device device_times
latest_device-IsLatest first [] = (omega arith, tt, inl refl)
latest_device-IsLatest first (d ∷ ds) = elim (Bool-cases (is_active_device d)) [
  | inl h ↦
      let latest = latest_device (later_of d.last_seen_at first) ds in
      rw h (
        IsLatest-earlier latest d.last_seen_at first (device_times ds)
          (latest_device-IsLatest (later_of d.last_seen_at first) ds))
  | inr h ↦ rw h (latest_device-IsLatest first ds)
]

-- The greatest of some times and then of more is the greatest of all.
both-IsLatest :
    (middle latest first : Time) (times more : List Time)
    → IsLatest middle first times
    → IsLatest latest middle more
    → IsLatest latest first (times ++ more)
both-IsLatest middle latest first times more (a, below, c) (d, all_more, f) = (
  omega arith,
  All-append (λ t. t ≤ latest) times more
      (All-map (λ t. t ≤ middle) (λ t. t ≤ latest) (λ t l. omega arith) times below) all_more,
  attained c f,
)
  where
    attained :
        (middle ≡ first) ⊎ (any (λ t. t == middle) times ≡ true)
        → (latest ≡ middle) ⊎ (any (λ t. t == latest) more ≡ true)
        → (latest ≡ first) ⊎ (any (λ t. t == latest) (times ++ more) ≡ true)
    attained (inl e) (inl q) = inl (q ∙ e)
    attained (inr h) (inl q) = inr (any-append (λ t. t == latest) times more ∙ rw (q, h) refl)
    attained e (inr h) = inr (ground (arith, any-append (λ t. t == latest) times more))

-- The last-seen time of an account is the latest of its last authentication and of the times of its
-- active sessions and devices: it is one of these, and none of them is later. Other sessions and
-- devices do not count.
pub last_seen_at-IsLatest :
    (identity : IdentityReader) (account : Account) (sessions : List Session)
    (devices : List Device) (last_seen : Time)
    → identity.sessions_by_account_id account.id ≡ ok sessions
    → identity.devices_by_account_id account.id ≡ ok devices
    → last_seen_at identity account ≡ ok last_seen
    → IsLatest last_seen account.last_auth_at (session_times sessions ++ device_times devices)
unfolding last_seen_at
last_seen_at-IsLatest identity account sessions devices last_seen s d h =
    let middle = latest_session account.last_auth_at sessions in
    let same : latest_device middle devices ≡ last_seen = ground arith in
    rw (sym same) (
      both-IsLatest middle (latest_device middle devices) account.last_auth_at
        (session_times sessions) (device_times devices)
        (latest_session-IsLatest account.last_auth_at sessions)
        (latest_device-IsLatest middle devices))
