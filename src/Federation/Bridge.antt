-- ===== src/Federation/Bridge.antt =====
-- internal/domain/federation/fragments.go: the links that carry fragments, and the saves of
-- fragments. A save can fail after it has quarantined the fragments of the bundle, so that it also
-- has the store after an error.
use zvonilka.Base.{
  refl, ◌≡◌, arith, Time, Text, ℕ, Result, List, trim_space, Option, codes, drop, trim_lower, ok,
  pos, refuse_if, err, length, is_empty, not, if◌then◌else◌, decimal, ◌||◌, text_eq, is_positive,
  ◌&&◌, leb, ltb, pos_part, ◌≡◌, arith,
}
use zvonilka.Base.{true, false, ◌>>=◌, ◌>>◌, ◌++◌, [], ◌∷◌}
use zvonilka.Base.Dict
use zvonilka.Base.Dict.{Dict}
use zvonilka.Federation.Store.{
  MemoryStore, Saved, link_by_id, peer_by_server_name, or_not_found, pair_key, drawn,
}
use zvonilka.Federation.Models.{
  unauthorized, BundleFragment, Error, FragmentState, Link, Peer, BundleDirection, invalid_input,
  forbidden, conflict,
}
use zvonilka.Federation.Params.{SaveFragmentParams}
use zvonilka.Federation.Replication.{Outcome, replication_cursor}
use zvonilka.Federation.Links.{degraded_of_active, save_link, authorize_link_for_peer}
use zvonilka.Federation.FragmentRows.{fragments_by_bundle, save_fragment_row, normalize_fragment}
use zvonilka.Federation.Fragments.{
  validate_inbound_fragment_candidate, contains_fragment_dedup_key, is_bridge_transport, is_closed,
  is_inbound_fragment_bundle_terminal,
}
use zvonilka.Federation.BundleRows.{is_inbound}

unfoldable pub peer_of_server_name : MemoryStore → Text → Result Error Peer
peer_of_server_name s server_name = do
  refuse_if (is_empty (trim_lower server_name)) invalid_input
  peer_by_server_name s (trim_lower server_name)

unfoldable pub link_by_peer_and_name : MemoryStore → Text → Text → Result Error Link
link_by_peer_and_name s given_peer given_name = do
  let peer_id = trim_space given_peer
  let name = trim_lower given_name
  refuse_if (is_empty peer_id || is_empty name) invalid_input
  link_id ← or_not_found (Dict.get s.link_ids_by_peer_name (pair_key peer_id name))
  link_by_id s link_id

unfoldable pub bridge_link : MemoryStore → Text → Text → Result Error (Peer × Link)
bridge_link s peer_server_name link_name = do
  refuse_if (is_empty (trim_lower peer_server_name) || is_empty (trim_lower link_name))
      invalid_input
  peer ← peer_of_server_name s (trim_lower peer_server_name)
  link ← link_by_peer_and_name s peer.id (trim_lower link_name)
  refuse_if (not (is_bridge_transport link.transport_kind)) forbidden
  allowed ← authorize_link_for_peer s peer.id link.id false
  ok (peer, link)

unfoldable pub quarantined : Time → BundleFragment → BundleFragment
quarantined now f = record f { state = FragmentState.failed; acked_at = now }

-- The loop over the fragments.
unfoldable pub quarantine_each : MemoryStore → Time → List BundleFragment → Result Error MemoryStore
quarantine_each s now [] = ok s
quarantine_each s now (f ∷ fs) = elim (not (is_inbound f.direction) || is_closed f.state) [
  | true ↦ quarantine_each s now fs
  | false ↦ (do
    (saved, s') ← save_fragment_row s now (quarantined now f)
    quarantine_each s' now fs)
]

abbrev pub failed_link : Time → Text → Link → Link
failed_link now error_text link = record link {
  last_error = trim_space error_text;
  state = degraded_of_active link.state;
  updated_at = now;
}

-- The transaction of quarantineInboundFragments: where it fails, nothing is written. `error_text` is
-- the text of the error that the fragments are quarantined for.
unfoldable pub quarantine_inbound_fragments :
    MemoryStore → Time → List BundleFragment → Text → Result Error MemoryStore
quarantine_inbound_fragments s now [] error_text = ok s
quarantine_inbound_fragments s now (f ∷ fs) error_text = do
  s' ← quarantine_each s now (f ∷ fs)
  link ← link_by_id s' f.link_id
  (saved, s'') ← save_link s' now (failed_link now error_text link)
  ok s''

-- The error after which the fragments are quarantined, unless that fails itself.
unfoldable pub after_quarantine :
    {A : Type 0} → MemoryStore → Time → List BundleFragment → Text → Error → Outcome A
after_quarantine s now fragments error_text e =
    elim (quarantine_inbound_fragments s now fragments error_text) [
      | ok s' ↦ (err e, s')
      | err e' ↦ (err e', s)
    ]

-- `a, err := …; if err != nil { return err }`
abbrev pub and_then : {A B : Type 0} → Outcome A → (A → MemoryStore → Outcome B) → Outcome B
and_then (ok a, s) next = next a s
and_then (err e, s) next = (err e, s)

pub and_then-ok :
    {A B : Type 0} (o : Outcome A) (next : A → MemoryStore → Outcome B) (b : B) (t : MemoryStore)
    → and_then o next ≡ (ok b, t)
    → (a : A) × (m : MemoryStore) × (o ≡ (ok a, m)) × (next a m ≡ (ok b, t))
and_then-ok (ok a, m) next b t h = (a, m, refl, h)
and_then-ok (err e, m) next b t h = ground arith

abbrev pub as_outcome : {A : Type 0} → MemoryStore → Saved A → Outcome A
as_outcome s (ok (a, s')) = (ok a, s')
as_outcome s (err e) = (err e, s)

abbrev pub new_fragment : SaveFragmentParams → Text → BundleFragment
new_fragment params id = record {
  id = id;
  peer_id = trim_space params.peer_id;
  link_id = trim_space params.link_id;
  bundle_id = trim_space params.bundle_id;
  dedup_key = trim_space params.dedup_key;
  direction = params.direction;
  cursor_from = params.cursor_from;
  cursor_to = params.cursor_to;
  event_count = params.event_count;
  payload_type = params.payload_type;
  compression = params.compression;
  integrity_hash = params.integrity_hash;
  auth_tag = params.auth_tag;
  fragment_index = params.fragment_index;
  fragment_count = params.fragment_count;
  payload = params.payload;
  state = FragmentState.unspecified;
  lease_token = [];
  lease_expires_at = 0;
  attempt_count = pos 0;
  created_at = 0;
  available_at = params.available_at;
  acked_at = 0;
}

-- The guards of saveFragment, and the fragment in normal form.
unfoldable pub admitted_fragment :
    MemoryStore → Time → Option Text → SaveFragmentParams → Result Error BundleFragment
admitted_fragment s now drawn_id params = do
  refuse_if
      (is_empty (trim_space params.peer_id)
        || is_empty (trim_space params.link_id)
        || is_empty (trim_space params.bundle_id)
        || is_empty (trim_space params.dedup_key))
      invalid_input
  link ← link_by_id s (trim_space params.link_id)
  refuse_if (not (text_eq link.peer_id (trim_space params.peer_id))) conflict
  refuse_if
      (is_positive link.max_fragment_bytes
        && ltb (pos_part link.max_fragment_bytes) (length params.payload))
      invalid_input
  id ← drawn drawn_id
  normalize_fragment (new_fragment params id) now

-- The error texts of the sentinels that validateInboundFragmentCandidate returns.
abbrev pub candidate_error_text : Error → Text
candidate_error_text unauthorized = codes "unauthorized"
candidate_error_text _ = codes "conflict"

-- A new fragment of a bundle whose other fragments are `existing`.
unfoldable pub save_candidate :
    MemoryStore → Time → List BundleFragment → BundleFragment → Outcome BundleFragment
save_candidate s now existing f = elim (validate_inbound_fragment_candidate existing f) [
  | err e ↦ after_quarantine s now existing (candidate_error_text e) e
  | ok u ↦ as_outcome s (save_fragment_row s now f)
]

unfoldable pub save_inbound_fragment : MemoryStore → Time → BundleFragment → Outcome BundleFragment
save_inbound_fragment s now f =
    let existing = fragments_by_bundle s f.bundle_id BundleDirection.inbound in
    if contains_fragment_dedup_key existing f.dedup_key
    then as_outcome s (save_fragment_row s now f)
    else if is_inbound_fragment_bundle_terminal existing
    then (err conflict, s)
    else elim (replication_cursor s f.peer_id f.link_id) [
      | err e ↦ (err e, s)
      | ok cursor ↦
          if leb f.cursor_to cursor.last_received_cursor
          then (err conflict, s)
          else save_candidate s now existing f
    ]

unfoldable pub save_fragment :
    MemoryStore → Time → Option Text → SaveFragmentParams → Outcome BundleFragment
save_fragment s now drawn_id params = elim (admitted_fragment s now drawn_id params) [
  | err e ↦ (err e, s)
  | ok f ↦
      if is_inbound f.direction
      then save_inbound_fragment s now f
      else as_outcome s (save_fragment_row s now f)
]

-- `fmt.Sprintf("%06d", n)`
unfoldable pub six_digits : ℕ → Text
six_digits n = drop (length (decimal n)) (codes "000000") ++ decimal n

unfoldable pub fragment_dedup_key : Text → ℕ → Text
fragment_dedup_key bundle_dedup_key index =
    trim_space bundle_dedup_key ++ codes ":frag:" ++ six_digits index
