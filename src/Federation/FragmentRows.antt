-- ===== src/Federation/FragmentRows.antt =====
-- The normal form of fragments (internal/domain/federation/models.go), and the store's reads and
-- writes of them (teststore/store.go).
use zvonilka.Base.{true, false, ◌>>=◌, ◌>>◌, refuse_if, err, ltb, pos, is_positive}
use zvonilka.Base.Dict
use zvonilka.Base.Dict.{Dict}
use zvonilka.Base.{
  Time, Text, if◌then◌else◌, or_now, Bool, Result, List, ℕ, trim_space, text_eq, eqb_ℤ, ◌==◌, [],
  ◌&&◌, keep, ok, trim_lower, not, ltb_ℤ, ◌||◌, is_empty, is_zero,
}
use zvonilka.Federation.Store.{MemoryStore, Saved, or_not_found, link_by_id}
use zvonilka.Federation.Models.{
  BundleFragment, BundleDirection, FragmentState, Error, invalid_input, conflict,
}
use zvonilka.Federation.Leases.{is_claimed, sort_by, fragments, is_outbound}
use zvonilka.Federation.BundleRows.{is_inbound, or_uncompressed, has_direction}
use zvonilka.Notification.Routing.{text_lt}
use zvonilka.Federation.Fragments.{direction_eq, compression_eq, is_closed}

abbrev pub initial_fragment_state : BundleDirection → FragmentState → FragmentState
initial_fragment_state direction FragmentState.unspecified =
    if is_inbound direction then FragmentState.accepted else FragmentState.queued
initial_fragment_state direction state = state

-- Only a claimed fragment keeps its lease.
unfoldable pub defaulted_fragment : BundleFragment → Time → BundleFragment
defaulted_fragment f now =
    let created_at = or_now f.created_at now in
    let state = initial_fragment_state f.direction f.state in
    record f {
      id = trim_space f.id;
      peer_id = trim_space f.peer_id;
      link_id = trim_space f.link_id;
      bundle_id = trim_space f.bundle_id;
      dedup_key = trim_space f.dedup_key;
      lease_token = if is_claimed state then trim_space f.lease_token else [];
      lease_expires_at = if is_claimed state then f.lease_expires_at else 0;
      integrity_hash = trim_lower f.integrity_hash;
      auth_tag = trim_lower f.auth_tag;
      payload_type = trim_lower f.payload_type;
      compression = or_uncompressed f.compression;
      state = state;
      created_at = created_at;
      available_at = or_now f.available_at created_at;
    }

-- A fragment that is claimed is an outbound one under a lease.
abbrev pub has_bad_lease : BundleFragment → Bool
has_bad_lease f =
    is_claimed f.state
    && (not (is_outbound f.direction) || is_empty f.lease_token || is_zero f.lease_expires_at)

unfoldable pub normalize_fragment : BundleFragment → Time → Result Error BundleFragment
normalize_fragment f now = do
  let row = defaulted_fragment f now
  refuse_if
      (is_empty row.id
        || is_empty row.peer_id
        || is_empty row.link_id
        || is_empty row.bundle_id
        || is_empty row.dedup_key)
      invalid_input
  refuse_if (not (has_direction row.direction)) invalid_input
  refuse_if (ltb row.cursor_to row.cursor_from) invalid_input
  refuse_if (ltb_ℤ row.event_count (pos 0)) invalid_input
  refuse_if (ltb_ℤ row.attempt_count (pos 0)) invalid_input
  refuse_if
      (not (is_positive row.fragment_count)
        || ltb_ℤ row.fragment_index (pos 0)
        || not (ltb_ℤ row.fragment_index row.fragment_count))
      invalid_input
  refuse_if (is_empty row.integrity_hash || is_empty row.auth_tag) invalid_input
  refuse_if (has_bad_lease row) invalid_input
  ok row

abbrev pub is_of_bundle : Text → BundleDirection → BundleFragment → Bool
is_of_bundle bundle_id direction f =
    text_eq f.bundle_id bundle_id && direction_eq f.direction direction

-- The index, then the id.
unfoldable pub stands_before : BundleFragment → BundleFragment → Bool
stands_before f g =
    if eqb_ℤ f.fragment_index g.fragment_index
    then text_lt f.id g.id
    else ltb_ℤ f.fragment_index g.fragment_index

unfoldable pub fragments_by_bundle : MemoryStore → Text → BundleDirection → List BundleFragment
fragments_by_bundle s bundle_id direction =
    sort_by stands_before (keep (is_of_bundle bundle_id direction) (fragments s.fragments_by_id))

-- Both stand on the same path, in the same bundle.
abbrev pub same_fragment_path : BundleFragment → BundleFragment → Bool
same_fragment_path f g =
    text_eq f.peer_id g.peer_id
    && text_eq f.link_id g.link_id
    && text_eq f.bundle_id g.bundle_id
    && direction_eq f.direction g.direction

abbrev pub same_fragment_content : BundleFragment → BundleFragment → Bool
same_fragment_content f g =
    (f.cursor_from == g.cursor_from)
    && (f.cursor_to == g.cursor_to)
    && eqb_ℤ f.event_count g.event_count
    && text_eq f.payload_type g.payload_type
    && compression_eq f.compression g.compression
    && text_eq f.integrity_hash g.integrity_hash
    && text_eq f.auth_tag g.auth_tag
    && eqb_ℤ f.fragment_index g.fragment_index
    && eqb_ℤ f.fragment_count g.fragment_count
    && text_eq f.payload g.payload

abbrev pub state_code : FragmentState → ℕ
state_code FragmentState.unspecified = 0
state_code FragmentState.queued = 1
state_code FragmentState.claimed = 2
state_code FragmentState.accepted = 3
state_code FragmentState.acknowledged = 4
state_code FragmentState.assembled = 5
state_code FragmentState.failed = 6

abbrev pub same_progress : BundleFragment → BundleFragment → Bool
same_progress f g =
    (state_code f.state == state_code g.state)
    && (f.acked_at == g.acked_at)
    && text_eq f.lease_token g.lease_token
    && (f.lease_expires_at == g.lease_expires_at)
    && eqb_ℤ f.attempt_count g.attempt_count

abbrev pub with_progress : BundleFragment → BundleFragment → BundleFragment
with_progress existing f = record existing {
  state = f.state;
  lease_token = f.lease_token;
  lease_expires_at = f.lease_expires_at;
  attempt_count = f.attempt_count;
  available_at = f.available_at;
  acked_at = f.acked_at;
}

-- A save over the row `existing`, which stands under `id`. An inbound row that is closed stays as it
-- is, as does one that the save does not move.
unfoldable pub save_over :
    MemoryStore → Text → BundleFragment → BundleFragment → Saved BundleFragment
save_over s id existing f = do
  refuse_if (not (same_fragment_path existing f && same_fragment_content existing f)) conflict
  let moved = with_progress existing f
  elim ((is_inbound existing.direction && is_closed existing.state) || same_progress existing f) [
    | true ↦ ok (existing, s)
    | false ↦ ok (
      moved,
      record s {
        fragments_by_id = Dict.put s.fragments_by_id id moved;
        fragment_ids_by_dedup = Dict.put s.fragment_ids_by_dedup f.dedup_key id;
      },
    )
  ]

-- The row of a deduplication key, with its id.
unfoldable pub fragment_of_dedup : MemoryStore → Text → Result Error (Text × BundleFragment)
fragment_of_dedup s dedup_key = do
  id ← or_not_found (Dict.get s.fragment_ids_by_dedup dedup_key)
  existing ← or_not_found (Dict.get s.fragments_by_id id)
  ok (id, existing)

-- A key without a row is put anew.
unfoldable pub over_or_put :
    MemoryStore → BundleFragment → Result Error (Text × BundleFragment) → Saved BundleFragment
over_or_put s f (ok (id, existing)) = save_over s id existing f
over_or_put s f (err e) = ok (
  f,
  record s {
    fragments_by_id = Dict.put s.fragments_by_id f.id f;
    fragment_ids_by_dedup = Dict.put s.fragment_ids_by_dedup f.dedup_key f.id;
  },
)

unfoldable pub save_fragment_row : MemoryStore → Time → BundleFragment → Saved BundleFragment
save_fragment_row s clock given = do
  row ← normalize_fragment given clock
  link ← link_by_id s row.link_id
  refuse_if (not (text_eq link.peer_id row.peer_id)) conflict
  over_or_put s row (fragment_of_dedup s row.dedup_key)
