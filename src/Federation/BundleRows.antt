-- ===== src/Federation/BundleRows.antt =====
-- The normal form of bundles and replication cursors (internal/domain/federation/models.go), and the
-- store's writes of them (teststore/store.go).
use zvonilka.Base.{
  Time, true, false, ok, err, ◌>>=◌, ◌>>◌, Result, Bool, if◌then◌else◌, or_now, refuse_if,
  trim_space, text_eq, ◌==◌, trim_lower, is_empty, ◌&&◌, not, ltb, ◌||◌, eqb_ℤ, ltb_ℤ, pos,
}
use zvonilka.Base.Dict
use zvonilka.Base.Dict.{Dict}
use zvonilka.Federation.Models.{
  Error, invalid_input, conflict, Bundle, BundleState, BundleDirection, CompressionKind,
  ReplicationCursor,
}
use zvonilka.Federation.Store.{MemoryStore, Saved, link_by_id, bundle_by_dedup_key, pair_key}
use zvonilka.Federation.Fragments.{direction_eq, compression_eq}

abbrev pub is_inbound : BundleDirection → Bool
is_inbound BundleDirection.inbound = true
is_inbound _ = false

abbrev pub has_direction : BundleDirection → Bool
has_direction BundleDirection.unspecified = false
has_direction _ = true

abbrev pub or_uncompressed : CompressionKind → CompressionKind
or_uncompressed CompressionKind.unspecified = CompressionKind.none
or_uncompressed kind = kind

abbrev pub initial_state : BundleDirection → BundleState → BundleState
initial_state direction BundleState.unspecified =
    if is_inbound direction then BundleState.accepted else BundleState.queued
initial_state direction state = state

unfoldable pub defaulted_bundle : Bundle → Time → Bundle
defaulted_bundle b now =
    let created_at = or_now b.created_at now in
    record b {
      id = trim_space b.id;
      peer_id = trim_space b.peer_id;
      link_id = trim_space b.link_id;
      dedup_key = trim_space b.dedup_key;
      integrity_hash = trim_lower b.integrity_hash;
      auth_tag = trim_lower b.auth_tag;
      payload_type = trim_lower b.payload_type;
      compression = or_uncompressed b.compression;
      state = initial_state b.direction b.state;
      created_at = created_at;
      available_at = or_now b.available_at created_at;
    }

unfoldable pub normalize_bundle : Bundle → Time → Result Error Bundle
normalize_bundle b now = do
  let row = defaulted_bundle b now
  refuse_if
      (is_empty row.id || is_empty row.peer_id || is_empty row.link_id || is_empty row.dedup_key)
      invalid_input
  refuse_if (not (has_direction row.direction)) invalid_input
  refuse_if (ltb row.cursor_to row.cursor_from) invalid_input
  refuse_if (ltb_ℤ row.event_count (pos 0)) invalid_input
  ok row

unfoldable pub normalize_replication_cursor :
    ReplicationCursor → Time → Result Error ReplicationCursor
normalize_replication_cursor c now = do
  let row = record c {
    peer_id = trim_space c.peer_id;
    link_id = trim_space c.link_id;
    updated_at = or_now c.updated_at now;
  }
  refuse_if (is_empty row.peer_id || is_empty row.link_id) invalid_input
  refuse_if (ltb row.last_received_cursor row.last_inbound_cursor) invalid_input
  ok row

unfoldable pub save_cursor : MemoryStore → Time → ReplicationCursor → Saved ReplicationCursor
save_cursor s clock given = do
  row ← normalize_replication_cursor given clock
  ok (
    row,
    record s { cursors_by_key = Dict.put s.cursors_by_key (pair_key row.peer_id row.link_id) row },
  )

-- Both stand on the same path.
abbrev pub same_path : Bundle → Bundle → Bool
same_path a b =
    text_eq a.peer_id b.peer_id
    && text_eq a.link_id b.link_id
    && direction_eq a.direction b.direction

abbrev pub same_content : Bundle → Bundle → Bool
same_content a b =
    (a.cursor_from == b.cursor_from)
    && (a.cursor_to == b.cursor_to)
    && eqb_ℤ a.event_count b.event_count
    && text_eq a.payload_type b.payload_type
    && compression_eq a.compression b.compression
    && text_eq a.integrity_hash b.integrity_hash
    && text_eq a.auth_tag b.auth_tag
    && text_eq a.payload b.payload

-- A row that stands under the deduplication key of the new one, where there is one, is kept. A key
-- without a row is put anew.
unfoldable pub kept_or_put : MemoryStore → Bundle → Result Error Bundle → Saved Bundle
kept_or_put s b (ok existing) = do
  refuse_if (not (same_path existing b && same_content existing b)) conflict
  ok (existing, s)
kept_or_put s b (err e) = ok (
  b,
  record s {
    bundles_by_id = Dict.put s.bundles_by_id b.id b;
    bundle_ids_by_dedup = Dict.put s.bundle_ids_by_dedup b.dedup_key b.id;
  },
)

unfoldable pub save_bundle_row : MemoryStore → Time → Bundle → Saved Bundle
save_bundle_row s clock given = do
  row ← normalize_bundle given clock
  link ← link_by_id s row.link_id
  refuse_if (not (text_eq link.peer_id row.peer_id)) conflict
  kept_or_put s row (bundle_by_dedup_key s row.dedup_key)
