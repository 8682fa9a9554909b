-- ===== src/Federation/Bundles.antt =====
-- saveBundle of internal/domain/federation/service.go: QueueOutboundBundle and AcceptInboundBundle.
pub mod Replay
pub mod Again
use zvonilka.Base.{
  Text, Time, Option, true, false, ok, err, ◌>>=◌, ◌>>◌, Result, Bool, ℕ, if◌then◌else◌, refuse_if,
  trim_space, text_eq, is_empty, ◌&&◌, not, ltb, ◌||◌, leb,
}
use zvonilka.Federation.Models.{
  Error, invalid_input, conflict, LinkState, Bundle, BundleState, BundleDirection,
  ReplicationCursor,
}
use zvonilka.Federation.Params.{SaveBundleParams}
use zvonilka.Federation.Store.{
  MemoryStore, Saved, drawn, link_by_id, bundle_by_dedup_key, cursor_by_peer_and_link,
}
use zvonilka.Federation.Security.{Digests, sign_bundle, verify_bundle, peer_and_link}
use zvonilka.Federation.BundleRows.{
  is_inbound, same_path, normalize_bundle, save_bundle_row, save_cursor,
}

-- The cursor of a link that has none.
abbrev pub first_cursor : Text → Text → ReplicationCursor
first_cursor peer_id link_id = record {
  last_received_cursor = 0;
  peer_id = peer_id;
  link_id = link_id;
  last_inbound_cursor = 0;
  last_outbound_cursor = 0;
  last_acked_cursor = 0;
  updated_at = 0;
}

-- The store's cursor; the only error of the in-memory store is that there is none.
unfoldable pub cursor_or_first : MemoryStore → Text → Text → ReplicationCursor
cursor_or_first s peer_id link_id = elim (cursor_by_peer_and_link s peer_id link_id) [
  | ok cursor ↦ cursor
  | err e ↦ first_cursor peer_id link_id
]

abbrev pub raised : ℕ → ℕ → ℕ
raised given mark = if ltb mark given then given else mark

-- The watermark of the bundle's direction, raised to its end.
unfoldable pub cursor_after : ReplicationCursor → Bundle → Time → ReplicationCursor
cursor_after cursor b now =
    if is_inbound b.direction
    then record cursor {
      last_received_cursor = raised b.cursor_to cursor.last_received_cursor;
      updated_at = now;
    }
    else record cursor {
      last_outbound_cursor = raised b.cursor_to cursor.last_outbound_cursor;
      updated_at = now;
    }

abbrev pub is_deleted : LinkState → Bool
is_deleted LinkState.deleted = true
is_deleted _ = false

abbrev pub new_bundle : SaveBundleParams → BundleDirection → Text → Bundle
new_bundle params direction id = record {
  id = id;
  peer_id = trim_space params.peer_id;
  link_id = trim_space params.link_id;
  dedup_key = trim_space params.dedup_key;
  direction = direction;
  cursor_from = params.cursor_from;
  cursor_to = params.cursor_to;
  event_count = params.event_count;
  payload_type = params.payload_type;
  payload = params.payload;
  compression = params.compression;
  integrity_hash = params.integrity_hash;
  auth_tag = params.auth_tag;
  state = BundleState.unspecified;
  created_at = 0;
  available_at = params.available_at;
  expires_at = params.expires_at;
  acked_at = 0;
}

-- An inbound bundle that ends at or before what was received: the row it repeats, or a conflict.
unfoldable pub repeated_bundle : MemoryStore → Bundle → Saved Bundle
repeated_bundle s b = elim (bundle_by_dedup_key s b.dedup_key) [
  | err e ↦ err conflict
  | ok existing ↦ if same_path existing b then ok (existing, s) else err conflict
]

-- The transaction of saveBundle.
unfoldable pub record_bundle : MemoryStore → Time → Bundle → Saved Bundle
record_bundle s now b =
    let cursor = cursor_or_first s b.peer_id b.link_id in
    if is_inbound b.direction && leb b.cursor_to cursor.last_received_cursor
    then repeated_bundle s b
    else do
      (saved, s') ← save_bundle_row s now b
      (moved, s'') ← save_cursor s' now (cursor_after cursor b now)
      ok (saved, s'')

module _ (d : Digests) where
  -- An outbound bundle is signed, an inbound one verified.
  unfoldable pub sealed_bundle : MemoryStore → Bundle → Result Error Bundle
  sealed_bundle s b = do
    (peer, link) ← peer_and_link s b.peer_id b.link_id
    elim (is_inbound b.direction) [
      | true ↦ (do verify_bundle d peer link b; ok b)
      | false ↦ ok (sign_bundle d peer link b)
    ]

  unfoldable pub save_bundle :
      MemoryStore → Time → Option Text → SaveBundleParams → BundleDirection → Saved Bundle
  save_bundle s now drawn_id params direction = do
    refuse_if
        (is_empty (trim_space params.peer_id)
          || is_empty (trim_space params.link_id)
          || is_empty (trim_space params.dedup_key))
        invalid_input
    link ← link_by_id s (trim_space params.link_id)
    refuse_if (not (text_eq link.peer_id (trim_space params.peer_id))) conflict
    refuse_if (is_deleted link.state) conflict
    id ← drawn drawn_id
    normal ← normalize_bundle (new_bundle params direction id) now
    b ← sealed_bundle s normal
    record_bundle s now b

  unfoldable pub queue_outbound_bundle :
      MemoryStore → Time → Option Text → SaveBundleParams → Saved Bundle
  queue_outbound_bundle s now drawn_id params =
      save_bundle s now drawn_id params BundleDirection.outbound

  unfoldable pub accept_inbound_bundle :
      MemoryStore → Time → Option Text → SaveBundleParams → Saved Bundle
  accept_inbound_bundle s now drawn_id params =
      save_bundle s now drawn_id params BundleDirection.inbound
