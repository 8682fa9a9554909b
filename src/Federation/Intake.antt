-- ===== src/Federation/Intake.antt =====
-- pullInbound of internal/domain/federation/worker.go. What is written while a bundle is applied is
-- the state `W`, and the client of the peer has the state `C`.
pub mod Taken
use zvonilka.Base.{
  true, false, ok, err, [], ◌∷◌, ◌++◌, ◌&&◌, Text, ℕ, List, Bool, drop, codes, Option, Result, any,
  length, trim_lower, if◌then◌else◌, suc, decimal, is_empty, ℤ, trim_space, Time, pos, map, ltb,
}
use zvonilka.Federation.Models.{
  Peer, LinkState, TransportKind, Capability, Link, PeerState, Bundle, Error, BundleDirection,
  conflict,
}
use zvonilka.Federation.Security.{Digests}
use zvonilka.Federation.Params.{SaveBundleParams}
use zvonilka.Federation.Batches.{Encoding, build_outbound_bundles}
use zvonilka.Federation.Bundles.{raised, queue_outbound_bundle}
use zvonilka.Conversation.Events.{EventEnvelope}
use zvonilka.Federation.Store.{MemoryStore}
use zvonilka.Federation.Replication.{
  Outcome, replication_cursor, acknowledge_bundles, then_healthy, push_inbound_bundles,
}
use zvonilka.Federation.Worker.{apply_pending_inbound_bundles}
use zvonilka.Federation.Bridge.{and_then, as_outcome}
use zvonilka.Federation.BundleReads.{bundles_after}
use zvonilka.Federation.Parts.{with_first}
use zvonilka.Federation.Exchange.{outbound_dedup_key, Client, last_cursor}

-- A bundle that was pulled, as it is pushed into the store. A key is made where it has none.
abbrev pulled_params : Peer → Link → Bundle → SaveBundleParams
pulled_params peer link b = record {
  peer_id = peer.id;
  link_id = link.id;
  dedup_key =
      if is_empty (trim_space b.dedup_key)
      then outbound_dedup_key peer.server_name link.name b.cursor_from b.cursor_to
      else trim_space b.dedup_key;
  direction = BundleDirection.unspecified;
  cursor_from = b.cursor_from;
  cursor_to = b.cursor_to;
  event_count = b.event_count;
  payload_type = b.payload_type;
  payload = b.payload;
  compression = b.compression;
  integrity_hash = b.integrity_hash;
  auth_tag = b.auth_tag;
  available_at = b.available_at;
  expires_at = b.expires_at;
}

-- An id is drawn for each bundle that is taken in.
unfoldable pub all_pulled :
    Peer → Link → (ℕ → Option Text) → ℕ → List Bundle → List (SaveBundleParams × Option Text)
all_pulled peer link ids index [] = []
all_pulled peer link ids index (b ∷ bs) =
    (pulled_params peer link b, ids index) ∷ all_pulled peer link ids (suc index) bs

abbrev pub named_ids : List Bundle → List Text
named_ids [] = []
named_ids (b ∷ bs) = if is_empty (trim_space b.id) then named_ids bs else b.id ∷ named_ids bs

module _ {W C : Type 0} (apply : Bundle → W → Result Error (Unit {0}) × W) (client : Client C)
    (d : Digests) (local_server : Text) (batch_size : ℤ) where
  -- What was received is applied, and acknowledged to the peer if that reaches the end of `pulled`.
  unfoldable pub apply_received :
      MemoryStore
      → Time
      → Peer
      → Link
      → List Bundle
      → W
      → C
      → Result Error (Unit {0}) × MemoryStore × W × C
  apply_received s clock peer link pulled w c =
      let (applied, t, w') =
        apply_pending_inbound_bundles apply s clock peer.id link.id batch_size w in
      elim applied [
        | err e ↦ (err e, t, w', c)
        | ok end ↦
            if ltb end (last_cursor pulled)
            then (err conflict, t, w', c)
            else (let (sent, c') =
                  client.acknowledge local_server link.name (last_cursor pulled) (named_ids pulled)
                    c in
                (sent, t, w', c'))
      ]

  unfoldable pub take_in :
      MemoryStore
      → Time
      → (ℕ → Option Text)
      → Peer
      → Link
      → List Bundle
      → W
      → C
      → Result Error (Unit {0}) × MemoryStore × W × C
  take_in s clock ids peer link [] w c = (ok tt, s, w, c)
  take_in s clock ids peer link (b ∷ bs) w c =
      let (received, t) =
        push_inbound_bundles d s clock peer.id link.id (all_pulled peer link ids 0 (b ∷ bs)) in
      elim received [
        | err e ↦ (err e, t, w, c)
        | ok accepted ↦ apply_received t clock peer link (b ∷ bs) w c
      ]

  unfoldable pub pull_inbound :
      MemoryStore
      → Time
      → (ℕ → Option Text)
      → Peer
      → Link
      → W
      → C
      → Result Error (Unit {0}) × MemoryStore × W × C
  pull_inbound s clock ids peer link w c = elim (replication_cursor s peer.id link.id) [
    | err e ↦ (err e, s, w, c)
    | ok cursor ↦
        let (pulled, c') =
          client.pull local_server link.name cursor.last_inbound_cursor batch_size c in
        elim pulled [
          | err e ↦ (err e, s, w, c')
          | ok found ↦ take_in s clock ids peer link found w c'
        ]
  ]
