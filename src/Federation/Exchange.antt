-- ===== src/Federation/Exchange.antt =====
-- internal/domain/federation/worker.go: what the worker sends to a peer and takes in from it. The
-- client of the peer is a parameter with a state `C` of its own, as are the events of the
-- conversations.
use zvonilka.Base.{
  true, false, ok, err, [], ◌∷◌, ◌++◌, ◌&&◌, Text, ℕ, List, Bool, drop, codes, Option, Result, any,
  length, trim_lower, suc, decimal, ℤ, trim_space, Time, pos, map,
}
use zvonilka.Federation.Models.{
  Peer, LinkState, TransportKind, Capability, Link, PeerState, Bundle, Error, BundleDirection,
}
use zvonilka.Federation.Security.{Digests}
use zvonilka.Federation.Params.{SaveBundleParams}
use zvonilka.Federation.Batches.{Encoding, build_outbound_bundles}
use zvonilka.Federation.Bundles.{raised, queue_outbound_bundle}
use zvonilka.Conversation.Events.{EventEnvelope}
use zvonilka.Federation.Store.{MemoryStore}
use zvonilka.Federation.Replication.{Outcome, replication_cursor, acknowledge_bundles, then_healthy}
use zvonilka.Federation.Worker.{apply_pending_inbound_bundles}
use zvonilka.Federation.Bridge.{and_then, as_outcome}
use zvonilka.Federation.BundleReads.{bundles_after}
use zvonilka.Federation.Parts.{with_first}

-- ReplicationClient
pub record Client (C : Type 0) : Type 0 where
  pub push : Text → Text → List Bundle → C → Result Error (Unit {0}) × C
  pub pull : Text → Text → ℕ → ℤ → C → Result Error (List Bundle) × C
  pub acknowledge : Text → Text → ℕ → List Text → C → Result Error (Unit {0}) × C

abbrev is_replicating : PeerState → Bool
is_replicating PeerState.active = true
is_replicating PeerState.degraded = true
is_replicating _ = false

abbrev replicates_events : Capability → Bool
replicates_events Capability.event_replication = true
replicates_events _ = false

unfoldable pub is_replicable_peer : Peer → Bool
is_replicable_peer peer =
    peer.trusted && is_replicating peer.state && any replicates_events peer.capabilities

abbrev is_live : LinkState → Bool
is_live LinkState.active = true
is_live LinkState.degraded = true
is_live _ = false

abbrev has_transport : TransportKind → Bool
has_transport TransportKind.unspecified = false
has_transport _ = true

unfoldable pub is_replicable_link : Link → Bool
is_replicable_link link = is_live link.state && has_transport link.transport_kind

-- `fmt.Sprintf("%020d", n)`
abbrev twenty_digits : ℕ → Text
twenty_digits n = drop (length (decimal n)) (codes "00000000000000000000") ++ decimal n

unfoldable pub outbound_dedup_key : Text → Text → ℕ → ℕ → Text
outbound_dedup_key server_name link_name cursor_from cursor_to =
    codes "out:"
    ++ trim_lower server_name
    ++ codes ":"
    ++ trim_lower link_name
    ++ codes ":"
    ++ twenty_digits cursor_from
    ++ codes ":"
    ++ twenty_digits cursor_to

abbrev pub keyed_params : Text → Peer → Link → SaveBundleParams → SaveBundleParams
keyed_params local_server peer link params = record params {
  peer_id = peer.id;
  link_id = link.id;
  dedup_key = outbound_dedup_key local_server link.name params.cursor_from params.cursor_to;
}

-- The largest end of the bundles.
abbrev pub last_cursor : List Bundle → ℕ
last_cursor [] = 0
last_cursor (b ∷ bs) = raised b.cursor_to (last_cursor bs)

-- The events of the conversations after a sequence, the kind of a conversation, and the settings of the
-- worker.
module _ (d : Digests) (enc : Encoding) (kind_of : Text → Result Error Text)
    (events_after : ℕ → ℤ → Result Error (List EventEnvelope)) (local_server : Text)
    (batch_size : ℤ) where
  -- An id is drawn for each bundle that is queued.
  unfoldable pub queue_each :
      MemoryStore
      → Time
      → (ℕ → Option Text)
      → Peer
      → Link
      → ℕ
      → List SaveBundleParams
      → Outcome (List Bundle)
  queue_each s clock ids peer link index [] = (ok [], s)
  queue_each s clock ids peer link index (params ∷ rest) =
      and_then
        (as_outcome s (
          queue_outbound_bundle d s clock (ids index) (keyed_params local_server peer link params)))
        (λ b s'. with_first b (queue_each s' clock ids peer link (suc index) rest))

  unfoldable pub queue_events :
      MemoryStore
      → Time
      → (ℕ → Option Text)
      → Peer
      → Link
      → List EventEnvelope
      → Outcome (List Bundle)
  queue_events s clock ids peer link [] = (ok [], s)
  queue_events s clock ids peer link (e ∷ es) =
      and_then (build_outbound_bundles enc kind_of peer link (e ∷ es), s)
        (λ params s'. queue_each s' clock ids peer link 0 params)

  unfoldable pub queue_pending_outbound_events :
      MemoryStore → Time → (ℕ → Option Text) → Peer → Link → ℕ → Outcome (List Bundle)
  queue_pending_outbound_events s clock ids peer link after_cursor =
      and_then (events_after after_cursor batch_size, s)
        (λ events s'. queue_events s' clock ids peer link events)

  abbrev pub or_queued :
      MemoryStore → Time → (ℕ → Option Text) → Peer → Link → ℕ → List Bundle → Outcome (List Bundle)
  or_queued s clock ids peer link after_cursor [] =
      queue_pending_outbound_events s clock ids peer link after_cursor
  or_queued s clock ids peer link after_cursor (b ∷ bs) = (ok (b ∷ bs), s)

  -- The bundles that are not acknowledged, at most `limit` of them, or else new ones.
  unfoldable pub pending_or_queued :
      MemoryStore → Time → (ℕ → Option Text) → Peer → Link → ℤ → Outcome (List Bundle)
  pending_or_queued s clock ids peer link limit =
      and_then (replication_cursor s peer.id link.id, s)
        (λ cursor s'. or_queued s' clock ids peer link cursor.last_outbound_cursor (
          bundles_after s' (trim_space peer.id) (trim_space link.id) BundleDirection.outbound
            cursor.last_acked_cursor limit))

  -- applyPendingInboundBundles comes first.
  unfoldable pub process_bridge_link :
      {W : Type 0}
      → (Bundle → W → Result Error (Unit {0}) × W)
      → MemoryStore
      → Time
      → (ℕ → Option Text)
      → Peer
      → Link
      → W
      → Outcome (Unit {0}) × W
  process_bridge_link apply s clock ids peer link w =
      let (applied, t, w') =
        apply_pending_inbound_bundles apply s clock peer.id link.id batch_size w in
      (
        and_then (applied, t)
            (λ end t'.
              and_then (pending_or_queued t' clock ids peer link (pos 1))
                (λ pending u. then_healthy u clock link.id tt)),
        w',
      )

  module _ {C : Type 0} (client : Client C) where
    unfoldable pub push_pending :
        MemoryStore → Time → Peer → Link → List Bundle → C → Outcome (Unit {0}) × C
    push_pending s clock peer link [] c = ((ok tt, s), c)
    push_pending s clock peer link (b ∷ bs) c =
        let (sent, c') = client.push local_server link.name (b ∷ bs) c in
        (
          and_then (sent, s)
              (λ u s'.
                and_then
                  (acknowledge_bundles s' clock (record {
                    peer_id = peer.id;
                    link_id = link.id;
                    up_to_cursor = last_cursor (b ∷ bs);
                    bundle_ids = map (λ (b : Bundle). b.id) (b ∷ bs);
                    acknowledged_at = clock;
                  }))
                  (λ cursor t. (ok tt, t))),
          c',
        )

    unfoldable pub push_outbound :
        MemoryStore → Time → (ℕ → Option Text) → Peer → Link → C → Outcome (Unit {0}) × C
    push_outbound s clock ids peer link c =
        elim (pending_or_queued s clock ids peer link batch_size).0 [
          | err e ↦ ((err e, (pending_or_queued s clock ids peer link batch_size).1), c)
          | ok pending ↦
              push_pending (pending_or_queued s clock ids peer link batch_size).1 clock peer link
                pending c
        ]
