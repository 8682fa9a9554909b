-- ===== src/Federation/Pulls/Watermarks.antt =====
-- Acknowledging fragments over a bridge lowers no watermark.

use zvonilka.Federation.Replication.Outcomes.{and_then-Moves}
use zvonilka.Federation.Replication.Operations.{acknowledge-Moves}
use zvonilka.Federation.Replication.Watermarks.{IsKept, Moves, Moves-same, Moves-trans}
use zvonilka.Federation.Bridge.{and_then}
use zvonilka.Federation.Leases.{AcknowledgeFragmentsParams, acknowledge_fragments}
use zvonilka.Federation.Store.{MemoryStore}
use zvonilka.Federation.Models.{Link, Peer, ReplicationCursor}
use zvonilka.Federation.Pulls.{
  acknowledge_ready, acknowledge_on, acknowledge_bridge_fragments, ready_bundles,
  replication_cursor, acknowledge_bundles, acknowledgement_link,
}
use zvonilka.Base.{Time, ℕ, Text, List, [], ◌∷◌, trim_space, ok, or_now, refl}
use zvonilka.Federation.Params.{AcknowledgeBundlesParams}

module _ (s : MemoryStore) where
  acknowledge_ready-Moves :
      (t : MemoryStore) (now : Time) (peer_id link_id : Text) (acknowledged_at : Time)
      (cursor : ReplicationCursor) (found : List Text × ℕ)
      → Moves s t
      → Moves s (acknowledge_ready t now peer_id link_id acknowledged_at cursor found).1
  unfolding acknowledge_ready
  acknowledge_ready-Moves t now peer_id link_id acknowledged_at cursor ([], up_to) m = m
  acknowledge_ready-Moves t now peer_id link_id acknowledged_at cursor (id ∷ ids, up_to) m =
      let params : AcknowledgeBundlesParams = record {
        peer_id = peer_id;
        link_id = link_id;
        up_to_cursor = up_to;
        bundle_ids = id ∷ ids;
        acknowledged_at = acknowledged_at;
      } in
      Moves-trans s t (acknowledge_bundles t now params).1 m (acknowledge-Moves t now params m.kept)

acknowledge_on-Moves :
    (s : MemoryStore) (now : Time) (params : AcknowledgeFragmentsParams)
    → IsKept s
    → Moves s (acknowledge_on s now params).1
unfolding acknowledge_on
acknowledge_on-Moves s now params k =
    let (updated, rows) = acknowledge_fragments s.fragments_by_id params in
    let s' = record s { fragments_by_id = rows } in
    let ready = λ (t : MemoryStore) (cursor : ReplicationCursor).
      acknowledge_ready t now params.peer_id params.link_id params.acknowledged_at cursor
        (ready_bundles t [] updated) in
    and_then-Moves s (replication_cursor s' params.peer_id params.link_id, s')
      (λ cursor t. and_then (ready t cursor) (λ moved t'. (ok (updated, moved), t')))
      (Moves-same s s' k refl)
      (λ cursor t m.
        and_then-Moves s (ready t cursor) (λ moved t'. (ok (updated, moved), t'))
          (acknowledge_ready-Moves s t now params.peer_id params.link_id params.acknowledged_at
            cursor (ready_bundles t [] updated) m)
          (λ moved t' n. n))

pub acknowledge_bridge_fragments-Moves :
    (s : MemoryStore) (now : Time) (peer_server_name link_name : Text) (fragment_ids : List Text)
    (token : Text) (acknowledged_at : Time)
    → IsKept s
    → Moves s
        (acknowledge_bridge_fragments s now peer_server_name link_name fragment_ids token
          acknowledged_at).1
unfolding acknowledge_bridge_fragments
acknowledge_bridge_fragments-Moves s now peer_server_name link_name fragment_ids token at_time k =
    let params : Peer → Link → AcknowledgeFragmentsParams = λ peer link. record {
      peer_id = peer.id;
      link_id = link.id;
      fragment_ids = fragment_ids;
      lease_token = trim_space token;
      acknowledged_at = or_now at_time now;
    } in
    and_then-Moves s (acknowledgement_link s peer_server_name link_name fragment_ids token, s)
      (λ (peer, link) s'. acknowledge_on s' now (params peer link)) (Moves-same s s k refl)
      (λ (peer, link) t m.
        Moves-trans s t (acknowledge_on t now (params peer link)).1 m
          (acknowledge_on-Moves t now (params peer link) m.kept))
