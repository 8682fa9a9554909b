-- ===== src/Federation/Polling/Monotone.antt =====
-- A round of the worker lowers no watermark.
use mathlib.Core.Path.{subst, sym}
use zvonilka.Federation.Polling.Kept.{Moves-step, pending_or_queued-Moves}
use zvonilka.Federation.Polling.Taking.{apply_pending-Moves, pull_inbound-Moves}
use zvonilka.Federation.Replication.Steps.{Step}
use zvonilka.Federation.Replication.Watermarks.{Moves}
use zvonilka.Federation.Replication.Writes.{Moves-healthy}
use zvonilka.Federation.Params.{AcknowledgeBundlesParams}
use zvonilka.Federation.Replication.Outcomes.{and_then-Moves}
use zvonilka.Base.{
  Option, refl, ok, err, [], ◌∷◌, ◌≡◌, inl, inr, Text, Result, ℕ, ℤ, List, Time, pos, map,
  Result-cases,
}
use zvonilka.Federation.Security.{Digests}
use zvonilka.Federation.Batches.{Encoding}
use zvonilka.Federation.Models.{Error, Bundle, Peer, Link, ReplicationCursor}
use zvonilka.Conversation.Events.{EventEnvelope}
use zvonilka.Federation.Exchange.{
  Client, process_bridge_link, push_pending, push_outbound, last_cursor, pending_or_queued,
}
use zvonilka.Federation.Store.{MemoryStore}
use zvonilka.Federation.Polling.{
  exchange, connected_exchange, apply_pending_inbound_bundles, Outcome, then_healthy, pull_inbound,
  and_then,
}
use zvonilka.Federation.Replication.{acknowledge_bundles}

module _ {W C : Type 0} (d : Digests) (enc : Encoding) (kind_of : Text → Result Error Text)
    (events_after : ℕ → ℤ → Result Error (List EventEnvelope)) (local_server : Text)
    (batch_size : ℤ) (apply : Bundle → W → Result Error (Unit {0}) × W) (client : Client C)
    (connect : Peer → Link → C → Result Error (Unit {0}) × C) (text_of : Error → Text)
    (clock : Time) where
  module _ (s : MemoryStore) where
    pub process_bridge_link-Moves :
        (t : MemoryStore) (ids : ℕ → Option Text) (peer : Peer) (link : Link) (w : W)
        → Moves s t
        → Moves s
            (process_bridge_link d enc kind_of events_after local_server batch_size apply t clock
              ids peer link w).0.1
    unfolding process_bridge_link
    process_bridge_link-Moves t ids peer link w m =
        let round = apply_pending_inbound_bundles apply t clock peer.id link.id batch_size w in
        let pending : MemoryStore → Outcome (List Bundle) = λ u.
          pending_or_queued d enc kind_of events_after local_server batch_size u clock ids peer link
            (pos 1) in
        let close : List Bundle → MemoryStore → Outcome (Unit {0}) =
          λ bs u. then_healthy u clock link.id tt in
        and_then-Moves s (round.0, round.1) (λ end u. and_then (pending u) close)
          (apply_pending-Moves d s apply t clock peer.id link.id batch_size w m)
          (λ end u n.
            and_then-Moves s (pending u) close
              (pending_or_queued-Moves s d enc kind_of events_after local_server batch_size u clock
                ids peer link (pos 1) n)
              (λ bs v k. Moves-healthy s v clock link.id tt k))

    push_pending-Moves :
        (t : MemoryStore) (peer : Peer) (link : Link) (pending : List Bundle) (c : C)
        → Moves s t
        → Moves s
            (push_pending d enc kind_of events_after local_server batch_size client t clock peer
              link pending c).0.1
    unfolding push_pending
    push_pending-Moves t peer link [] c m = m
    push_pending-Moves t peer link (b ∷ bs) c m =
        let sent = client.push local_server link.name (b ∷ bs) c in
        let params : AcknowledgeBundlesParams = record {
          peer_id = peer.id;
          link_id = link.id;
          up_to_cursor = last_cursor (b ∷ bs);
          bundle_ids = map (λ (b : Bundle). b.id) (b ∷ bs);
          acknowledged_at = clock;
        } in
        let done : ReplicationCursor → MemoryStore → Outcome (Unit {0}) = λ cursor v. (ok tt, v) in
        and_then-Moves s (sent.0, t) (λ u v. and_then (acknowledge_bundles v clock params) done) m
          (λ u v n.
            and_then-Moves s (acknowledge_bundles v clock params) done
              (Moves-step d s v (acknowledge_bundles v clock params).1 n
                (Step.acknowledged clock params refl))
              (λ cursor x k. k))

    push_outbound-Moves :
        (t : MemoryStore) (ids : ℕ → Option Text) (peer : Peer) (link : Link) (c : C)
        → Moves s t
        → Moves s
            (push_outbound d enc kind_of events_after local_server batch_size client t clock ids
              peer link c).0.1
    unfolding push_outbound
    push_outbound-Moves t ids peer link c m =
        let pending =
          pending_or_queued d enc kind_of events_after local_server batch_size t clock ids peer link
            batch_size in
        let outcome =
          push_outbound d enc kind_of events_after local_server batch_size client t clock ids peer
            link c in
        let store : Outcome (Unit {0}) × C → Type 0 = λ o. Moves s o.0.1 in
        let kept =
          pending_or_queued-Moves s d enc kind_of events_after local_server batch_size t clock ids
            peer link batch_size m in
        elim (Result-cases pending.0) [
          | inr (e, q) ↦
              let failed : outcome ≡ ((err e, pending.1), c) = rw (push_outbound, q) refl in
              subst store (sym failed) kept
          | inl (found, q) ↦
              let went : outcome
                  ≡ push_pending d enc kind_of events_after local_server batch_size client pending.1
                      clock peer link found c =
                rw (push_outbound, q) refl in
              subst store (sym went) (push_pending-Moves pending.1 peer link found c kept)
        ]

    exchange-Moves :
        (t : MemoryStore) (pushed_ids pulled_ids : ℕ → Option Text) (peer : Peer) (link : Link)
        (w : W) (c : C)
        → Moves s t
        → Moves s
            (exchange d enc kind_of events_after local_server batch_size apply client connect
              text_of clock t pushed_ids pulled_ids peer link w c).0.1
    unfolding exchange
    exchange-Moves t pushed_ids pulled_ids peer link w c m =
        let pushed =
          push_outbound d enc kind_of events_after local_server batch_size client t clock pushed_ids
            peer link c in
        let outcome =
          exchange d enc kind_of events_after local_server batch_size apply client connect text_of
            clock t pushed_ids pulled_ids peer link w c in
        let store : Outcome (Unit {0}) × W × C → Type 0 = λ o. Moves s o.0.1 in
        let kept = push_outbound-Moves t pushed_ids peer link c m in
        elim (Result-cases pushed.0.0) [
          | inr (e, q) ↦
              let failed : outcome ≡ ((err e, pushed.0.1), w, pushed.1) = rw (exchange, q) refl in
              subst store (sym failed) kept
          | inl (u, q) ↦
              let pulled =
                pull_inbound apply client d local_server batch_size pushed.0.1 clock pulled_ids peer
                  link w pushed.1 in
              let went : outcome ≡ ((pulled.0, pulled.1), pulled.2, pulled.3) =
                rw (exchange, q) refl in
              subst store (sym went) (
                pull_inbound-Moves d s apply client local_server batch_size pushed.0.1 clock
                  pulled_ids peer link w pushed.1 kept)
        ]

    pub connected_exchange-Moves :
        (t : MemoryStore) (pushed_ids pulled_ids : ℕ → Option Text) (peer : Peer) (link : Link)
        (w : W) (c : C)
        → Moves s t
        → Moves s
            (connected_exchange d enc kind_of events_after local_server batch_size apply client
              connect text_of clock t pushed_ids pulled_ids peer link w c).0.1
    unfolding connected_exchange
    connected_exchange-Moves t pushed_ids pulled_ids peer link w c m =
        let round = apply_pending_inbound_bundles apply t clock peer.id link.id batch_size w in
        let outcome =
          connected_exchange d enc kind_of events_after local_server batch_size apply client connect
            text_of clock t pushed_ids pulled_ids peer link w c in
        let store : Outcome (Unit {0}) × W × C → Type 0 = λ o. Moves s o.0.1 in
        let kept = apply_pending-Moves d s apply t clock peer.id link.id batch_size w m in
        elim (Result-cases round.0) [
          | inr (e, q) ↦
              let failed : outcome ≡ ((err e, round.1), round.2, c) =
                rw (connected_exchange, q) refl in
              subst store (sym failed) kept
          | inl (end, q) ↦
              let line = connect peer link c in
              elim (Result-cases line.0) [
                | inr (e, r) ↦
                    let failed : outcome ≡ ((err e, round.1), round.2, line.1) =
                      rw (connected_exchange, q, r) refl in
                    subst store (sym failed) kept
                | inl (u, r) ↦
                    let went : outcome
                        ≡ exchange d enc kind_of events_after local_server batch_size apply client
                            connect text_of clock round.1 pushed_ids pulled_ids peer link round.2
                            line.1 =
                      rw (connected_exchange, q, r) refl in
                    subst store (sym went)
                      (exchange-Moves round.1 pushed_ids pulled_ids peer link round.2 line.1 kept)
              ]
        ]
