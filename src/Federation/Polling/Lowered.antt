-- ===== src/Federation/Polling/Lowered.antt =====
-- Whatever happens in a round of the worker, no watermark falls.
use mathlib.Core.Path.{subst, sym}
use zvonilka.Federation.Polling.Kept.{failed_on-Moves}
use zvonilka.Federation.Polling.Monotone.{process_bridge_link-Moves, connected_exchange-Moves}
use zvonilka.Federation.Replication.Watermarks.{Moves, Moves-same, IsKept}
use zvonilka.Federation.Replication.Writes.{Moves-healthy}
use zvonilka.Federation.Exchange.{is_replicable_link, is_replicable_peer, process_bridge_link}
use zvonilka.Federation.Replication.{Outcome}
use zvonilka.Federation.Replication.Outcomes.{and_then-Moves}
use zvonilka.Base.{
  Option, refl, [], ◌∷◌, ◌≡◌, inl, inr, Text, Result, ℕ, ℤ, List, Time, keep, Bool-cases,
}
use zvonilka.Federation.Security.{Digests}
use zvonilka.Federation.Batches.{Encoding}
use zvonilka.Federation.Models.{Error, Bundle, Peer, Link}
use zvonilka.Conversation.Events.{EventEnvelope}
use zvonilka.Federation.Exchange.{Client}
use zvonilka.Federation.Store.{MemoryStore}
use zvonilka.Federation.Polling.{
  process_once, process_peer_link, process_links, process_peers, list_links, list_peers,
  is_bridge_transport, failed_on, connected_exchange, then_healthy, and_then,
}

module _ {W C : Type 0} (d : Digests) (enc : Encoding) (kind_of : Text → Result Error Text)
    (events_after : ℕ → ℤ → Result Error (List EventEnvelope)) (local_server : Text)
    (batch_size : ℤ) (apply : Bundle → W → Result Error (Unit {0}) × W) (client : Client C)
    (connect : Peer → Link → C → Result Error (Unit {0}) × C) (text_of : Error → Text)
    (clock : Time) where
  module _ (s : MemoryStore) where
    process_peer_link-Moves :
        (t : MemoryStore) (pushed_ids pulled_ids : ℕ → Option Text) (peer : Peer) (link : Link)
        (w : W) (c : C)
        → Moves s t
        → Moves s
            (process_peer_link d enc kind_of events_after local_server batch_size apply client
              connect text_of clock t pushed_ids pulled_ids peer link w c).0.1
    unfolding process_peer_link
    process_peer_link-Moves t pushed_ids pulled_ids peer link w c m =
        let outcome =
          process_peer_link d enc kind_of events_after local_server batch_size apply client connect
            text_of clock t pushed_ids pulled_ids peer link w c in
        let store : Outcome (Unit {0}) × W × C → Type 0 = λ o. Moves s o.0.1 in
        elim (Bool-cases (is_bridge_transport link.transport_kind)) [
          | inl bridge ↦
              let crossed =
                process_bridge_link d enc kind_of events_after local_server batch_size apply t clock
                  pushed_ids peer link w in
              let went : outcome ≡ (failed_on text_of clock link crossed.0, crossed.1, c) =
                rw bridge refl in
              subst store (sym went) (
                failed_on-Moves s d text_of clock link crossed.0 (
                  process_bridge_link-Moves d enc kind_of events_after local_server batch_size apply
                    client connect text_of clock s t pushed_ids peer link w m))
          | inr direct ↦
              let met =
                connected_exchange d enc kind_of events_after local_server batch_size apply client
                  connect text_of clock t pushed_ids pulled_ids peer link w c in
              let close : Unit {0} → MemoryStore → Outcome (Unit {0}) =
                λ u v. then_healthy v clock link.id tt in
              let went : outcome
                  ≡ (and_then (failed_on text_of clock link met.0) close, met.1, met.2) =
                rw direct refl in
              subst store (sym went) (
                and_then-Moves s (failed_on text_of clock link met.0) close
                  (failed_on-Moves s d text_of clock link met.0 (
                    connected_exchange-Moves d enc kind_of events_after local_server batch_size
                      apply client connect text_of clock s t pushed_ids pulled_ids peer link w c m))
                  (λ u v n. Moves-healthy s v clock link.id tt n))
        ]

    process_links-Moves :
        (t : MemoryStore) (pushed_ids pulled_ids : Text → ℕ → Option Text) (peer : Peer)
        (links : List Link) (w : W) (c : C)
        → Moves s t
        → Moves s
            (process_links d enc kind_of events_after local_server batch_size apply client connect
              text_of clock t pushed_ids pulled_ids peer links w c).1
    unfolding process_links
    process_links-Moves t pushed_ids pulled_ids peer [] w c m = m
    process_links-Moves t pushed_ids pulled_ids peer (l ∷ ls) w c m =
        let one =
          process_peer_link d enc kind_of events_after local_server batch_size apply client connect
            text_of clock t (pushed_ids l.id) (pulled_ids l.id) peer l w c in
        process_links-Moves one.0.1 pushed_ids pulled_ids peer ls one.1 one.2
          (process_peer_link-Moves t (pushed_ids l.id) (pulled_ids l.id) peer l w c m)

    process_peers-Moves :
        (t : MemoryStore) (pushed_ids pulled_ids : Text → ℕ → Option Text) (peers : List Peer)
        (w : W) (c : C)
        → Moves s t
        → Moves s
            (process_peers d enc kind_of events_after local_server batch_size apply client connect
              text_of clock t pushed_ids pulled_ids peers w c).1
    unfolding process_peers
    process_peers-Moves t pushed_ids pulled_ids [] w c m = m
    process_peers-Moves t pushed_ids pulled_ids (p ∷ ps) w c m =
        let links = keep is_replicable_link (list_links t p.id) in
        let one =
          process_links d enc kind_of events_after local_server batch_size apply client connect
            text_of clock t pushed_ids pulled_ids p links w c in
        process_peers-Moves one.1 pushed_ids pulled_ids ps one.2 one.3
          (process_links-Moves t pushed_ids pulled_ids p links w c m)

  -- A round of the worker over all its peers and links, whatever the peers answer, whatever fails on
  -- the way and whatever the application of the bundles does: each cursor of the store is still there
  -- after it, with none of its watermarks lowered, and what was applied of a link is no more than what
  -- was received of it, if it was so at first.
  pub process_once-Moves :
      (s : MemoryStore) (pushed_ids pulled_ids : Text → ℕ → Option Text) (w : W) (c : C)
      → IsKept s
      → Moves s
          (process_once d enc kind_of events_after local_server batch_size apply client connect
            text_of clock s pushed_ids pulled_ids w c).1
  unfolding process_once
  process_once-Moves s pushed_ids pulled_ids w c k =
      process_peers-Moves s s pushed_ids pulled_ids (keep is_replicable_peer (list_peers s)) w c
        (Moves-same s s k refl)
