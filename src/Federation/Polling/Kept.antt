-- ===== src/Federation/Polling/Kept.antt =====
-- What the worker's operations do to the cursors of the links.
use zvonilka.Federation.Links.{mark_link_failed, degraded_of_active, save_link}
use zvonilka.Federation.Bundles.{queue_outbound_bundle}
use zvonilka.Federation.Models.{BundleDirection}
use zvonilka.Federation.Store.{link_by_id}
use zvonilka.Federation.Replication.Steps.{Step, Steps, Steps-Moves}
use zvonilka.Federation.Replication.Outcomes.{and_then-Moves, as_outcome-Moves, with_first-Moves}
use zvonilka.Base.{
  ok, err, [], ◌∷◌, inl, inr, List, Text, Result, ℕ, ℤ, Time, Option, suc, trim_space, Result-cases,
}
use zvonilka.Federation.Replication.Watermarks.{Moves-trans, Moves}
use zvonilka.Federation.Security.{Digests}
use zvonilka.Federation.Store.{MemoryStore}
use zvonilka.Federation.Batches.{Encoding, build_outbound_bundles}
use zvonilka.Federation.Polling.{failed_on, Error, EventEnvelope, Peer, Link, Bundle}
use zvonilka.Federation.Replication.{Outcome, replication_cursor}
use zvonilka.Federation.Bridge.{as_outcome}
use zvonilka.Federation.Parts.{with_first}
use zvonilka.Federation.Exchange.{
  queue_pending_outbound_events, queue_each, pending_or_queued, queue_events, keyed_params,
  or_queued,
}
use zvonilka.Federation.Params.{SaveBundleParams}
use zvonilka.Federation.Models.{ReplicationCursor}
use zvonilka.Federation.BundleReads.{bundles_after}

-- One operation more.
pub Moves-step : (d : Digests) (s t u : MemoryStore) → Moves s t → Step d t u → Moves s u
Moves-step d s t u m step = Moves-trans s t u m (Steps-Moves m.kept (Steps.next Steps.here step))

module _ (s : MemoryStore) where
  pub failed_on-Moves :
      (d : Digests) (text_of : Error → Text) (clock : Time) (link : Link) (o : Outcome (Unit {0}))
      → Moves s o.1
      → Moves s (failed_on text_of clock link o).1
  unfolding failed_on mark_link_failed
  failed_on-Moves d text_of clock link (ok u, t) m = m
  failed_on-Moves d text_of clock link (err e, t) m = elim (Result-cases (link_by_id t link.id)) [
    | inr (x, q) ↦ rw (failed_on, mark_link_failed, q) m
    | inl (found, q) ↦
        let next = record found {
          last_error = trim_space (text_of e);
          state = degraded_of_active found.state;
          updated_at = clock;
        } in
        elim (Result-cases (save_link t clock next)) [
          | inr (x, r) ↦ rw (failed_on, mark_link_failed, q, r) m
          | inl ((saved, u), r) ↦
              rw (failed_on, mark_link_failed, q, r)
                (Moves-step d s t u m (Step.link_saved clock next saved r))
        ]
  ]

  module _ (d : Digests) (enc : Encoding) (kind_of : Text → Result Error Text)
      (events_after : ℕ → ℤ → Result Error (List EventEnvelope)) (local_server : Text)
      (batch_size : ℤ) where
    queue_each-Moves :
        (t : MemoryStore) (clock : Time) (ids : ℕ → Option Text) (peer : Peer) (link : Link)
        (index : ℕ) (params : List SaveBundleParams)
        → Moves s t
        → Moves s
            (queue_each d enc kind_of events_after local_server batch_size t clock ids peer link
              index params).1
    unfolding queue_each
    queue_each-Moves t clock ids peer link index [] m = m
    queue_each-Moves t clock ids peer link index (p ∷ ps) m =
        let own = keyed_params local_server peer link p in
        let later : MemoryStore → Outcome (List Bundle) = λ u.
          queue_each d enc kind_of events_after local_server batch_size u clock ids peer link
            (suc index) ps in
        and_then-Moves s (as_outcome t (queue_outbound_bundle d t clock (ids index) own))
          (λ b u. with_first b (later u))
          (as_outcome-Moves s t (queue_outbound_bundle d t clock (ids index) own) m
            (λ b u q. Moves-step d s t u m (Step.queued clock (ids index) own b q)))
          (λ b u n.
            with_first-Moves s b (later u)
              (queue_each-Moves u clock ids peer link (suc index) ps n))

    queue_events-Moves :
        (t : MemoryStore) (clock : Time) (ids : ℕ → Option Text) (peer : Peer) (link : Link)
        (events : List EventEnvelope)
        → Moves s t
        → Moves s
            (queue_events d enc kind_of events_after local_server batch_size t clock ids peer link
              events).1
    unfolding queue_events
    queue_events-Moves t clock ids peer link [] m = m
    queue_events-Moves t clock ids peer link (e ∷ es) m =
        and_then-Moves s (build_outbound_bundles enc kind_of peer link (e ∷ es), t)
          (λ params u.
            queue_each d enc kind_of events_after local_server batch_size u clock ids peer link 0
              params)
          m (λ params u n. queue_each-Moves u clock ids peer link 0 params n)

    or_queued-Moves :
        (t : MemoryStore) (clock : Time) (ids : ℕ → Option Text) (peer : Peer) (link : Link)
        (mark : ℕ) (pending : List Bundle)
        → Moves s t
        → Moves s
            (or_queued d enc kind_of events_after local_server batch_size t clock ids peer link mark
              pending).1
    unfolding queue_pending_outbound_events
    or_queued-Moves t clock ids peer link mark [] m =
        and_then-Moves s (events_after mark batch_size, t)
          (λ events u.
            queue_events d enc kind_of events_after local_server batch_size u clock ids peer link
              events)
          m (λ events u n. queue_events-Moves u clock ids peer link events n)
    or_queued-Moves t clock ids peer link mark (b ∷ bs) m = m

    pub pending_or_queued-Moves :
        (t : MemoryStore) (clock : Time) (ids : ℕ → Option Text) (peer : Peer) (link : Link)
        (limit : ℤ)
        → Moves s t
        → Moves s
            (pending_or_queued d enc kind_of events_after local_server batch_size t clock ids peer
              link limit).1
    unfolding pending_or_queued
    pending_or_queued-Moves t clock ids peer link limit m =
        let found : ReplicationCursor → MemoryStore → List Bundle = λ c u.
          bundles_after u (trim_space peer.id) (trim_space link.id) BundleDirection.outbound
            c.last_acked_cursor limit in
        and_then-Moves s (replication_cursor t peer.id link.id, t)
          (λ c u.
            or_queued d enc kind_of events_after local_server batch_size u clock ids peer link
              c.last_outbound_cursor (found c u))
          m (λ c u n. or_queued-Moves u clock ids peer link c.last_outbound_cursor (found c u) n)
