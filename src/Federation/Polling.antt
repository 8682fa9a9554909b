-- ===== src/Federation/Polling.antt =====
-- processOnce of internal/domain/federation/worker.go, with the lists of peers and links of service.go
-- and teststore/store.go. `W` is the state that bundles are applied to, and `C` that of the clients.
pub mod Kept
pub mod Taking
pub mod Monotone
pub mod Lowered
use zvonilka.Base.{
  ok, err, [], ◌∷◌, ◌++◌, Time, List, Text, Bool, if◌then◌else◌, Result, ◌==◌, keep, ℕ, text_eq,
  is_empty, ℤ, before, trim_space, some, ◌||◌, Option,
}
use zvonilka.Base.Dict.{Dict}
use zvonilka.Federation.Security.{Digests}
use zvonilka.Federation.Store.{MemoryStore}
use zvonilka.Federation.Models.{Error, Peer, Link, Bundle}
use zvonilka.Federation.Batches.{Encoding}
use zvonilka.Federation.Replication.{Outcome, then_healthy}
use zvonilka.Notification.Routing.{text_lt}
use zvonilka.Federation.Links.{mark_link_failed}
use zvonilka.Conversation.Events.{EventEnvelope}
use zvonilka.Federation.Exchange.{
  Client, push_outbound, is_replicable_link, is_replicable_peer, process_bridge_link,
}
use zvonilka.Federation.Worker.{apply_pending_inbound_bundles}
use zvonilka.Federation.Fragments.{is_bridge_transport}
use zvonilka.Federation.Intake.{pull_inbound}
use zvonilka.Federation.Bridge.{and_then}

module _ {A : Type 0} (created_at : A → Time) (id : A → Text) where
  -- The creation, then the id.
  abbrev older : A → A → Bool
  older a b =
      if created_at a == created_at b
      then text_lt (id a) (id b)
      else before (created_at a) (created_at b)

  unfoldable pub insert_by_age : A → List A → List A
  insert_by_age a [] = a ∷ []
  insert_by_age a (b ∷ bs) =
      let rest = insert_by_age a bs in if older b a then b ∷ rest else a ∷ b ∷ bs

  -- sort.Slice
  unfoldable pub sort_by_age : List A → List A
  sort_by_age [] = []
  sort_by_age (a ∷ as') = insert_by_age a (sort_by_age as')

unfoldable pub all_rows : {A : Type 0} → Dict A → List A
all_rows [] = []
all_rows ((id, a) ∷ m) = a ∷ all_rows m

-- ListPeers without a state.
unfoldable pub list_peers : MemoryStore → List Peer
list_peers s =
    sort_by_age (λ (p : Peer). p.created_at) (λ (p : Peer). p.id) (all_rows s.peers_by_id)

-- ListLinks of a peer, in every state.
unfoldable pub list_links : MemoryStore → Text → List Link
list_links s peer_id =
    sort_by_age (λ (l : Link). l.created_at) (λ (l : Link). l.id)
      (keep (λ (l : Link). is_empty (trim_space peer_id) || text_eq l.peer_id (trim_space peer_id))
        (all_rows s.links_by_id))

-- An error is written into its link, unless that fails.
unfoldable pub failed_on : (Error → Text) → Time → Link → Outcome (Unit {0}) → Outcome (Unit {0})
failed_on text_of clock link (ok u, s) = (ok u, s)
failed_on text_of clock link (err e, s) =
    elim (mark_link_failed s clock link.id (some (text_of e))) [
      | ok (saved, t) ↦ (err e, t)
      | err e' ↦ (err e, s)
    ]

module _ {W C : Type 0} (d : Digests) (enc : Encoding) (kind_of : Text → Result Error Text)
    (events_after : ℕ → ℤ → Result Error (List EventEnvelope)) (local_server : Text)
    (batch_size : ℤ) (apply : Bundle → W → Result Error (Unit {0}) × W) (client : Client C)
    (connect : Peer → Link → C → Result Error (Unit {0}) × C) (text_of : Error → Text)
    (clock : Time) where
  -- `pushed_ids` are drawn for what is queued, `pulled_ids` for what is taken in.
  unfoldable pub exchange :
      MemoryStore
      → (ℕ → Option Text)
      → (ℕ → Option Text)
      → Peer
      → Link
      → W
      → C
      → Outcome (Unit {0}) × W × C
  exchange s pushed_ids pulled_ids peer link w c =
      let ((pushed, s'), c') =
        push_outbound d enc kind_of events_after local_server batch_size client s clock pushed_ids
          peer link c in
      elim pushed [
        | err e ↦ ((err e, s'), w, c')
        | ok u ↦
            let (pulled, s'', w', c'') =
              pull_inbound apply client d local_server batch_size s' clock pulled_ids peer link w
                c' in
            ((pulled, s''), w', c'')
      ]

  unfoldable pub connected_exchange :
      MemoryStore
      → (ℕ → Option Text)
      → (ℕ → Option Text)
      → Peer
      → Link
      → W
      → C
      → Outcome (Unit {0}) × W × C
  connected_exchange s pushed_ids pulled_ids peer link w c =
      let (applied, s', w') =
        apply_pending_inbound_bundles apply s clock peer.id link.id batch_size w in
      elim applied [
        | err e ↦ ((err e, s'), w', c)
        | ok end ↦
            let (connection, c') = connect peer link c in
            elim connection [
              | err e ↦ ((err e, s'), w', c')
              | ok u ↦ exchange s' pushed_ids pulled_ids peer link w' c'
            ]
      ]

  -- After the exchange the link is healthy; an error of that is not written into the link.
  unfoldable pub process_peer_link :
      MemoryStore
      → (ℕ → Option Text)
      → (ℕ → Option Text)
      → Peer
      → Link
      → W
      → C
      → Outcome (Unit {0}) × W × C
  process_peer_link s pushed_ids pulled_ids peer link w c =
      if is_bridge_transport link.transport_kind
      then (let (outcome, w') =
            process_bridge_link d enc kind_of events_after local_server batch_size apply s clock
              pushed_ids peer link w in
          (failed_on text_of clock link outcome, w', c))
      else (let (outcome, w', c') = connected_exchange s pushed_ids pulled_ids peer link w c in
          (
            and_then (failed_on text_of clock link outcome)
                (λ u t. then_healthy t clock link.id tt),
            w',
            c',
          ))

  abbrev with_error : Result Error (Unit {0}) → List Error → List Error
  with_error (ok u) errors = errors
  with_error (err e) errors = e ∷ errors

  -- The links of one peer, as they were listed. The ids are drawn for each link.
  unfoldable pub process_links :
      MemoryStore
      → (Text → ℕ → Option Text)
      → (Text → ℕ → Option Text)
      → Peer
      → List Link
      → W
      → C
      → List Error × MemoryStore × W × C
  process_links s pushed_ids pulled_ids peer [] w c = ([], s, w, c)
  process_links s pushed_ids pulled_ids peer (l ∷ ls) w c =
      let ((outcome, s'), w', c') =
        process_peer_link s (pushed_ids l.id) (pulled_ids l.id) peer l w c in
      let (errors, t, w'', c'') = process_links s' pushed_ids pulled_ids peer ls w' c' in
      (with_error outcome errors, t, w'', c'')

  unfoldable pub process_peers :
      MemoryStore
      → (Text → ℕ → Option Text)
      → (Text → ℕ → Option Text)
      → List Peer
      → W
      → C
      → List Error × MemoryStore × W × C
  process_peers s pushed_ids pulled_ids [] w c = ([], s, w, c)
  process_peers s pushed_ids pulled_ids (p ∷ ps) w c =
      let (errors, s', w', c') =
        process_links s pushed_ids pulled_ids p (keep is_replicable_link (list_links s p.id)) w c in
      let (more, t, w'', c'') = process_peers s' pushed_ids pulled_ids ps w' c' in
      (errors ++ more, t, w'', c'')

  -- The errors of a round, in their order.
  unfoldable pub process_once :
      MemoryStore
      → (Text → ℕ → Option Text)
      → (Text → ℕ → Option Text)
      → W
      → C
      → List Error × MemoryStore × W × C
  process_once s pushed_ids pulled_ids w c =
      process_peers s pushed_ids pulled_ids (keep is_replicable_peer (list_peers s)) w c
