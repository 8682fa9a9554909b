-- ===== src/Federation/Polling/Taking.antt =====
-- A pull from a peer lowers no watermark.
use mathlib.Core.Path.{subst, sym}
use zvonilka.Federation.Polling.Kept.{Moves-step}
use zvonilka.Federation.Replication.Steps.{Step}
use zvonilka.Federation.Replication.Watermarks.{Moves}
use zvonilka.Federation.Intake.{named_ids}
use zvonilka.Base.{
  refl, ok, err, [], ◌∷◌, ◌≡◌, inl, inr, Result, Time, Text, ℕ, ℤ, Result-cases, List, Option,
  Bool-cases, ltb,
}
use zvonilka.Federation.Security.{Digests}
use zvonilka.Federation.Store.{MemoryStore}
use zvonilka.Federation.Models.{Bundle, Error, Peer, Link, conflict}
use zvonilka.Federation.Worker.{
  apply_page, advance_applied, apply_pending_inbound_bundles, apply_each, pending_inbound,
}
use zvonilka.Federation.Exchange.{Client, last_cursor}
use zvonilka.Federation.Intake.{pull_inbound, take_in, apply_received, all_pulled}
use zvonilka.Federation.Replication.{
  advance_inbound_cursor, replication_cursor, push_inbound_bundles,
}

module _ (d : Digests) (s : MemoryStore) {W : Type 0}
    (apply : Bundle → W → Result Error (Unit {0}) × W) where
  advance_applied-Moves :
      (t : MemoryStore) (clock : Time) (peer_id link_id : Text) (reached : Result Error ℕ × W)
      → Moves s t
      → Moves s (advance_applied apply t clock peer_id link_id reached).1
  unfolding advance_applied
  advance_applied-Moves t clock peer_id link_id (err e, w) m = m
  advance_applied-Moves t clock peer_id link_id (ok end, w) m =
      elim (Result-cases (advance_inbound_cursor t clock peer_id link_id end)) [
        | inr (e, q) ↦ rw (advance_applied, q) m
        | inl ((cursor, u), q) ↦
            rw (advance_applied, q)
              (Moves-step d s t u m (Step.advanced clock peer_id link_id end cursor q))
      ]

  apply_page-Moves :
      (t : MemoryStore) (clock : Time) (peer_id link_id : Text) (applied : ℕ) (page : List Bundle)
      (w : W)
      → Moves s t
      → Moves s (apply_page apply t clock peer_id link_id applied page w).1
  unfolding apply_page
  apply_page-Moves t clock peer_id link_id applied [] w m = m
  apply_page-Moves t clock peer_id link_id applied (b ∷ bs) w m =
      advance_applied-Moves t clock peer_id link_id (apply_each apply applied (b ∷ bs) w) m

  pub apply_pending-Moves :
      (t : MemoryStore) (clock : Time) (peer_id link_id : Text) (batch_size : ℤ) (w : W)
      → Moves s t
      → Moves s (apply_pending_inbound_bundles apply t clock peer_id link_id batch_size w).1
  unfolding apply_pending_inbound_bundles
  apply_pending-Moves t clock peer_id link_id batch_size w m =
      elim (Result-cases (replication_cursor t peer_id link_id)) [
        | inr (e, q) ↦ rw (apply_pending_inbound_bundles, q) m
        | inl (c, q) ↦
            rw (apply_pending_inbound_bundles, q)
              (apply_page-Moves t clock peer_id link_id c.last_inbound_cursor
                (pending_inbound t peer_id link_id c batch_size) w m)
      ]

  module _ {C : Type 0} (client : Client C) (local_server : Text) (batch_size : ℤ) where
    apply_received-Moves :
        (t : MemoryStore) (clock : Time) (peer : Peer) (link : Link) (pulled : List Bundle) (w : W)
        (c : C)
        → Moves s t
        → Moves s
            (apply_received apply client d local_server batch_size t clock peer link pulled w c).1
    unfolding apply_received
    apply_received-Moves t clock peer link pulled w c m =
        let round = apply_pending_inbound_bundles apply t clock peer.id link.id batch_size w in
        let outcome =
          apply_received apply client d local_server batch_size t clock peer link pulled w c in
        let store : Result Error (Unit {0}) × MemoryStore × W × C → Type 0 = λ o. Moves s o.1 in
        let kept = apply_pending-Moves t clock peer.id link.id batch_size w m in
        elim (Result-cases round.0) [
          | inr (e, q) ↦
              let failed : outcome ≡ (err e, round.1, round.2, c) = rw (apply_received, q) refl in
              subst store (sym failed) kept
          | inl (end, q) ↦ elim (Bool-cases (ltb end (last_cursor pulled))) [
            | inl short ↦
                let failed : outcome ≡ (err conflict, round.1, round.2, c) =
                  rw (apply_received, q, short) refl in
                subst store (sym failed) kept
            | inr whole ↦
                let sent =
                  client.acknowledge local_server link.name (last_cursor pulled) (named_ids pulled)
                    c in
                let done : outcome ≡ (sent.0, round.1, round.2, sent.1) =
                  rw (apply_received, q, whole) refl in
                subst store (sym done) kept
          ]
        ]

    take_in-Moves :
        (t : MemoryStore) (clock : Time) (ids : ℕ → Option Text) (peer : Peer) (link : Link)
        (pulled : List Bundle) (w : W) (c : C)
        → Moves s t
        → Moves s
            (take_in apply client d local_server batch_size t clock ids peer link pulled w c).1
    unfolding take_in
    take_in-Moves t clock ids peer link [] w c m = m
    take_in-Moves t clock ids peer link (b ∷ bs) w c m =
        let given = all_pulled peer link ids 0 (b ∷ bs) in
        let received = push_inbound_bundles d t clock peer.id link.id given in
        let outcome =
          take_in apply client d local_server batch_size t clock ids peer link (b ∷ bs) w c in
        let store : Result Error (Unit {0}) × MemoryStore × W × C → Type 0 = λ o. Moves s o.1 in
        let kept = Moves-step d s t received.1 m (Step.pushed clock peer.id link.id given refl) in
        elim (Result-cases received.0) [
          | inr (e, q) ↦
              let failed : outcome ≡ (err e, received.1, w, c) = rw (take_in, q) refl in
              subst store (sym failed) kept
          | inl (accepted, q) ↦
              let went : outcome
                  ≡ apply_received apply client d local_server batch_size received.1 clock peer link
                      (b ∷ bs) w c =
                rw (take_in, q) refl in
              subst store (sym went)
                (apply_received-Moves received.1 clock peer link (b ∷ bs) w c kept)
        ]

    pub pull_inbound-Moves :
        (t : MemoryStore) (clock : Time) (ids : ℕ → Option Text) (peer : Peer) (link : Link) (w : W)
        (c : C)
        → Moves s t
        → Moves s (pull_inbound apply client d local_server batch_size t clock ids peer link w c).1
    unfolding pull_inbound
    pull_inbound-Moves t clock ids peer link w c m =
        let outcome =
          pull_inbound apply client d local_server batch_size t clock ids peer link w c in
        let store : Result Error (Unit {0}) × MemoryStore × W × C → Type 0 = λ o. Moves s o.1 in
        elim (Result-cases (replication_cursor t peer.id link.id)) [
          | inr (e, q) ↦
              let failed : outcome ≡ (err e, t, w, c) = rw (pull_inbound, q) refl in
              subst store (sym failed) m
          | inl (cursor, q) ↦
              let given =
                client.pull local_server link.name cursor.last_inbound_cursor batch_size c in
              elim (Result-cases given.0) [
                | inr (e, r) ↦
                    let failed : outcome ≡ (err e, t, w, given.1) = rw (pull_inbound, q, r) refl in
                    subst store (sym failed) m
                | inl (found, r) ↦
                    let went : outcome
                        ≡ take_in apply client d local_server batch_size t clock ids peer link found
                            w given.1 =
                      rw (pull_inbound, q, r) refl in
                    subst store (sym went) (take_in-Moves t clock ids peer link found w given.1 m)
              ]
        ]
