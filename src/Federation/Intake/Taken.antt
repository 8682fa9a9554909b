-- ===== src/Federation/Intake/Taken.antt =====
-- A pull acknowledges to the peer only what was applied.
use mathlib.Core.Path.{subst, sym}
use zvonilka.Federation.Worker.Ends.{apply_pending-end}
use zvonilka.Base.{
  refl, arith, ap, ◌∷◌, [], inl, inr, ok, err, ◌≡◌, ◌⊎◌, ◌≤◌, ℕ, List, Result, All, trim_space,
  Text, ℤ, Time, Option, Result-cases, Bool-cases, ltb,
}
use zvonilka.Federation.Models.{Bundle, Peer, Link, Error, ReplicationCursor}
use zvonilka.Federation.Store.{MemoryStore}
use zvonilka.Federation.Exchange.{last_cursor, Client}
use zvonilka.Federation.Bundles.{cursor_or_first}
use zvonilka.Federation.Security.{Digests}
use zvonilka.Federation.Intake.{
  take_in, pull_inbound, apply_received, all_pulled, apply_pending_inbound_bundles,
  push_inbound_bundles, replication_cursor, conflict, named_ids,
}
use zvonilka.Federation.Replication.Watermarks.{IsKept}
use zvonilka.Federation.Replication.Steps.{Steps, Step, Steps-Moves}

last_cursor-All : (m : ℕ) (bs : List Bundle) → last_cursor bs ≤ m → All (λ b. b.cursor_to ≤ m) bs
last_cursor-All m [] l = tt
last_cursor-All m (b ∷ bs) l = (ground arith, last_cursor-All m bs (ground arith))

-- All the bundles end at or before the inbound cursor of the link.
abbrev pub AllApplied : MemoryStore → Peer → Link → List Bundle → Type 0
AllApplied t peer link bs =
    All
      (λ b.
        b.cursor_to
        ≤ (cursor_or_first t (trim_space peer.id) (trim_space link.id)).last_inbound_cursor)
      bs

-- All was applied, or the outcome is an error with the client as it was.
abbrev pub IsTaken :
    {W C : Type 0}
    → Peer
    → Link
    → List Bundle
    → C
    → Result Error (Unit {0}) × MemoryStore × W × C
    → Type 0
IsTaken peer link pulled c (r, t, w, c') =
    AllApplied t peer link pulled ⊎ ((e : Error) × (r ≡ err e) × (c' ≡ c))

module _ {W C : Type 0} (apply : Bundle → W → Result Error (Unit {0}) × W) (client : Client C)
    (d : Digests) (local_server : Text) (batch_size : ℤ) where
  apply_received-IsTaken :
      (s : MemoryStore) (clock : Time) (peer : Peer) (link : Link) (pulled : List Bundle) (w : W)
      (c : C)
      → IsKept s
      → IsTaken peer link pulled c
          (apply_received apply client d local_server batch_size s clock peer link pulled w c)
  unfolding apply_received
  apply_received-IsTaken s clock peer link pulled w c k =
      let outcome =
        apply_received apply client d local_server batch_size s clock peer link pulled w c in
      let taken : Result Error (Unit {0}) × MemoryStore × W × C → Type 0 =
        IsTaken peer link pulled c in
      let round = apply_pending_inbound_bundles apply s clock peer.id link.id batch_size w in
      elim (Result-cases round.0) [
        | inr (e, q) ↦
            let failed : outcome ≡ (err e, round.1, round.2, c) = rw (apply_received, q) refl in
            subst taken (sym failed) (inr (e, refl, refl))
        | inl (end, q) ↦
            let run : round ≡ (ok end, round.1, round.2) = rw (← q) refl in
            let reached =
              apply_pending-end apply s round.1 clock peer.id link.id batch_size w round.2 end k
                run in
            elim (Bool-cases (ltb end (last_cursor pulled))) [
              | inl short ↦
                  let failed : outcome ≡ (err conflict, round.1, round.2, c) =
                    rw (apply_received, q, short) refl in
                  subst taken (sym failed) (inr (conflict, refl, refl))
              | inr whole ↦
                  let sent =
                    client.acknowledge local_server link.name (last_cursor pulled)
                      (named_ids pulled) c in
                  let done : outcome ≡ (sent.0, round.1, round.2, sent.1) =
                    rw (apply_received, q, whole) refl in
                  let mark : ℕ =
                    (cursor_or_first round.1 (trim_space peer.id)
                      (trim_space link.id)).last_inbound_cursor in
                  let below : last_cursor pulled ≤ mark = ground (arith, reached) in
                  subst taken (sym done) (inl (last_cursor-All mark pulled below))
            ]
      ]

  take_in-IsTaken :
      (s : MemoryStore) (clock : Time) (ids : ℕ → Option Text) (peer : Peer) (link : Link)
      (pulled : List Bundle) (w : W) (c : C)
      → IsKept s
      → IsTaken peer link pulled c
          (take_in apply client d local_server batch_size s clock ids peer link pulled w c)
  unfolding take_in
  take_in-IsTaken s clock ids peer link [] w c k = inl tt
  take_in-IsTaken s clock ids peer link (b ∷ bs) w c k =
      let outcome =
        take_in apply client d local_server batch_size s clock ids peer link (b ∷ bs) w c in
      let taken : Result Error (Unit {0}) × MemoryStore × W × C → Type 0 =
        IsTaken peer link (b ∷ bs) c in
      let given = all_pulled peer link ids 0 (b ∷ bs) in
      let received = push_inbound_bundles d s clock peer.id link.id given in
      let pushed : Steps d s received.1 =
        Steps.next Steps.here (Step.pushed clock peer.id link.id given refl) in
      elim (Result-cases received.0) [
        | inr (e, q) ↦
            let failed : outcome ≡ (err e, received.1, w, c) = rw (take_in, q) refl in
            subst taken (sym failed) (inr (e, refl, refl))
        | inl (accepted, q) ↦
            let went : outcome
                ≡ apply_received apply client d local_server batch_size received.1 clock peer link
                    (b ∷ bs) w c =
              rw (take_in, q) refl in
            subst taken (sym went) (
              apply_received-IsTaken received.1 clock peer link (b ∷ bs) w c
                (Steps-Moves k pushed).kept)
      ]

  -- A pull of bundles from a peer, when the client has given them: either every one of them ends at or
  -- before the inbound cursor of the link in the store after it, so that it was applied, or the pull
  -- fails and the client is left as it was after giving them, so that nothing was acknowledged to the
  -- peer.
  pub pull_inbound-IsTaken :
      (s : MemoryStore) (clock : Time) (ids : ℕ → Option Text) (peer : Peer) (link : Link)
      (cursor : ReplicationCursor) (pulled : List Bundle) (w : W) (c c' : C)
      → IsKept s
      → replication_cursor s peer.id link.id ≡ ok cursor
      → client.pull local_server link.name cursor.last_inbound_cursor batch_size c ≡ (ok pulled, c')
      → IsTaken peer link pulled c'
          (pull_inbound apply client d local_server batch_size s clock ids peer link w c)
  unfolding pull_inbound
  pull_inbound-IsTaken s clock ids peer link cursor pulled w c c' k q r =
      let outcome = pull_inbound apply client d local_server batch_size s clock ids peer link w c in
      let taken : Result Error (Unit {0}) × MemoryStore × W × C → Type 0 =
        IsTaken peer link pulled c' in
      let given : (client.pull local_server link.name cursor.last_inbound_cursor batch_size c).0
          ≡ ok pulled =
        ap (λ (o : Result Error (List Bundle) × C). o.0) r in
      let after : (client.pull local_server link.name cursor.last_inbound_cursor batch_size c).1
          ≡ c' =
        ap (λ (o : Result Error (List Bundle) × C). o.1) r in
      let went : outcome
          ≡ take_in apply client d local_server batch_size s clock ids peer link pulled w c' =
        rw (pull_inbound, q, given, after) refl in
      subst taken (sym went) (take_in-IsTaken s clock ids peer link pulled w c' k)
