-- ===== src/Federation/Worker/Once.antt =====
-- No bundle is handed to the worker again after a round that succeeds.
use zvonilka.Base.{
  Text, Time, ok, ℕ, Result, List, ℤ, All, trim_space, ◌<◌, ◌≡◌, ◌≤◌, All-map, Result-cases, arith,
  inr, inl,
}
use zvonilka.Federation.Models.{Error, Bundle, BundleDirection}
use zvonilka.Federation.Store.{MemoryStore}
use zvonilka.Federation.Security.{Digests}
use zvonilka.Federation.Bundles.{cursor_or_first}
use zvonilka.Federation.Replication.Watermarks.{IsKept, Moves}
use zvonilka.Federation.Replication.Steps.{Steps, Steps-Moves}
use zvonilka.Federation.Worker.{pending_inbound, apply_pending_inbound_bundles}
use zvonilka.Federation.Replication.{replication_cursor}
use zvonilka.Federation.Worker.Rounds.{bundles_after-lt, Moves-inbound, apply_page-reaches}

-- What the worker is handed of a link: after the cursor as it stands.
abbrev pub handed : MemoryStore → Text → Text → ℤ → List Bundle
handed s peer_id link_id batch_size =
    pending_inbound s peer_id link_id (cursor_or_first s (trim_space peer_id) (trim_space link_id))
      batch_size

-- Every bundle of the second page ends after every one of the first.
abbrev pub AllAfter : List Bundle → List Bundle → Type 0
AllAfter first second = All (λ b. All (λ c. c.cursor_to < b.cursor_to) first) second

module _ {W : Type 0} (apply : Bundle → W → Result Error (Unit {0}) × W) where
  apply_pending-reaches :
      (s t : MemoryStore) (clock : Time) (peer_id link_id : Text) (batch_size : ℤ) (w w' : W)
      (end : ℕ)
      → IsKept s
      → apply_pending_inbound_bundles apply s clock peer_id link_id batch_size w ≡ (ok end, t, w')
      → Moves s t
        × All
            (λ b.
              b.cursor_to
              ≤ (cursor_or_first t (trim_space peer_id) (trim_space link_id)).last_inbound_cursor)
            (handed s peer_id link_id batch_size)
  unfolding apply_pending_inbound_bundles
  apply_pending-reaches s t clock peer_id link_id batch_size w w' end k h =
      let current = cursor_or_first s (trim_space peer_id) (trim_space link_id) in
      elim (Result-cases (replication_cursor s peer_id link_id)) [
        | inr (e, q) ↦ let h' = rw (q, apply_pending_inbound_bundles) at h in cc
        | inl (c, q) ↦
            let same : c ≡ current = unfold replication_cursor in ground arith in
            let h' = rw (q, apply_pending_inbound_bundles, same) at h in
            apply_page-reaches apply s t clock peer_id link_id current.last_inbound_cursor
              (handed s peer_id link_id batch_size) w w' end k h'
      ]

  -- A round of the worker that succeeds, then any number of these operations in any order, each of which
  -- succeeds or fails half-way: bundles queued, accepted, pushed, pulled or acknowledged, the cursor of
  -- those applied advanced, links and peers saved, and fragments submitted, pulled or acknowledged over
  -- a bridge. Every bundle that the worker is handed for the link after them ends after every one that
  -- it was handed in the round, so that it is handed none of those again.
  pub apply_pending-AllAfter :
      (d : Digests) (s t u : MemoryStore) (clock : Time) (peer_id link_id : Text)
      (batch_size later_size : ℤ) (w w' : W) (end : ℕ)
      → IsKept s
      → apply_pending_inbound_bundles apply s clock peer_id link_id batch_size w ≡ (ok end, t, w')
      → Steps d t u
      → AllAfter (handed s peer_id link_id batch_size) (handed u peer_id link_id later_size)
  apply_pending-AllAfter d s t u clock peer_id link_id batch_size later_size w w' end k h steps =
      let peer = trim_space peer_id in
      let link = trim_space link_id in
      let (moved, reached) =
        apply_pending-reaches s t clock peer_id link_id batch_size w w' end k h in
      let rises = Moves-inbound t u peer link (Steps-Moves moved.kept steps) in
      let mark : ℕ = (cursor_or_first u peer link).last_inbound_cursor in
      All-map (λ b. mark < b.cursor_to)
        (λ b. All (λ c. c.cursor_to < b.cursor_to) (handed s peer_id link_id batch_size))
        (λ b p.
          All-map (λ c. c.cursor_to ≤ (cursor_or_first t peer link).last_inbound_cursor)
            (λ c. c.cursor_to < b.cursor_to) (λ c q. omega arith)
            (handed s peer_id link_id batch_size) reached)
        (handed u peer_id link_id later_size)
        (unfold pending_inbound in
          bundles_after-lt u peer link BundleDirection.inbound mark later_size)
