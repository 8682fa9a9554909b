-- ===== src/Federation/Replication/Steps.antt =====
-- The operations of the federation store as steps, and what no sequence of them does to a cursor.
use zvonilka.Base.{Text, Time, Option, ok, ℕ, List, ℤ, ◌≡◌, refl}
use zvonilka.Federation.Models.{Link, Peer, Bundle, BundleDirection, ReplicationCursor}
use zvonilka.Federation.Params.{SaveBundleParams, AcknowledgeBundlesParams}
use zvonilka.Federation.Store.{MemoryStore}
use zvonilka.Federation.Security.{Digests}
use zvonilka.Federation.Replication.Watermarks.{IsKept, Moves, Moves-same, Moves-trans}
use zvonilka.Federation.Replication.Writes.{save_bundle-Moves, save_link-cursors, save_peer-cursors}
use zvonilka.Federation.Replication.{
  advance_inbound_cursor, push_inbound_bundles, pull_outbound_bundles, acknowledge_bundles,
}
use zvonilka.Federation.Bundles.{queue_outbound_bundle, accept_inbound_bundle}
use zvonilka.Federation.Links.{save_link}
use zvonilka.Federation.Peers.{save_peer}
use zvonilka.Federation.Replication.Operations.{
  push-Moves, pull-Moves, advance-Moves, acknowledge-Moves,
}
use zvonilka.Federation.Submissions.{submit_bridge_fragments}
use zvonilka.Federation.Pulls.{pull_bridge_fragments, acknowledge_bridge_fragments}
use zvonilka.Federation.Submissions.Watermarks.{submit_bridge_fragments-Moves}
use zvonilka.Federation.Pulls.Cursors.{pull_bridge_fragments-Moves}
use zvonilka.Federation.Pulls.Watermarks.{acknowledge_bridge_fragments-Moves}
use zvonilka.Federation.Params.{SaveFragmentParams}
use zvonilka.Federation.Models.{Error}

-- One operation that writes the store, whether it succeeds or fails half-way: bundles are queued,
-- accepted, pushed, pulled and acknowledged, the cursor of those applied is advanced, a link or a peer
-- is saved, and fragments are submitted, pulled and acknowledged.
pub data Step (d : Digests) : MemoryStore → MemoryStore → Type 0 where
  queued :
      {s t : MemoryStore} (now : Time) (id : Option Text) (params : SaveBundleParams)
      (saved : Bundle)
      → queue_outbound_bundle d s now id params ≡ ok (saved, t)
      → Step d s t
  accepted :
      {s t : MemoryStore} (now : Time) (id : Option Text) (params : SaveBundleParams)
      (saved : Bundle)
      → accept_inbound_bundle d s now id params ≡ ok (saved, t)
      → Step d s t
  pushed :
      {s t : MemoryStore} (clock : Time) (peer_id link_id : Text)
      (given : List (SaveBundleParams × Option Text))
      → (push_inbound_bundles d s clock peer_id link_id given).1 ≡ t
      → Step d s t
  pulled :
      {s t : MemoryStore} (clock : Time) (peer_id link_id : Text) (after_cursor : ℕ) (limit : ℤ)
      → (pull_outbound_bundles s clock peer_id link_id after_cursor limit).1 ≡ t
      → Step d s t
  advanced :
      {s t : MemoryStore} (clock : Time) (peer_id link_id : Text) (up_to_cursor : ℕ)
      (saved : ReplicationCursor)
      → advance_inbound_cursor s clock peer_id link_id up_to_cursor ≡ ok (saved, t)
      → Step d s t
  acknowledged :
      {s t : MemoryStore} (clock : Time) (params : AcknowledgeBundlesParams)
      → (acknowledge_bundles s clock params).1 ≡ t
      → Step d s t
  link_saved :
      {s t : MemoryStore} (clock : Time) (given saved : Link)
      → save_link s clock given ≡ ok (saved, t)
      → Step d s t
  peer_saved :
      {s t : MemoryStore} (clock : Time) (given saved : Peer)
      → save_peer d s clock given ≡ ok (saved, t)
      → Step d s t
  fragments_submitted :
      {s t : MemoryStore} (text_of : Error → Text) (now : Time) (ids : Text → Option Text)
      (server link : Text) (given : List (SaveFragmentParams × Option Text))
      → (submit_bridge_fragments d text_of s now ids server link given).1 ≡ t
      → Step d s t
  fragments_pulled :
      {s t : MemoryStore} (now : Time) (ttl : ℕ) (first second : Option Text)
      (ids : Text → ℕ → Option Text) (server link : Text) (limit : ℤ)
      → (pull_bridge_fragments s now ttl first second ids server link limit).1 ≡ t
      → Step d s t
  fragments_acknowledged :
      {s t : MemoryStore} (now : Time) (server link : Text) (fragment_ids : List Text)
      (token : Text) (acknowledged_at : Time)
      → (acknowledge_bridge_fragments s now server link fragment_ids token acknowledged_at).1 ≡ t
      → Step d s t

pub data Steps (d : Digests) (s : MemoryStore) : MemoryStore → Type 0 where
  here : Steps d s s
  next : {t u : MemoryStore} → Steps d s t → Step d t u → Steps d s u

Step-Moves : {d : Digests} {s t : MemoryStore} → IsKept s → Step d s t → Moves s t
unfolding queue_outbound_bundle accept_inbound_bundle
Step-Moves {d} {s} {t} k (queued now id params saved h) =
    save_bundle-Moves d s t now id params BundleDirection.outbound saved k h
Step-Moves {d} {s} {t} k (accepted now id params saved h) =
    save_bundle-Moves d s t now id params BundleDirection.inbound saved k h
Step-Moves {d} {s} k (pushed clock peer_id link_id given h) =
    rw (← h) (push-Moves d s clock peer_id link_id given k)
Step-Moves {d} {s} k (pulled clock peer_id link_id after_cursor limit h) =
    rw (← h) (pull-Moves s clock peer_id link_id after_cursor limit k)
Step-Moves {d} {s} {t} k (advanced clock peer_id link_id up_to_cursor saved h) =
    advance-Moves s t clock peer_id link_id up_to_cursor saved k h
Step-Moves {d} {s} k (acknowledged clock params h) = rw (← h) (acknowledge-Moves s clock params k)
Step-Moves {d} {s} {t} k (link_saved clock given saved h) =
    Moves-same s t k (save_link-cursors s t clock given saved h)
Step-Moves {d} {s} {t} k (peer_saved clock given saved h) =
    Moves-same s t k (save_peer-cursors d s t clock given saved h)
Step-Moves {d} {s} k (fragments_submitted text_of now ids server link given h) =
    rw (← h) (submit_bridge_fragments-Moves d text_of s now ids server link given k)
Step-Moves {d} {s} k (fragments_pulled now ttl first second ids server link limit h) =
    rw (← h) (pull_bridge_fragments-Moves s now ttl first second ids server link limit k)
Step-Moves {d} {s} k (fragments_acknowledged now server link fragment_ids token acknowledged_at h) =
    rw (← h)
      (acknowledge_bridge_fragments-Moves s now server link fragment_ids token acknowledged_at k)

-- Any number of operations in any order, each of which succeeds or fails half-way: bundles queued,
-- accepted, pushed, pulled or acknowledged, the cursor of those applied advanced, links and peers saved,
-- and fragments submitted, pulled or acknowledged over a bridge. Each cursor of the store that they begin
-- at is still there at their end, with none of its watermarks lowered; and what was applied of a link is
-- at no time more than what was received of it, if it was so at first.
pub Steps-Moves : {d : Digests} {s t : MemoryStore} → IsKept s → Steps d s t → Moves s t
Steps-Moves {d} {s} k here = Moves-same s s k refl
Steps-Moves {d} {s} {t} k (next {t = m} st step) =
    let moved = Steps-Moves k st in Moves-trans s m t moved (Step-Moves moved.kept step)
