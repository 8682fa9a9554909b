-- ===== src/Federation/Pulls.antt =====
-- internal/domain/federation/fragments.go: PullBridgeFragments and AcknowledgeBridgeFragments. Their
-- writes are not one transaction, so that they also have the store after an error.
pub mod Marks
pub mod Ready
pub mod Cursors
pub mod Watermarks
use zvonilka.Base.{
  ◌>>=◌, ◌>>◌, false, ok, [], ◌∷◌, Text, Time, List, ℤ, ℕ, Bool, Option, if◌then◌else◌, trim_space,
  is_positive, any, pos, text_eq, is_empty, Result, or_now, refuse_if, ◌+◌,
}
use zvonilka.Federation.Models.{
  Link, Bundle, Error, BundleFragment, ReplicationCursor, BundleDirection, Peer, invalid_input,
}
use zvonilka.Federation.Replication.{Outcome, replication_cursor, acknowledge_bundles}
use zvonilka.Federation.Store.{MemoryStore, Saved, drawn}
use zvonilka.Federation.Fragments.{all_fragments_acknowledged}
use zvonilka.Federation.Bridge.{bridge_link, and_then, as_outcome}
use zvonilka.Federation.FragmentRows.{fragments_by_bundle}
use zvonilka.Federation.Bundles.{raised}
use zvonilka.Federation.Leases.{
  AcknowledgeFragmentsParams, has_claimable_fragments, acknowledge_fragments, claim_fragments,
}
use zvonilka.Federation.Parts.{ensure_outbound_fragments}
use zvonilka.Federation.BundleReads.{bundles_after}

-- A claim under a lease of `ttl`, with its token where it got any fragments.
unfoldable pub claim_bridge_fragments :
    MemoryStore → Time → ℕ → Option Text → Text → Text → ℤ → Saved (List BundleFragment × Text)
claim_bridge_fragments s now ttl drawn_token peer_id link_id limit = do
  token ← drawn drawn_token
  (claimed, rows) ← claim_fragments s.fragments_by_id now (record {
    peer_id = peer_id;
    link_id = link_id;
    limit = limit;
    claimed_at = now;
    lease_token = token;
    lease_expires_at = now + ttl;
  })
  elim claimed [
    | [] ↦ ok (([], []), record s { fragments_by_id = rows })
    | f ∷ fs ↦ ok ((f ∷ fs, token), record s { fragments_by_id = rows })
  ]

-- The loop over the bundles. An id is drawn for each part of each bundle.
unfoldable pub ensure_each :
    MemoryStore → Time → (Text → ℕ → Option Text) → Link → List Bundle → Outcome (Unit {0})
ensure_each s now ids link [] = (ok tt, s)
ensure_each s now ids link (b ∷ bs) =
    and_then (ensure_outbound_fragments s now (ids b.id) link b)
      (λ fs s'. ensure_each s' now ids link bs)

abbrev pub fragment_limit : ℤ → ℤ
fragment_limit limit = if is_positive limit then limit else pos 256

-- The bundles that are not acknowledged yet are cut into fragments, and these are claimed.
unfoldable pub claim_again :
    MemoryStore
    → Time
    → ℕ
    → Option Text
    → (Text → ℕ → Option Text)
    → Peer
    → Link
    → ℤ
    → Outcome (List BundleFragment × Text)
claim_again s now ttl drawn_token ids peer link limit =
    and_then (replication_cursor s peer.id link.id, s)
      (λ cursor s'.
        and_then
          (ensure_each s' now ids link (
            bundles_after s' peer.id link.id BundleDirection.outbound cursor.last_acked_cursor
              limit))
          (λ u s''.
            as_outcome s'' (claim_bridge_fragments s'' now ttl drawn_token peer.id link.id limit)))

unfoldable pub claim_or_cut :
    MemoryStore
    → Time
    → ℕ
    → Option Text
    → Option Text
    → (Text → ℕ → Option Text)
    → Peer
    → Link
    → ℤ
    → Outcome (List BundleFragment × Text)
claim_or_cut s now ttl drawn_token second_token ids peer link limit =
    and_then (as_outcome s (claim_bridge_fragments s now ttl drawn_token peer.id link.id limit))
      (λ (claimed, token) s'. elim claimed [
        | [] ↦ claim_again s' now ttl second_token ids peer link limit
        | f ∷ fs ↦ (ok (f ∷ fs, token), s')
      ])

abbrev pub has_more : MemoryStore → Time → Peer → Link → List BundleFragment → Bool
has_more s now peer link [] = false
has_more s now peer link (f ∷ fs) =
    has_claimable_fragments s.fragments_by_id now peer.id link.id now

unfoldable pub pull_bridge_fragments :
    MemoryStore
    → Time
    → ℕ
    → Option Text
    → Option Text
    → (Text → ℕ → Option Text)
    → Text
    → Text
    → ℤ
    → Outcome (List BundleFragment × Link × ReplicationCursor × Bool × Text)
pull_bridge_fragments s now ttl drawn_token second_token ids peer_server_name link_name limit =
    and_then (bridge_link s peer_server_name link_name, s)
      (λ (peer, link) s'.
        and_then
          (claim_or_cut s' now ttl drawn_token second_token ids peer link (fragment_limit limit))
          (λ (claimed, token) s''.
            and_then (replication_cursor s'' peer.id link.id, s'')
              (λ cursor t.
                (ok (claimed, link, cursor, has_more t now peer link claimed, token), t))))

-- The loop over the updated fragments: the bundles all of whose fragments are acknowledged, and the
-- largest cursor at which one of them ends. `seen` are the bundles before.
unfoldable pub ready_bundles : MemoryStore → List Text → List BundleFragment → List Text × ℕ
ready_bundles s seen [] = ([], 0)
ready_bundles s seen (f ∷ fs) =
    let passed = ready_bundles s seen fs in
    let (ids, up_to) = ready_bundles s (f.bundle_id ∷ seen) fs in
    if any (text_eq f.bundle_id) seen
    then passed
    else if all_fragments_acknowledged (fragments_by_bundle s f.bundle_id BundleDirection.outbound)
    then (f.bundle_id ∷ ids, raised f.cursor_to up_to)
    else (ids, up_to)

unfoldable pub acknowledge_ready :
    MemoryStore
    → Time
    → Text
    → Text
    → Time
    → ReplicationCursor
    → List Text × ℕ
    → Outcome ReplicationCursor
acknowledge_ready s now peer_id link_id acknowledged_at cursor ([], up_to) = (ok cursor, s)
acknowledge_ready s now peer_id link_id acknowledged_at cursor (id ∷ ids, up_to) =
    acknowledge_bundles s now (record {
      peer_id = peer_id;
      link_id = link_id;
      up_to_cursor = up_to;
      bundle_ids = id ∷ ids;
      acknowledged_at = acknowledged_at;
    })

-- `if len(fragmentIDs) > 0 && leaseToken == ""`
abbrev pub lacks_token : List Text → Text → Bool
lacks_token [] token = false
lacks_token (id ∷ ids) token = is_empty (trim_space token)

unfoldable pub acknowledgement_link :
    MemoryStore → Text → Text → List Text → Text → Result Error (Peer × Link)
acknowledgement_link s peer_server_name link_name fragment_ids token = do
  (peer, link) ← bridge_link s peer_server_name link_name
  refuse_if (lacks_token fragment_ids token) invalid_input
  ok (peer, link)

unfoldable pub acknowledge_on :
    MemoryStore
    → Time
    → AcknowledgeFragmentsParams
    → Outcome (List BundleFragment × ReplicationCursor)
acknowledge_on s now params =
    let (updated, rows) = acknowledge_fragments s.fragments_by_id params in
    let s' = record s { fragments_by_id = rows } in
    and_then (replication_cursor s' params.peer_id params.link_id, s')
      (λ cursor t.
        and_then
          (acknowledge_ready t now params.peer_id params.link_id params.acknowledged_at cursor
            (ready_bundles t [] updated))
          (λ moved t'. (ok (updated, moved), t')))

unfoldable pub acknowledge_bridge_fragments :
    MemoryStore
    → Time
    → Text
    → Text
    → List Text
    → Text
    → Time
    → Outcome (List BundleFragment × ReplicationCursor)
acknowledge_bridge_fragments s now peer_server_name link_name fragment_ids token acknowledged_at =
    and_then (acknowledgement_link s peer_server_name link_name fragment_ids token, s)
      (λ (peer, link) s'. acknowledge_on s' now (record {
        peer_id = peer.id;
        link_id = link.id;
        fragment_ids = fragment_ids;
        lease_token = trim_space token;
        acknowledged_at = or_now acknowledged_at now;
      }))
