-- ===== src/Federation/Submissions.antt =====
-- internal/domain/federation/fragments.go: SubmitBridgeFragments. Its writes are not one transaction,
-- so that it also has the store after an error.
pub mod Keyed
pub mod Saves
pub mod Bundled
pub mod Settled
pub mod Outcomes
pub mod Cursors
pub mod Watermarks
use zvonilka.Base.{ok, [], ◌∷◌, Text, Time, List, Option, if◌then◌else◌, any, text_eq}
use zvonilka.Federation.Models.{Bundle, Error, BundleFragment, ReplicationCursor, BundleDirection}
use zvonilka.Federation.Replication.{Outcome, replication_cursor}
use zvonilka.Federation.Security.{Digests}
use zvonilka.Federation.Store.{MemoryStore}
use zvonilka.Federation.Params.{SaveFragmentParams}
use zvonilka.Federation.Bridge.{save_fragment, bridge_link, and_then}
use zvonilka.Federation.Assembled.{assemble_each}
use zvonilka.Federation.Parts.{with_first}

abbrev pub inbound_params : Text → Text → SaveFragmentParams → SaveFragmentParams
inbound_params peer_id link_id params = record params {
  peer_id = peer_id;
  link_id = link_id;
  direction = BundleDirection.inbound;
}

-- The first loop of SubmitBridgeFragments. An id is drawn for each fragment.
unfoldable pub save_each :
    MemoryStore
    → Time
    → Text
    → Text
    → List (SaveFragmentParams × Option Text)
    → Outcome (List BundleFragment)
save_each s now peer_id link_id [] = (ok [], s)
save_each s now peer_id link_id ((params, id) ∷ rest) =
    and_then (save_fragment s now id (inbound_params peer_id link_id params))
      (λ f s'. with_first f (save_each s' now peer_id link_id rest))

-- The bundles of the fragments, each once, in the order in which they come first. `seen` are those
-- before.
unfoldable pub bundle_ids_from : List Text → List BundleFragment → List Text
bundle_ids_from seen [] = []
bundle_ids_from seen (f ∷ fs) =
    let rest = bundle_ids_from (f.bundle_id ∷ seen) fs in
    if any (text_eq f.bundle_id) seen then bundle_ids_from seen fs else f.bundle_id ∷ rest

-- What follows the saves: `ids` are drawn for the bundles that are assembled.
unfoldable pub assemble_submitted :
    Digests
    → (Error → Text)
    → MemoryStore
    → Time
    → (Text → Option Text)
    → Text
    → Text
    → List BundleFragment
    → Outcome (List BundleFragment × List Bundle × ReplicationCursor)
assemble_submitted d text_of s now ids peer_id link_id accepted =
    and_then (assemble_each d text_of s now ids peer_id link_id (bundle_ids_from [] accepted))
      (λ bundles s'.
        and_then (replication_cursor s' peer_id link_id, s')
          (λ cursor s''. (ok (accepted, bundles, cursor), s'')))

unfoldable pub submit_bridge_fragments :
    Digests
    → (Error → Text)
    → MemoryStore
    → Time
    → (Text → Option Text)
    → Text
    → Text
    → List (SaveFragmentParams × Option Text)
    → Outcome (List BundleFragment × List Bundle × ReplicationCursor)
submit_bridge_fragments d text_of s now ids peer_server_name link_name given =
    and_then (bridge_link s peer_server_name link_name, s)
      (λ (peer, link) s'.
        and_then (save_each s' now peer.id link.id given)
          (λ accepted s''. assemble_submitted d text_of s'' now ids peer.id link.id accepted))
