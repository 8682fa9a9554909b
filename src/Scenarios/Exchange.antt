-- ===== src/Scenarios/Exchange.antt =====
-- A pull of one bundle from a peer.
use zvonilka.Scenarios.Rounds.{coding}
use zvonilka.Federation.Polling.{
  process_once, process_peers, process_links, process_peer_link, connected_exchange, exchange,
  failed_on, list_peers, list_links, all_rows, sort_by_age, insert_by_age,
}
use zvonilka.Federation.Exchange.{
  is_replicable_peer, is_replicable_link, push_outbound, push_pending, pending_or_queued,
  queue_pending_outbound_events, queue_events,
}
use zvonilka.Federation.Models.{Error, Capability}
use zvonilka.Federation.Replication.Watermarks.{IsKept, Moves}
use zvonilka.Federation.Polling.Lowered.{process_once-Moves}
use zvonilka.Base.{
  none, ok, [], ◌∷◌, codes, some, pos, refl, ◌≡◌, ℕ, Result, trim_space, List, trim_left,
  trim_right, is_space, text_eq, trim_lower, to_lower, decimal,
}
use zvonilka.Federation.Bundles.{first_cursor}
use zvonilka.Federation.Worker.{
  apply_pending_inbound_bundles, pending_inbound, apply_page, apply_each, advance_applied,
}
use zvonilka.Federation.Replication.{
  replication_cursor, push_inbound_bundles, accept_each, then_healthy, advance_inbound_cursor,
  authorized_link,
}
use zvonilka.Federation.Links.{mark_link_healthy, save_link, authorize_link_for_peer}
use zvonilka.Federation.LinkForm.{
  normalize_link, defaulted_link, normalize_values, sorted_values, insert_value,
}
use zvonilka.Base.Dict
use zvonilka.Federation.Bundles.{
  cursor_or_first, accept_inbound_bundle, save_bundle, sealed_bundle, cursor_after, record_bundle,
  repeated_bundle,
}
use zvonilka.Federation.BundleRows.{
  save_cursor, normalize_replication_cursor, normalize_bundle, defaulted_bundle, kept_or_put,
  save_bundle_row,
}
use zvonilka.Federation.BundleReads.{bundles_after, bundles, sort_bundles, insert_bundle}
use zvonilka.Federation.Security.{
  peer_and_link, verify_bundle, bundle_auth_tag, signed_message, signed_fields,
}
use zvonilka.Federation.Store.{
  MemoryStore, link_by_id, peer_by_id, bundle_by_dedup_key, cursor_by_peer_and_link,
}
use zvonilka.Scenarios.Replication.{flat, beta, mesh, parcel, start, start-IsKept}
use zvonilka.Federation.Intake.{pull_inbound, take_in, apply_received, all_pulled}
use zvonilka.Federation.Models.{Bundle, Error}
use zvonilka.Federation.Exchange.{Client}
use zvonilka.Federation.Intake.Taken.{IsTaken, pull_inbound-IsTaken}

abbrev offered : Bundle
offered = record parcel { integrity_hash = codes "h"; auth_tag = codes "t" }

-- The peer offers one bundle, and its state is the cursors that were acknowledged to it.
abbrev remote : Client (List ℕ)
remote = record {
  push = λ server link bundles c. (ok tt, c);
  pull = λ server link mark limit c. (ok (offered ∷ []), c);
  acknowledge = λ server link mark ids c. (ok tt, mark ∷ c);
}

-- What is applied is put in front of a list.
abbrev keep_it : Bundle → List Bundle → Result Error (Unit {0}) × List Bundle
keep_it b w = (ok tt, b ∷ w)

abbrev pull_it : Result Error (Unit {0}) × MemoryStore × List Bundle × List ℕ
pull_it =
    pull_inbound keep_it remote flat (codes "alpha") (pos 5) start 20 (λ n. some (codes "b")) beta
      mesh [] []

unreceived :
    replication_cursor start (codes "p") (codes "l") ≡ ok (first_cursor (codes "p") (codes "l"))
unfolding replication_cursor cursor_or_first cursor_by_peer_and_link trim_space trim_left trim_right
    is_space Dict.get
unreceived = refl

pull_inbound-IsTaken_example : IsTaken beta mesh (offered ∷ []) [] pull_it
pull_inbound-IsTaken_example =
    pull_inbound-IsTaken keep_it remote flat (codes "alpha") (pos 5) start 20
      (λ n. some (codes "b")) beta mesh (first_cursor (codes "p") (codes "l")) (offered ∷ []) [] []
      [] start-IsKept unreceived refl

-- Its end was acknowledged to the peer.
pull_it_done : (pull_it.0 ≡ ok tt) × (pull_it.3 ≡ 2 ∷ [])
unfolding pull_inbound take_in apply_received all_pulled push_inbound_bundles accept_each
    then_healthy mark_link_healthy save_link normalize_link defaulted_link normalize_values
    sorted_values insert_value Dict.remove apply_pending_inbound_bundles trim_space trim_left
    trim_right is_space text_eq Dict.get Dict.put trim_lower to_lower replication_cursor
    pending_inbound apply_page apply_each advance_applied advance_inbound_cursor authorized_link
    authorize_link_for_peer link_by_id cursor_or_first cursor_by_peer_and_link save_cursor
    normalize_replication_cursor bundles_after bundles sort_bundles insert_bundle
    accept_inbound_bundle save_bundle normalize_bundle defaulted_bundle sealed_bundle peer_and_link
    peer_by_id verify_bundle bundle_auth_tag signed_message signed_fields decimal kept_or_put
    save_bundle_row cursor_after record_bundle repeated_bundle bundle_by_dedup_key
pull_it_done = (refl, refl)

abbrev online : MemoryStore
online = record start {
  peers_by_id = (codes "p", record beta { capabilities = Capability.event_replication ∷ [] }) ∷ [];
}

online-IsKept : IsKept online
unfolding Dict.get
online-IsKept = record { entry = λ key c h. cc }

abbrev round_it : List Error × MemoryStore × List Bundle × List ℕ
round_it =
    process_once flat coding (λ id. ok []) (λ mark limit. ok []) (codes "alpha") (pos 5) keep_it
      remote (λ peer link c. (ok tt, c)) (λ e. []) 20 online (λ link n. none)
      (λ link n. some (codes "b")) [] []

process_once-Moves_example : Moves online round_it.1
process_once-Moves_example =
    process_once-Moves flat coding (λ id. ok []) (λ mark limit. ok []) (codes "alpha") (pos 5)
      keep_it remote (λ peer link c. (ok tt, c)) (λ e. []) 20 online (λ link n. none)
      (λ link n. some (codes "b")) [] [] online-IsKept

-- The round went without an error, and took the bundle in.
round_it_done : (round_it.0 ≡ []) × (round_it.3 ≡ 2 ∷ [])
unfolding process_once process_peers process_links process_peer_link connected_exchange exchange
    failed_on list_peers list_links all_rows sort_by_age insert_by_age is_replicable_peer
    is_replicable_link push_outbound push_pending pending_or_queued queue_pending_outbound_events
    queue_events pull_inbound take_in apply_received all_pulled push_inbound_bundles accept_each
    then_healthy mark_link_healthy save_link normalize_link defaulted_link normalize_values
    sorted_values insert_value Dict.remove apply_pending_inbound_bundles trim_space trim_left
    trim_right is_space text_eq Dict.get Dict.put trim_lower to_lower replication_cursor
    pending_inbound apply_page apply_each advance_applied advance_inbound_cursor authorized_link
    authorize_link_for_peer link_by_id cursor_or_first cursor_by_peer_and_link save_cursor
    normalize_replication_cursor bundles_after bundles sort_bundles insert_bundle
    accept_inbound_bundle save_bundle normalize_bundle defaulted_bundle sealed_bundle peer_and_link
    peer_by_id verify_bundle bundle_auth_tag signed_message signed_fields decimal kept_or_put
    save_bundle_row cursor_after record_bundle repeated_bundle bundle_by_dedup_key
round_it_done = (refl, refl)
