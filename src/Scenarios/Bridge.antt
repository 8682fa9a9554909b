-- ===== src/Scenarios/Bridge.antt =====
-- Fragments over a radio link.
use zvonilka.Federation.BundleRows.{save_cursor, normalize_replication_cursor}
use zvonilka.Federation.LinkForm.{
  normalize_link, defaulted_link, normalize_values, sorted_values, insert_value,
}
use zvonilka.Federation.Store.{
  MemoryStore, peer_by_server_name, cursor_by_peer_and_link, link_by_id,
}
use zvonilka.Federation.Bridge.{
  candidate_error_text, bridge_link, peer_of_server_name, fragment_dedup_key, six_digits,
  link_by_peer_and_name, save_fragment, admitted_fragment,
}
use zvonilka.Federation.Replication.{
  Outcome, replication_cursor, acknowledge_bundles, allowed_acknowledgement, authorized_link,
  record_acknowledgement, settle_each, then_healthy,
}
use zvonilka.Base.{
  codes, some, ok, [], ◌∷◌, pos, ◌≡◌, refl, ℕ, List, trim_space, ◌⊎◌, Option, trim_left, ◌<◌, Text,
  trim_right, decimal, is_space, text_eq, trim_lower, to_lower,
}
use zvonilka.Scenarios.Moderation.{given}
use zvonilka.Base.Dict
use zvonilka.Base.Dict.{Dict}
use zvonilka.Scenarios.Replication.{flat, beta, mesh, parcel, start}
use zvonilka.Federation.Params.{SaveFragmentParams}
use zvonilka.Federation.Submissions.Keyed.{Keeps, IsKeyed}
use zvonilka.Federation.Models.{
  Bundle, BundleFragment, Link, TransportKind, BundleDirection, ReplicationCursor, CompressionKind,
  FragmentState,
}
use zvonilka.Federation.Replication.{replication_cursor, Outcome}
use zvonilka.Federation.Fragments.{
  split_payload, split_from, assembled_payload, all_fragments_acknowledged,
}
use zvonilka.Federation.FragmentRows.{
  fragments_by_bundle, normalize_fragment, defaulted_fragment, fragment_of_dedup, stands_before,
  over_or_put, save_fragment_row, save_over,
}
use zvonilka.Federation.Parts.{ensure_outbound_fragments, save_parts, part_limit}
use zvonilka.Federation.Pulls.{
  acknowledge_bridge_fragments, acknowledgement_link, acknowledge_on, ready_bundles,
  acknowledge_ready,
}
use zvonilka.Federation.Bridge.{bridge_link, candidate_error_text}
use zvonilka.Federation.Submissions.{submit_bridge_fragments}
use zvonilka.Federation.Leases.{
  fragments, sort_by, acknowledge_fragments, acknowledge_each, is_selected, acknowledged_by,
  insert_by,
}
use zvonilka.Federation.Bundles.{first_cursor, cursor_or_first}
use zvonilka.Federation.Parts.Whole.{AreParts, ensure_outbound_fragments-whole}
use zvonilka.Federation.Pulls.Ready.{SomeOf, IsEnd, acknowledge_bridge_fragments-ready}
use zvonilka.Federation.Submissions.Outcomes.{submit_bridge_fragments-settled}
use zvonilka.Federation.Submissions.Settled.{AreFresh}
use zvonilka.Federation.Links.{authorize_link_for_peer, mark_link_healthy, save_link}

abbrev radio : Link
radio = record mesh { transport_kind = TransportKind.meshtastic }

-- A fragment of a bundle of one part, which was assembled already.
abbrev old : BundleFragment
old = record {
  id = codes "f";
  peer_id = codes "p";
  link_id = codes "l";
  bundle_id = codes "a";
  dedup_key = codes "d";
  direction = BundleDirection.inbound;
  cursor_from = 1;
  cursor_to = 2;
  event_count = pos 2;
  payload_type = codes "e";
  compression = CompressionKind.none;
  integrity_hash = codes "h";
  auth_tag = codes "t";
  fragment_index = pos 0;
  fragment_count = pos 1;
  payload = codes "xy";
  state = FragmentState.assembled;
  lease_token = [];
  lease_expires_at = 0;
  attempt_count = pos 0;
  created_at = 10;
  available_at = 10;
  acked_at = 10;
}

-- A fragment that the radio has under a lease.
abbrev leased_part : BundleFragment
leased_part = record old {
  id = codes "g";
  bundle_id = codes "c";
  dedup_key = codes "q";
  direction = BundleDirection.outbound;
  state = FragmentState.claimed;
  lease_token = codes "t";
  lease_expires_at = 50;
  acked_at = 0;
}

abbrev on_air : MemoryStore
on_air = record start {
  links_by_id = (codes "l", radio) ∷ [];
  fragments_by_id = (codes "f", old) ∷ (codes "g", leased_part) ∷ [];
  fragment_ids_by_dedup = (codes "d", codes "f") ∷ (codes "q", codes "g") ∷ [];
}

abbrev outgoing : Bundle
outgoing = record parcel {
  direction = BundleDirection.outbound;
  payload = codes "xyz";
  integrity_hash = codes "h";
  auth_tag = codes "t";
}

abbrev part_id : ℕ → Option Text
part_id n = some (decimal n)

abbrev cut : Outcome (List BundleFragment)
cut = ensure_outbound_fragments on_air 20 part_id radio outgoing

abbrev cut_parts : List BundleFragment
cut_parts = given [] cut.0

cut_done : cut ≡ (ok cut_parts, cut.1)
unfolding ensure_outbound_fragments save_parts split_payload split_from fragment_dedup_key
    six_digits decimal part_limit fragments_by_bundle sort_by fragments text_eq save_fragment
    admitted_fragment trim_space link_by_id Dict.get normalize_fragment Dict.put to_lower trim_lower
    is_space trim_left trim_right defaulted_fragment fragment_of_dedup over_or_put save_fragment_row
    save_over stands_before insert_by
cut_done = refl

uncut : fragments_by_bundle on_air (codes "b") BundleDirection.outbound ≡ []
unfolding fragments_by_bundle fragments sort_by text_eq
uncut = refl

ensure_outbound_fragments-whole_example :
    AreParts 2 0 (codes "xy" ∷ codes "z" ∷ []) cut_parts
    × (assembled_payload cut_parts ≡ codes "xyz")
unfolding split_payload split_from part_limit
ensure_outbound_fragments-whole_example =
    ensure_outbound_fragments-whole on_air cut.1 20 part_id radio outgoing cut_parts uncut cut_done

-- A second part for the bundle that was assembled.
abbrev late : SaveFragmentParams
late = record {
  peer_id = [];
  link_id = [];
  bundle_id = codes "a";
  dedup_key = codes "n";
  direction = BundleDirection.inbound;
  cursor_from = 1;
  cursor_to = 2;
  event_count = pos 2;
  payload_type = codes "e";
  compression = CompressionKind.none;
  integrity_hash = codes "h";
  auth_tag = codes "t";
  fragment_index = pos 0;
  fragment_count = pos 1;
  payload = codes "zz";
  available_at = 0;
}

-- The first part of another bundle.
abbrev early : SaveFragmentParams
early = record late { bundle_id = codes "b"; dedup_key = codes "m"; fragment_count = pos 2 }

abbrev submitted : List (SaveFragmentParams × Option Text)
submitted = (early, some (codes "r")) ∷ (late, some (codes "s")) ∷ []

fresh : AreFresh on_air submitted
unfolding Dict.get trim_space trim_left trim_right is_space text_eq
fresh = ((λ id h. cc), ((λ id h. cc), tt))

keyed : IsKeyed on_air.fragments_by_id
unfolding Dict.get trim_space trim_left trim_right is_space text_eq
keyed = (refl, refl, refl, (refl, refl, refl, tt))

submit_bridge_fragments-settled_example :
    Keeps on_air
      (submit_bridge_fragments flat candidate_error_text on_air 20
        (λ id. some id)
        (codes "beta")
        (codes "mesh")
        submitted).1
submit_bridge_fragments-settled_example =
    submit_bridge_fragments-settled on_air flat candidate_error_text 20 (λ id. some id)
      (codes "beta") (codes "mesh") submitted keyed fresh

abbrev heard : Outcome (List BundleFragment × ReplicationCursor)
heard =
    acknowledge_bridge_fragments on_air 30 (codes "beta") (codes "mesh") (codes "g" ∷ [])
      (codes "t") 0

abbrev heard_of : List BundleFragment × ReplicationCursor
heard_of = given ([], first_cursor [] []) heard.0

heard_done : heard ≡ (ok heard_of, heard.1)
unfolding acknowledge_bridge_fragments acknowledgement_link acknowledge_on acknowledge_fragments
    acknowledge_each is_selected acknowledged_by sort_by insert_by ready_bundles fragments_by_bundle
    fragments stands_before all_fragments_acknowledged acknowledge_ready acknowledge_bundles
    allowed_acknowledgement authorized_link record_acknowledgement settle_each save_cursor
    normalize_replication_cursor then_healthy mark_link_healthy save_link normalize_link
    defaulted_link normalize_values sorted_values insert_value Dict.put Dict.remove
    replication_cursor cursor_or_first cursor_by_peer_and_link bridge_link peer_of_server_name
    peer_by_server_name link_by_peer_and_name link_by_id authorize_link_for_peer Dict.get text_eq
    trim_space trim_lower to_lower trim_left trim_right is_space
heard_done = refl

radio_link : bridge_link on_air (codes "beta") (codes "mesh") ≡ ok (beta, radio)
unfolding bridge_link peer_of_server_name peer_by_server_name link_by_peer_and_name link_by_id
    authorize_link_for_peer Dict.get text_eq trim_space trim_lower to_lower trim_left trim_right
    is_space
radio_link = refl

first_one :
    replication_cursor on_air (codes "p") (codes "l") ≡ ok (first_cursor (codes "p") (codes "l"))
unfolding replication_cursor cursor_or_first cursor_by_peer_and_link trim_space trim_left trim_right
    is_space Dict.get text_eq
first_one = refl

acknowledge_bridge_fragments-ready_example :
    (heard_of.1.last_acked_cursor ≡ 0)
    ⊎ (0 < heard_of.1.last_acked_cursor)
      × SomeOf (IsEnd heard.1 heard_of.1.last_acked_cursor) heard_of.0
acknowledge_bridge_fragments-ready_example =
    acknowledge_bridge_fragments-ready on_air heard.1 30 (codes "beta") (codes "mesh")
      (codes "g" ∷ []) (codes "t") 0 beta radio (first_cursor (codes "p") (codes "l")) heard_of.1
      heard_of.0 radio_link first_one heard_done

-- The watermark did move, to the end of the bundle.
heard_mark : heard_of.1.last_acked_cursor ≡ 2
unfolding acknowledge_bridge_fragments acknowledgement_link acknowledge_on acknowledge_fragments
    acknowledge_each is_selected acknowledged_by sort_by insert_by ready_bundles fragments_by_bundle
    fragments stands_before all_fragments_acknowledged acknowledge_ready acknowledge_bundles
    allowed_acknowledgement authorized_link record_acknowledgement settle_each save_cursor
    normalize_replication_cursor then_healthy mark_link_healthy save_link normalize_link
    defaulted_link normalize_values sorted_values insert_value Dict.put Dict.remove
    replication_cursor cursor_or_first cursor_by_peer_and_link bridge_link peer_of_server_name
    peer_by_server_name link_by_peer_and_name link_by_id authorize_link_for_peer Dict.get text_eq
    trim_space trim_lower to_lower trim_left trim_right is_space
heard_mark = refl
