-- ===== src/Scenarios/Replication.antt =====
-- Two servers, a link and a few bundles.
use zvonilka.Base.{
  codes, true, false, some, ok, err, [], ◌∷◌, pos, trim_lower, trim_lower_idem, ◌≡◌, is_empty,
  trim_space, refl, trim_left, to_lower, trim_right, is_space, has_code, ◌≢◌, decimal, text_eq,
}
use zvonilka.Base.Dict
use zvonilka.Federation.Models.{
  Peer, PeerState, Link, LinkState, TransportKind, DeliveryClass, DiscoveryMode, MediaPolicy,
  Bundle, BundleState, BundleDirection, CompressionKind, unauthorized,
}
use zvonilka.Federation.Params.{SaveBundleParams}
use zvonilka.Federation.Store.{
  MemoryStore, link_by_id, peer_by_id, bundle_by_dedup_key, cursor_by_peer_and_link,
}
use zvonilka.Federation.Security.{
  Digests, IsHex, sign_bundle, verify_bundle, bundle_auth_tag, signed_message, signed_fields,
  peer_and_link,
}
use zvonilka.Federation.Security.Tags.{
  verify_bundle-sign_bundle, verify_bundle-other_name, message_of,
}
use zvonilka.Federation.Peers.{rotated_peer}
use zvonilka.Scenarios.Moderation.{given}
use zvonilka.Federation.Replication.Watermarks.{IsKept}
use zvonilka.Federation.Bundles.{
  accept_inbound_bundle, save_bundle, sealed_bundle, cursor_after, cursor_or_first, record_bundle,
  repeated_bundle,
}
use zvonilka.Federation.Bundles.Again.{accept_inbound_bundle-again}
use zvonilka.Federation.BundleRows.{
  normalize_bundle, defaulted_bundle, kept_or_put, normalize_replication_cursor, save_bundle_row,
  save_cursor,
}

-- The digests of an example: the text itself.
abbrev pub plain : Digests
plain = record { sha256_hex = trim_lower; hmac_hex = λ key message. trim_lower message }

pub plain-IsHex : IsHex plain
plain-IsHex = record { sha256 = trim_lower_idem; hmac = λ key message. trim_lower_idem message }

-- Digests that do not look at the text.
abbrev pub flat : Digests
flat = record { sha256_hex = λ payload. codes "h"; hmac_hex = λ key message. codes "t" }

pub flat-IsHex : IsHex flat
unfolding trim_lower to_lower trim_space trim_left trim_right is_space
flat-IsHex = record { sha256 = λ payload. refl; hmac = λ key message. refl }

abbrev pub beta : Peer
beta = record {
  id = codes "p";
  server_name = codes "beta";
  base_url = [];
  capabilities = [];
  trusted = true;
  state = PeerState.active;
  verification_fingerprint = [];
  shared_secret = codes "s";
  shared_secret_hash = codes "s";
  signing_fingerprint = codes "k";
  signing_secret = codes "k";
  previous_signing_secret = [];
  signing_key_version = 1;
  created_at = 5;
  updated_at = 5;
  last_seen_at = 0;
}

abbrev pub alpha : Peer
alpha = record beta { server_name = codes "alpha" }

abbrev pub mesh : Link
mesh = record {
  id = codes "l";
  peer_id = codes "p";
  name = codes "mesh";
  endpoint = [];
  transport_kind = TransportKind.https;
  delivery_class = DeliveryClass.realtime;
  discovery_mode = DiscoveryMode.manual;
  media_policy = MediaPolicy.disabled;
  state = LinkState.active;
  max_bundle_bytes = pos 3;
  max_fragment_bytes = pos 2;
  allowed_conversation_kinds = [];
  allowed_event_families = [];
  allowed_message_kinds = [];
  created_at = 5;
  updated_at = 5;
  last_healthy_at = 0;
  last_error = [];
}

abbrev pub parcel : Bundle
parcel = record {
  id = codes "b";
  peer_id = codes "p";
  link_id = codes "l";
  dedup_key = codes "k1";
  direction = BundleDirection.inbound;
  cursor_from = 1;
  cursor_to = 2;
  event_count = pos 2;
  payload_type = codes "e";
  payload = codes "xy";
  compression = CompressionKind.none;
  integrity_hash = [];
  auth_tag = [];
  state = BundleState.accepted;
  created_at = 10;
  available_at = 10;
  expires_at = 0;
  acked_at = 0;
}

named : is_empty (trim_space (codes "k")) ≡ false
unfolding trim_space trim_left trim_right is_space
named = refl

verify_bundle-sign_bundle_example :
    (verify_bundle plain beta mesh (sign_bundle plain beta mesh parcel) ≡ ok tt)
    × (verify_bundle plain
          (rotated_peer plain beta (codes "n") 20)
          mesh
          (sign_bundle plain beta mesh parcel)
        ≡ ok tt)
verify_bundle-sign_bundle_example =
    verify_bundle-sign_bundle plain plain-IsHex beta mesh parcel (codes "n") 20 named

unset : is_empty (trim_space []) ≡ true
unfolding trim_space trim_left trim_right
unset = refl

no_break :
    (has_code 10 (trim_lower (codes "beta")) ≡ false)
    × (has_code 10 (trim_lower (codes "alpha")) ≡ false)
unfolding trim_lower to_lower trim_space trim_left trim_right is_space
no_break = (refl, refl)

two_names : trim_lower (codes "alpha") ≢ trim_lower (codes "beta")
unfolding trim_lower to_lower trim_space trim_left trim_right is_space
two_names e = cc

no_collision :
    plain.hmac_hex (trim_space (codes "k")) (message_of plain plain-IsHex alpha mesh parcel)
      ≡ plain.hmac_hex (trim_space (codes "k")) (message_of plain plain-IsHex beta mesh parcel)
    → message_of plain plain-IsHex alpha mesh parcel ≡ message_of plain plain-IsHex beta mesh parcel
unfolding signed_message signed_fields trim_lower to_lower trim_space trim_left trim_right is_space
    decimal
no_collision e = cc

verify_bundle-other_name_example :
    verify_bundle plain alpha mesh (sign_bundle plain beta mesh parcel) ≡ err unauthorized
verify_bundle-other_name_example =
    verify_bundle-other_name plain plain-IsHex beta alpha mesh mesh parcel refl unset no_break.0
      no_break.1 no_collision two_names

abbrev pub start : MemoryStore
start = record {
  peers_by_id = (codes "p", beta) ∷ [];
  peer_ids_by_server = (codes "beta", codes "p") ∷ [];
  links_by_id = (codes "l", mesh) ∷ [];
  link_ids_by_peer_name = (codes "p:mesh", codes "l") ∷ [];
  bundles_by_id = [];
  bundle_ids_by_dedup = [];
  fragments_by_id = [];
  fragment_ids_by_dedup = [];
  cursors_by_key = [];
}

pub start-IsKept : IsKept start
unfolding Dict.get
start-IsKept = record { entry = λ key c h. cc }

abbrev pub sent : SaveBundleParams
sent = record {
  peer_id = codes "p";
  link_id = codes "l";
  dedup_key = codes "k1";
  direction = BundleDirection.inbound;
  cursor_from = 1;
  cursor_to = 2;
  event_count = pos 2;
  payload_type = codes "e";
  payload = codes "xy";
  compression = CompressionKind.none;
  integrity_hash = codes "h";
  auth_tag = codes "t";
  available_at = 0;
  expires_at = 0;
}

abbrev pub accepted : Bundle × MemoryStore
accepted = given (parcel, start) (accept_inbound_bundle flat start 10 (some (codes "b")) sent)

pub accept_done :
    accept_inbound_bundle flat start 10 (some (codes "b")) sent ≡ ok (accepted.0, accepted.1)
unfolding accept_inbound_bundle save_bundle trim_space link_by_id Dict.get text_eq normalize_bundle
    defaulted_bundle sealed_bundle peer_and_link peer_by_id verify_bundle trim_lower bundle_auth_tag
    signed_message signed_fields decimal Dict.put to_lower is_space trim_left trim_right kept_or_put
    normalize_replication_cursor save_bundle_row save_cursor cursor_after cursor_or_first
    record_bundle repeated_bundle bundle_by_dedup_key cursor_by_peer_and_link
accept_done = refl

other_id : is_empty (trim_space (codes "c")) ≡ false
unfolding trim_space trim_left trim_right is_space
other_id = refl

accept_inbound_bundle-again_example :
    accept_inbound_bundle flat accepted.1 30 (some (codes "c")) sent ≡ ok (accepted.0, accepted.1)
accept_inbound_bundle-again_example =
    accept_inbound_bundle-again flat start accepted.1 10 30 (some (codes "b")) (codes "c") sent
      accepted.0 start-IsKept other_id accept_done
