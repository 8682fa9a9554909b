-- ===== src/Scenarios/Rounds.antt =====
-- A run of the worker, the batches of two events, and a peer whose trust is withdrawn.
use zvonilka.Base.{
  codes, true, false, some, none, ok, err, [], ◌∷◌, pos, List, ℕ, Result, inr, trim_space, ◌≡◌,
  trim_left, if◌then◌else◌, trim_right, text_eq, is_space, refl, trim_lower, is_empty, to_lower,
  decimal,
}
use zvonilka.Base.Dict
use zvonilka.Federation.Models.{Error, forbidden, unauthorized, Peer, PeerState, Bundle}
use zvonilka.Federation.Params.{SaveBundleParams, UpdatePeerParams}
use zvonilka.Federation.Store.{
  MemoryStore, peer_by_id, link_by_id, cursor_by_peer_and_link, bundle_by_dedup_key,
}
use zvonilka.Federation.Replication.Watermarks.{Moves}
use zvonilka.Federation.Replication.Steps.{Steps, Step, Steps-Moves}
use zvonilka.Federation.Worker.{
  apply_pending_inbound_bundles, pending_inbound, apply_page, apply_each, advance_applied,
}
use zvonilka.Federation.Worker.Once.{AllAfter, handed, apply_pending-AllAfter}
use zvonilka.Federation.Batches.{Encoding, batches, marshal_federation_event_batch}
use zvonilka.Federation.Batches.Cover.{Cover}
use zvonilka.Federation.Batches.Total.{batches_total-Cover}
use zvonilka.Federation.Peers.{
  authenticate_peer, update_peer, save_normalized, save_peer, save_row, normalize_peer,
  defaulted_peer, changed_peer,
}
use zvonilka.Federation.Peers.Trust.{update_peer-revoked, update_peer-still_trusted}
use zvonilka.Conversation.Events.{EventEnvelope, EventType}
use zvonilka.Conversation.Moderation.Audit.{no_payload}
use zvonilka.Scenarios.Moderation.{given}
use zvonilka.Scenarios.Replication.{
  flat, start, start-IsKept, sent, accepted, accept_done, beta, mesh,
}
use zvonilka.Federation.Replication.{replication_cursor, advance_inbound_cursor, authorized_link}
use zvonilka.Federation.LinkForm.{normalize_values, sorted_values}
use zvonilka.Federation.Links.{authorize_link_for_peer}
use zvonilka.Federation.Bundles.{
  cursor_or_first, accept_inbound_bundle, save_bundle, sealed_bundle, cursor_after, record_bundle,
  repeated_bundle,
}
use zvonilka.Federation.BundleRows.{
  save_cursor, normalize_replication_cursor, normalize_bundle, defaulted_bundle, kept_or_put,
  save_bundle_row,
}
use zvonilka.Federation.BundleReads.{bundles_after, bundles, sort_bundles, insert_bundle}
use zvonilka.Federation.Security.{
  peer_and_link, verify_bundle, bundle_auth_tag, signed_message, signed_fields,
}

abbrev steps : Steps flat start accepted.1
steps = Steps.next Steps.here (Step.accepted 10 (some (codes "b")) sent accepted.0 accept_done)

Steps-Moves_example : Moves start accepted.1
Steps-Moves_example = Steps-Moves start-IsKept steps

-- What is applied is put in front of a list.
abbrev record_it : Bundle → List Bundle → Result Error (Unit {0}) × List Bundle
record_it b w = (ok tt, b ∷ w)

abbrev round : Result Error ℕ × MemoryStore × List Bundle
round = apply_pending_inbound_bundles record_it accepted.1 20 (codes "p") (codes "l") (pos 5) []

round_done :
    apply_pending_inbound_bundles record_it accepted.1 20 (codes "p") (codes "l") (pos 5) []
    ≡ (ok 2, round.1, accepted.0 ∷ [])
unfolding apply_pending_inbound_bundles trim_space trim_left trim_right is_space text_eq Dict.get
    Dict.put trim_lower to_lower replication_cursor pending_inbound apply_page apply_each
    advance_applied advance_inbound_cursor authorized_link authorize_link_for_peer link_by_id
    cursor_or_first cursor_by_peer_and_link save_cursor normalize_replication_cursor bundles_after
    bundles sort_bundles insert_bundle accept_inbound_bundle save_bundle normalize_bundle
    defaulted_bundle sealed_bundle peer_and_link peer_by_id verify_bundle bundle_auth_tag
    signed_message signed_fields decimal kept_or_put save_bundle_row cursor_after record_bundle
    repeated_bundle bundle_by_dedup_key
round_done = refl

apply_pending-AllAfter_example :
    AllAfter
      (handed accepted.1 (codes "p") (codes "l") (pos 5))
      (handed round.1 (codes "p") (codes "l") (pos 5))
apply_pending-AllAfter_example =
    apply_pending-AllAfter record_it flat accepted.1 round.1 round.1 20 (codes "p") (codes "l")
      (pos 5) (pos 5) [] (accepted.0 ∷ []) 2 Steps-Moves_example.kept round_done Steps.here

abbrev event : ℕ → EventEnvelope
event sequence = record {
  event_id = codes "e";
  event_type = EventType.message_created;
  conversation_id = codes "c";
  actor_account_id = codes "a";
  actor_device_id = [];
  causation_id = [];
  correlation_id = [];
  message_id = [];
  sequence = sequence;
  payload_type = [];
  payload = no_payload;
  read_through_sequence = 0;
  metadata = [];
  created_at = 7;
}

-- Two bytes for each event.
abbrev two_bytes : List EventEnvelope → List ℕ
two_bytes [] = []
two_bytes (e ∷ es) = e.sequence ∷ 0 ∷ two_bytes es

abbrev pub coding : Encoding
coding = record { json = two_bytes; gzip = λ payload. payload }

batches_total-Cover_example :
    (ps : List SaveBundleParams) × (batches coding 2 mesh (event 4 ∷ event 5 ∷ []) ≡ ok ps)
    × Cover coding mesh (event 4 ∷ event 5 ∷ []) ps
unfolding marshal_federation_event_batch
batches_total-Cover_example =
    batches_total-Cover coding mesh (event 4 ∷ event 5 ∷ []) (inr ((_, refl), ((_, refl), tt)))

abbrev revoke : UpdatePeerParams
revoke = record {
  peer_id = codes "p";
  server_name = none;
  base_url = none;
  capabilities = none;
  trusted = none;
  state = some PeerState.revoked;
}

abbrev revoked : Peer × MemoryStore
revoked = given (beta, start) (update_peer flat start 40 revoke)

revoke_done : update_peer flat start 40 revoke ≡ ok (revoked.0, revoked.1)
unfolding update_peer trim_space trim_left trim_right is_space text_eq Dict.get Dict.put trim_lower
    to_lower peer_by_id save_normalized save_peer save_row normalize_peer defaulted_peer
    changed_peer normalize_values sorted_values Dict.remove
revoke_done = refl

secret_given : is_empty (trim_space (codes "s")) ≡ false
unfolding trim_space trim_left trim_right is_space
secret_given = refl

update_peer-revoked_example :
    authenticate_peer flat revoked.1 50 revoked.0.id (codes "s")
    ≡ (if text_eq revoked.0.shared_secret_hash (codes "h") then err forbidden else err unauthorized)
update_peer-revoked_example =
    update_peer-revoked flat start revoked.1 40 50 revoke revoked.0 (codes "s") refl revoke_done
      secret_given

abbrev distrust : UpdatePeerParams
distrust = record revoke { trusted = some false; state = none }

abbrev kept : Peer × MemoryStore
kept = given (beta, start) (update_peer flat start 40 distrust)

distrust_done : update_peer flat start 40 distrust ≡ ok (kept.0, kept.1)
unfolding update_peer trim_space trim_left trim_right is_space text_eq Dict.get Dict.put trim_lower
    to_lower peer_by_id save_normalized save_peer save_row normalize_peer defaulted_peer
    changed_peer normalize_values sorted_values Dict.remove
distrust_done = refl

found : peer_by_id start (trim_space (codes "p")) ≡ ok beta
unfolding peer_by_id trim_space trim_left trim_right is_space Dict.get text_eq
found = refl

update_peer-still_trusted_example : (kept.0.trusted ≡ true) × (kept.0.state ≡ PeerState.active)
update_peer-still_trusted_example =
    update_peer-still_trusted flat start kept.1 40 distrust beta kept.0 found refl refl refl
      distrust_done
