-- ===== src/Federation/Peers.antt =====
-- The peers of internal/domain/federation: their normal form (models.go), the store's writes of them
-- (teststore/store.go), and the operations of service.go on them.
pub mod Trust
use zvonilka.Base.{
  Text, Time, Option, none, some, true, false, ok, ◌>>=◌, ◌>>◌, [], codes, if◌then◌else◌, Bool,
  refuse_if, take, trim_space, Result, trim_lower, ◌+◌, is_empty, or_now, ◌%◌, not, ◌==◌, ◌||◌, ◌^◌,
  text_eq,
}
use zvonilka.Base.Dict
use zvonilka.Base.Dict.{Dict}
use zvonilka.Federation.Models.{
  Error, invalid_input, conflict, unauthorized, forbidden, Peer, PeerState, Capability,
}
use zvonilka.Federation.Params.{CreatePeerParams, UpdatePeerParams}
use zvonilka.Federation.Store.{
  MemoryStore, Saved, is_taken, drawn, given_or, map_or, peer_by_id, peer_by_server_name,
}
use zvonilka.Federation.LinkForm.{normalize_values}
use zvonilka.Federation.Security.{Digests}

abbrev pub capability_text : Capability → Text
capability_text Capability.unspecified = []
capability_text Capability.event_replication = codes "event_replication"
capability_text Capability.directory_sync = codes "directory_sync"
capability_text Capability.media_proxy = codes "media_proxy"
capability_text Capability.bot_bridge = codes "bot_bridge"
capability_text Capability.search_mirror = codes "search_mirror"

abbrev pub text_or : Text → Text → Text
text_or s default = if is_empty s then default else s

abbrev pub settled_state : Bool → PeerState → PeerState
settled_state trusted PeerState.unspecified =
    if trusted then PeerState.active else PeerState.pending
settled_state trusted state = state

abbrev pub settled_trust : Bool → PeerState → Bool
settled_trust trusted PeerState.active = true
settled_trust trusted PeerState.revoked = false
settled_trust trusted _ = trusted

-- `index` without the name under which the row stood before.
abbrev pub without_server : Option Peer → Dict Text → Dict Text
without_server none index = index
without_server (some previous) index = Dict.remove index previous.server_name

unfoldable pub save_row : MemoryStore → Peer → Saved Peer
save_row s peer = do
  refuse_if (is_taken (Dict.get s.peer_ids_by_server peer.server_name) peer.id) conflict
  let index = without_server (Dict.get s.peers_by_id peer.id) s.peer_ids_by_server
  ok (
    peer,
    record s {
      peers_by_id = Dict.put s.peers_by_id peer.id peer;
      peer_ids_by_server = Dict.put index peer.server_name peer.id;
    },
  )

module _ (d : Digests) where
  abbrev pub secret_hash : Text → Text
  secret_hash value = d.sha256_hex value

  -- The first eight bytes of the hash.
  abbrev pub secret_fingerprint : Text → Text
  secret_fingerprint value = take 16 (d.sha256_hex value)

  unfoldable pub defaulted_peer : Peer → Time → Peer
  defaulted_peer p now =
      let shared_secret = trim_space p.shared_secret in
      let signing_secret = text_or (trim_space p.signing_secret) shared_secret in
      let created_at = or_now p.created_at now in
      record {
        id = trim_space p.id;
        server_name = trim_lower p.server_name;
        base_url = trim_space p.base_url;
        capabilities = normalize_values capability_text [] p.capabilities;
        trusted = settled_trust p.trusted p.state;
        state = settled_state p.trusted p.state;
        verification_fingerprint = trim_lower p.verification_fingerprint;
        shared_secret = shared_secret;
        shared_secret_hash = trim_lower p.shared_secret_hash;
        signing_fingerprint =
            text_or (trim_lower p.signing_fingerprint) (secret_fingerprint signing_secret);
        signing_secret = signing_secret;
        previous_signing_secret = trim_space p.previous_signing_secret;
        signing_key_version = if p.signing_key_version == 0 then 1 else p.signing_key_version;
        created_at = created_at;
        updated_at = or_now p.updated_at created_at;
        last_seen_at = p.last_seen_at;
      }

  unfoldable pub normalize_peer : Peer → Time → Result Error Peer
  normalize_peer p now = do
    let row = defaulted_peer p now
    refuse_if (is_empty row.id || is_empty row.server_name) invalid_input
    refuse_if (is_empty row.shared_secret || is_empty row.shared_secret_hash) invalid_input
    ok row

  unfoldable pub save_peer : MemoryStore → Time → Peer → Saved Peer
  save_peer s clock given = do peer ← normalize_peer given clock; save_row s peer

  -- The service normalizes a row before it saves it.
  unfoldable pub save_normalized : MemoryStore → Time → Peer → Saved Peer
  save_normalized s clock given = do peer ← normalize_peer given clock; save_peer s clock peer

  abbrev pub new_peer : CreatePeerParams → Text → Text → Text → Peer
  new_peer params id shared_secret signing_secret = record {
    id = id;
    server_name = trim_lower params.server_name;
    base_url = trim_space params.base_url;
    capabilities = params.capabilities;
    trusted = params.trusted;
    state = PeerState.unspecified;
    verification_fingerprint = secret_fingerprint shared_secret;
    shared_secret = shared_secret;
    shared_secret_hash = secret_hash shared_secret;
    signing_fingerprint = secret_fingerprint signing_secret;
    signing_secret = signing_secret;
    previous_signing_secret = [];
    signing_key_version = 1;
    created_at = 0;
    updated_at = 0;
    last_seen_at = 0;
  }

  -- A secret that was given, or one that is drawn.
  abbrev pub given_or_drawn : Text → Option Text → Result Error Text
  given_or_drawn secret token = if is_empty secret then drawn token else ok secret

  -- `tokens` are drawn for the shared secret, the signing secret and the id. The secrets that
  -- CreatePeer returns stand in the row.
  unfoldable pub create_peer :
      MemoryStore → Time → Option Text × Option Text × Option Text → CreatePeerParams → Saved Peer
  create_peer s clock (shared, signing, id) params = do
    refuse_if (is_empty (trim_lower params.server_name)) invalid_input
    shared_secret ← given_or_drawn (trim_space params.shared_secret) shared
    signing_secret ← given_or_drawn (trim_space params.signing_secret) signing
    peer_id ← drawn id
    save_normalized s clock (new_peer params peer_id shared_secret signing_secret)

  unfoldable pub changed_peer : UpdatePeerParams → Time → Peer → Peer
  changed_peer params clock peer = record peer {
    server_name = map_or trim_lower params.server_name peer.server_name;
    base_url = map_or trim_space params.base_url peer.base_url;
    capabilities = given_or params.capabilities peer.capabilities;
    trusted = given_or params.trusted peer.trusted;
    state = given_or params.state peer.state;
    updated_at = clock;
  }

  unfoldable pub update_peer : MemoryStore → Time → UpdatePeerParams → Saved Peer
  update_peer s clock params = do
    refuse_if (is_empty (trim_space params.peer_id)) invalid_input
    current ← peer_by_id s (trim_space params.peer_id)
    save_normalized s clock (changed_peer params clock current)

  -- The version is a uint64.
  unfoldable pub rotated_peer : Peer → Text → Time → Peer
  rotated_peer peer signing_secret clock = record peer {
    previous_signing_secret = peer.signing_secret;
    signing_secret = signing_secret;
    signing_fingerprint = secret_fingerprint signing_secret;
    signing_key_version = (peer.signing_key_version + 1) % 2 ^ 64;
    updated_at = clock;
  }

  unfoldable pub rotate_peer_signing_key :
      MemoryStore → Time → Option Text → Text → Text → Saved Peer
  rotate_peer_signing_key s clock token peer_id given = do
    refuse_if (is_empty (trim_space peer_id)) invalid_input
    current ← peer_by_id s (trim_space peer_id)
    signing_secret ← given_or_drawn (trim_space given) token
    refuse_if (text_eq (secret_hash current.signing_secret) (secret_hash signing_secret)) conflict
    save_normalized s clock (rotated_peer current signing_secret clock)

  abbrev pub is_serving : PeerState → Bool
  is_serving PeerState.active = true
  is_serving PeerState.degraded = true
  is_serving _ = false

  unfoldable pub admit_peer : MemoryStore → Time → Peer → Text → Saved Peer
  admit_peer s clock peer shared_secret = do
    refuse_if (not (text_eq peer.shared_secret_hash (secret_hash shared_secret))) unauthorized
    refuse_if (not peer.trusted) forbidden
    refuse_if (not (is_serving peer.state)) forbidden
    save_peer s clock (record peer { last_seen_at = clock; updated_at = clock })

  unfoldable pub authenticate_peer : MemoryStore → Time → Text → Text → Saved Peer
  authenticate_peer s clock peer_id shared_secret = do
    refuse_if (is_empty (trim_space peer_id) || is_empty (trim_space shared_secret)) invalid_input
    peer ← peer_by_id s (trim_space peer_id)
    admit_peer s clock peer (trim_space shared_secret)

  unfoldable pub authenticate_peer_by_server_name : MemoryStore → Time → Text → Text → Saved Peer
  authenticate_peer_by_server_name s clock server_name shared_secret = do
    refuse_if (is_empty (trim_lower server_name) || is_empty (trim_space shared_secret))
        invalid_input
    peer ← peer_by_server_name s (trim_lower server_name)
    admit_peer s clock peer (trim_space shared_secret)
