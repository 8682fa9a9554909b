-- ===== src/Federation/Models.antt =====
-- internal/domain/federation/models.go: peers, links, bundles, fragments and cursors.
use zvonilka.Base.{ℕ, ℤ, Text, Time, List, Bool}

pub data Error : Type 0 where
  invalid_input not_found conflict unauthorized forbidden : Error
  -- Any other error, such as one of the random source.
  internal : Error

pub data TransportKind : Type 0 where
  unspecified https meshtastic mesh_core custom_dtn : TransportKind

pub data Capability : Type 0 where
  unspecified event_replication directory_sync media_proxy bot_bridge search_mirror : Capability

pub data ConversationKind : Type 0 where
  unspecified direct group channel : ConversationKind

pub data MessageKind : Type 0 where
  unspecified text image video document voice sticker gif system : MessageKind

pub data PeerState : Type 0 where
  unspecified pending active degraded revoked : PeerState

pub data LinkState : Type 0 where
  unspecified active paused degraded deleted : LinkState

pub data DeliveryClass : Type 0 where
  unspecified realtime delay_tolerant ultra_constrained : DeliveryClass

pub data DiscoveryMode : Type 0 where
  unspecified manual dns well_known bridge_announced : DiscoveryMode

pub data MediaPolicy : Type 0 where
  unspecified reference_proxy background_replication disabled : MediaPolicy

pub data BundleState : Type 0 where
  unspecified queued accepted acknowledged failed : BundleState

pub data EventFamily : Type 0 where
  unspecified conversation membership message receipt topic user admin_action : EventFamily

pub data BundleDirection : Type 0 where
  unspecified inbound outbound : BundleDirection

pub data CompressionKind : Type 0 where
  unspecified none gzip : CompressionKind

pub data FragmentState : Type 0 where
  unspecified queued claimed accepted acknowledged assembled failed : FragmentState

-- Bytes of a payload.
abbrev pub Bytes : Type 0
Bytes = List ℕ

-- The cursors are uint64.
pub record BundleFragment : Type 0 where
  pub id : Text
  pub peer_id : Text
  pub link_id : Text
  pub bundle_id : Text
  pub dedup_key : Text
  pub direction : BundleDirection
  pub cursor_from : ℕ
  pub cursor_to : ℕ
  pub event_count : ℤ
  pub payload_type : Text
  pub compression : CompressionKind
  pub integrity_hash : Text
  pub auth_tag : Text
  pub fragment_index : ℤ
  pub fragment_count : ℤ
  pub payload : Bytes
  pub state : FragmentState
  pub lease_token : Text
  pub lease_expires_at : Time
  pub attempt_count : ℤ
  pub created_at : Time
  pub available_at : Time
  pub acked_at : Time

pub record Peer : Type 0 where
  pub id : Text
  pub server_name : Text
  pub base_url : Text
  pub capabilities : List Capability
  pub trusted : Bool
  pub state : PeerState
  pub verification_fingerprint : Text
  pub shared_secret : Text
  pub shared_secret_hash : Text
  pub signing_fingerprint : Text
  pub signing_secret : Text
  pub previous_signing_secret : Text
  pub signing_key_version : ℕ
  pub created_at : Time
  pub updated_at : Time
  pub last_seen_at : Time

pub record Link : Type 0 where
  pub id : Text
  pub peer_id : Text
  pub name : Text
  pub endpoint : Text
  pub transport_kind : TransportKind
  pub delivery_class : DeliveryClass
  pub discovery_mode : DiscoveryMode
  pub media_policy : MediaPolicy
  pub state : LinkState
  pub max_bundle_bytes : ℤ
  pub max_fragment_bytes : ℤ
  pub allowed_conversation_kinds : List ConversationKind
  pub allowed_event_families : List EventFamily
  pub allowed_message_kinds : List MessageKind
  pub created_at : Time
  pub updated_at : Time
  pub last_healthy_at : Time
  pub last_error : Text

pub record Bundle : Type 0 where
  pub id : Text
  pub peer_id : Text
  pub link_id : Text
  pub dedup_key : Text
  pub direction : BundleDirection
  pub cursor_from : ℕ
  pub cursor_to : ℕ
  pub event_count : ℤ
  pub payload_type : Text
  pub payload : Bytes
  pub compression : CompressionKind
  pub integrity_hash : Text
  pub auth_tag : Text
  pub state : BundleState
  pub created_at : Time
  pub available_at : Time
  pub expires_at : Time
  pub acked_at : Time

pub record ReplicationCursor : Type 0 where
  pub last_received_cursor : ℕ
  pub peer_id : Text
  pub link_id : Text
  pub last_inbound_cursor : ℕ
  pub last_outbound_cursor : ℕ
  pub last_acked_cursor : ℕ
  pub updated_at : Time
