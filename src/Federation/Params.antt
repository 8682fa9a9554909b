-- ===== src/Federation/Params.antt =====
-- internal/domain/federation/params.go: the parameters of the operations on links and bundles.
use zvonilka.Base.{Text, Time, ℤ, ℕ, List, Bool, Option}
use zvonilka.Federation.Models.{
  LinkState, Capability, PeerState, TransportKind, DeliveryClass, DiscoveryMode, MediaPolicy,
  ConversationKind, EventFamily, MessageKind, BundleDirection, CompressionKind, Bytes,
}

pub record CreatePeerParams : Type 0 where
  pub server_name : Text
  pub base_url : Text
  pub capabilities : List Capability
  pub trusted : Bool
  pub shared_secret : Text
  pub signing_secret : Text

pub record UpdatePeerParams : Type 0 where
  pub peer_id : Text
  pub server_name : Option Text
  pub base_url : Option Text
  pub capabilities : Option (List Capability)
  pub trusted : Option Bool
  pub state : Option PeerState

pub record CreateLinkParams : Type 0 where
  pub peer_id : Text
  pub name : Text
  pub endpoint : Text
  pub transport_kind : TransportKind
  pub delivery_class : DeliveryClass
  pub discovery_mode : DiscoveryMode
  pub media_policy : MediaPolicy
  pub max_bundle_bytes : ℤ
  pub max_fragment_bytes : ℤ
  pub allowed_conversation_kinds : List ConversationKind
  pub allowed_event_families : List EventFamily
  pub allowed_message_kinds : List MessageKind

pub record UpdateLinkParams : Type 0 where
  pub link_id : Text
  pub name : Option Text
  pub endpoint : Option Text
  pub transport_kind : Option TransportKind
  pub delivery_class : Option DeliveryClass
  pub discovery_mode : Option DiscoveryMode
  pub media_policy : Option MediaPolicy
  pub state : Option LinkState
  pub max_bundle_bytes : Option ℤ
  pub max_fragment_bytes : Option ℤ
  pub allowed_conversation_kinds : Option (List ConversationKind)
  pub allowed_event_families : Option (List EventFamily)
  pub allowed_message_kinds : Option (List MessageKind)
  pub last_healthy_at : Option Time
  pub last_error : Option Text

pub record SaveBundleParams : Type 0 where
  pub peer_id : Text
  pub link_id : Text
  pub dedup_key : Text
  pub direction : BundleDirection
  pub cursor_from : ℕ
  pub cursor_to : ℕ
  pub event_count : ℤ
  pub payload_type : Text
  pub payload : Bytes
  pub compression : CompressionKind
  pub integrity_hash : Text
  pub auth_tag : Text
  pub available_at : Time
  pub expires_at : Time

pub record AcknowledgeBundlesParams : Type 0 where
  pub peer_id : Text
  pub link_id : Text
  pub up_to_cursor : ℕ
  pub bundle_ids : List Text
  pub acknowledged_at : Time

pub record SaveFragmentParams : Type 0 where
  pub peer_id : Text
  pub link_id : Text
  pub bundle_id : Text
  pub dedup_key : Text
  pub direction : BundleDirection
  pub cursor_from : ℕ
  pub cursor_to : ℕ
  pub event_count : ℤ
  pub payload_type : Text
  pub compression : CompressionKind
  pub integrity_hash : Text
  pub auth_tag : Text
  pub fragment_index : ℤ
  pub fragment_count : ℤ
  pub payload : Bytes
  pub available_at : Time
