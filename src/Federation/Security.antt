-- ===== src/Federation/Security.antt =====
-- internal/domain/federation/security.go: the integrity hash and the authentication tag of a bundle,
-- and RotatePeerSigningKey of service.go. SHA-256 and HMAC, in hexadecimal, are parameters.
pub mod Tags
use zvonilka.Base.{
  Text, ◌++◌, ◌∷◌, ℤ, pos, negsuc, decimal, trim_lower, trim_space, Result, ok, err, ◌>>=◌, ◌>>◌,
  ◌≡◌, suc, [], List, if◌then◌else◌, refuse_if, codes, not, is_empty, text_eq, ◌||◌,
}
use zvonilka.Federation.Models.{
  Error, invalid_input, conflict, unauthorized, Peer, Link, Bundle, CompressionKind, Bytes,
}
use zvonilka.Federation.Store.{MemoryStore, peer_by_id, link_by_id}

pub record Digests : Type 0 where
  pub sha256_hex : Bytes → Text
  -- The key and the message.
  pub hmac_hex : Text → Text → Text

-- What is relied on: a hexadecimal text is in lower case, without white space.
pub record IsHex (d : Digests) : Type 0 where
  pub sha256 : (payload : Bytes) → trim_lower (d.sha256_hex payload) ≡ d.sha256_hex payload
  pub hmac : (key message : Text) → trim_lower (d.hmac_hex key message) ≡ d.hmac_hex key message

-- strconv.Itoa
abbrev pub itoa : ℤ → Text
itoa (pos n) = decimal n
itoa (negsuc n) = b'-' ∷ decimal (suc n)

abbrev pub compression_text : CompressionKind → Text
compression_text CompressionKind.unspecified = []
compression_text CompressionKind.none = codes "none"
compression_text CompressionKind.gzip = codes "gzip"

-- writeSignedField, for each field in turn.
unfoldable pub signed_fields : List Text → Text
signed_fields [] = []
signed_fields (value ∷ values) = (value ++ (10 ∷ [])) ++ signed_fields values

unfoldable pub signed_message : Peer → Link → Bundle → Text → Text
signed_message peer link bundle integrity_hash = signed_fields (
    trim_lower peer.server_name
    ∷ trim_lower link.name
    ∷ decimal bundle.cursor_from
    ∷ decimal bundle.cursor_to
    ∷ itoa bundle.event_count
    ∷ trim_lower bundle.payload_type
    ∷ trim_lower (compression_text bundle.compression)
    ∷ trim_lower integrity_hash
    ∷ [])

module _ (d : Digests) where
  unfoldable pub bundle_auth_tag : Text → Peer → Link → Bundle → Text → Text
  bundle_auth_tag secret peer link bundle integrity_hash =
      d.hmac_hex (trim_space secret) (signed_message peer link bundle integrity_hash)

  unfoldable pub sign_bundle : Peer → Link → Bundle → Bundle
  sign_bundle peer link bundle =
      let integrity_hash = d.sha256_hex bundle.payload in
      record bundle {
        integrity_hash = integrity_hash;
        auth_tag = bundle_auth_tag peer.signing_secret peer link bundle integrity_hash;
      }

  unfoldable pub verify_bundle : Peer → Link → Bundle → Result Error (Unit {0})
  verify_bundle peer link bundle =
      let expected = d.sha256_hex bundle.payload in
      let given = trim_lower bundle.auth_tag in
      if not (text_eq expected (trim_lower bundle.integrity_hash))
      then err unauthorized
      else if text_eq (bundle_auth_tag peer.signing_secret peer link bundle expected) given
      then ok tt
      else if is_empty (trim_space peer.previous_signing_secret)
      then err unauthorized
      else if text_eq (bundle_auth_tag peer.previous_signing_secret peer link bundle expected) given
      then ok tt
      else err unauthorized

unfoldable pub peer_and_link : MemoryStore → Text → Text → Result Error (Peer × Link)
peer_and_link s peer_id link_id = do
  refuse_if (is_empty (trim_space peer_id) || is_empty (trim_space link_id)) invalid_input
  link ← link_by_id s (trim_space link_id)
  refuse_if (not (text_eq link.peer_id (trim_space peer_id))) conflict
  peer ← peer_by_id s (trim_space peer_id)
  ok (peer, link)
