-- ===== src/Federation/Security/Tags.antt =====
-- What a signed bundle is verified by: the same peer, the peer after a rotation of its key, and another
-- server that knows the sender by another name.
use mathlib.Core.List.{append_assoc, List, []}
use zvonilka.Base.{
  Text, ok, err, trim_lower, Time, trim_space, ◌≡◌, is_empty, has_code, refl, false, true, arith,
  ◌≢◌, ◌∷◌, text_eq_refl, cut-append, sym, ◌∙◌, ap, cut, Bool-cases, text_eq, inl, text_eq_iff, inr,
}
use zvonilka.Federation.Models.{unauthorized, Peer, Link, Bundle}
use zvonilka.Federation.Security.{
  Digests, IsHex, bundle_auth_tag, sign_bundle, verify_bundle, signed_message, signed_fields,
}
use zvonilka.Federation.Peers.{rotated_peer}

module _ (d : Digests) (hex : IsHex d) where
  tag_hex :
      (secret : Text) (peer : Peer) (link : Link) (b : Bundle) (hash : Text)
      → trim_lower (bundle_auth_tag d secret peer link b hash)
        ≡ bundle_auth_tag d secret peer link b hash
  unfolding bundle_auth_tag
  tag_hex secret peer link b hash = hex.hmac (trim_space secret) (signed_message peer link b hash)

  -- The tag of a bundle does not depend on the hash and the tag that stand in it, nor on the secrets.
  tag_of_signed :
      (secret : Text) (peer : Peer) (link : Link) (b : Bundle) (hash : Text)
      → bundle_auth_tag d secret peer link (sign_bundle d peer link b) hash
        ≡ bundle_auth_tag d secret peer link b hash
  unfolding bundle_auth_tag sign_bundle signed_message
  tag_of_signed secret peer link b hash = refl

  -- A bundle that was signed for a peer verifies for that peer, and it still does after the peer's
  -- signing key was rotated once, to any key.
  pub verify_bundle-sign_bundle :
      (peer : Peer) (link : Link) (b : Bundle) (signing_secret : Text) (clock : Time)
      → is_empty (trim_space peer.signing_secret) ≡ false
      → (verify_bundle d peer link (sign_bundle d peer link b) ≡ ok tt)
        × (verify_bundle d
              (rotated_peer d peer signing_secret clock)
              link
              (sign_bundle d peer link b)
            ≡ ok tt)
  unfolding verify_bundle sign_bundle rotated_peer bundle_auth_tag signed_message
  verify_bundle-sign_bundle peer link b signing_secret clock set =
      let hash = d.sha256_hex b.payload in
      let message = signed_message peer link b hash in
      let tag = d.hmac_hex (trim_space peer.signing_secret) message in
      let new_tag = d.hmac_hex (trim_space signing_secret) message in
      (
        ground (
          arith,
          hex.sha256 b.payload,
          tag_hex peer.signing_secret peer link b hash,
          text_eq_refl hash,
          text_eq_refl tag,
        ),
        ground (
          arith,
          hex.sha256 b.payload,
          tag_hex peer.signing_secret peer link b hash,
          text_eq_refl hash,
          text_eq_refl tag,
        ),
      )

  first_field :
      (s t : Text) (vs ws : List Text)
      → has_code 10 s ≡ false
      → has_code 10 t ≡ false
      → signed_fields (s ∷ vs) ≡ signed_fields (t ∷ ws)
      → s ≡ t
  unfolding signed_fields
  first_field s t vs ws p q e =
      let left = cut-append 10 s (signed_fields vs) p in
      let right = cut-append 10 t (signed_fields ws) q in
      let same =
        sym (append_assoc s (10 ∷ []) (signed_fields vs))
        ∙ (e ∙ append_assoc t (10 ∷ []) (signed_fields ws)) in
      let cuts = sym left ∙ (ap (cut 10) same ∙ right) in cc

  -- What the tag of a bundle is made of.
  abbrev pub message_of : Peer → Link → Bundle → Text
  message_of peer link b = signed_message peer link b (d.sha256_hex b.payload)

  messages_differ :
      (there here : Peer) (there_link here_link : Link) (b : Bundle)
      → has_code 10 (trim_lower there.server_name) ≡ false
      → has_code 10 (trim_lower here.server_name) ≡ false
      → trim_lower here.server_name ≢ trim_lower there.server_name
      → message_of here here_link b ≢ message_of there there_link b
  unfolding signed_message
  messages_differ there here there_link here_link b p q differ e =
      differ (first_field (trim_lower here.server_name) (trim_lower there.server_name) _ _ q p e)

  -- `there` is the record that the sender keeps of the receiver, and `here` the one that the receiver
  -- keeps of the sender. They share the signing secret, which was not rotated; the names hold no line
  -- break; and the tags of the two messages do not collide. Where the names differ, the receiver
  -- refuses every bundle that the sender signs, as unauthorized.
  pub verify_bundle-other_name :
      (there here : Peer) (there_link here_link : Link) (b : Bundle)
      → here.signing_secret ≡ there.signing_secret
      → is_empty (trim_space here.previous_signing_secret) ≡ true
      → has_code 10 (trim_lower there.server_name) ≡ false
      → has_code 10 (trim_lower here.server_name) ≡ false
      → (d.hmac_hex (trim_space there.signing_secret) (message_of here here_link b)
            ≡ d.hmac_hex (trim_space there.signing_secret) (message_of there there_link b)
          → message_of here here_link b ≡ message_of there there_link b)
      → trim_lower here.server_name ≢ trim_lower there.server_name
      → verify_bundle d here here_link (sign_bundle d there there_link b) ≡ err unauthorized
  unfolding verify_bundle sign_bundle bundle_auth_tag signed_message
  verify_bundle-other_name there here there_link here_link b shared never p q distinct differ =
      let secret = trim_space there.signing_secret in
      let sent = d.hmac_hex secret (message_of there there_link b) in
      let expected = d.hmac_hex secret (message_of here here_link b) in
      elim (Bool-cases (text_eq expected sent)) [
        | inl same ↦ absurd (
            messages_differ there here there_link here_link b p q differ
              (distinct ((text_eq_iff expected sent).0 same)))
        | inr other ↦ ground (
          arith,
          shared,
          hex.hmac secret (message_of there there_link b),
          hex.sha256 b.payload,
          text_eq_refl (d.sha256_hex b.payload),
        )
      ]
