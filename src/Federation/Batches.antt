-- ===== src/Federation/Batches.antt =====
-- buildOutboundBundles of internal/domain/federation/worker.go: the batches in which events go out.
-- The JSON and the gzip encodings are parameters.
pub mod Cover
pub mod Total
use zvonilka.Base.{
  ◌>>=◌, Text, ℕ, Bool, true, false, List, [], ◌∷◌, Result, ok, err, ℤ, zero, suc, not,
  if◌then◌else◌, ◌++◌, ◌&&◌, is_positive, ◌||◌, codes, pos, leb, length, pos_part, ◌+◌,
}
use zvonilka.Federation.Carried.{carried_events}
use zvonilka.Federation.Models.{
  Error, conflict, Link, Peer, CompressionKind, Bytes, BundleDirection,
}
use zvonilka.Federation.Params.{SaveBundleParams}
use zvonilka.Federation.LinkForm.{is_ultra_constrained}
use zvonilka.Conversation.Events.{EventEnvelope}

pub record Encoding : Type 0 where
  pub json : List EventEnvelope → Bytes
  pub gzip : Bytes → Bytes

abbrev pub fits : Bytes → ℤ → Bool
fits payload max_bytes = not (is_positive max_bytes) || leb (length payload) (pos_part max_bytes)

abbrev pub is_conflict : Error → Bool
is_conflict conflict = true
is_conflict _ = false

abbrev pub last_sequence : EventEnvelope → List EventEnvelope → ℕ
last_sequence e [] = e.sequence
last_sequence e (f ∷ fs) = last_sequence f fs

abbrev pub batch_params : ℕ → ℕ → ℕ → Bytes → CompressionKind → SaveBundleParams
batch_params from to count payload compression = record {
  peer_id = [];
  link_id = [];
  dedup_key = [];
  direction = BundleDirection.unspecified;
  cursor_from = from;
  cursor_to = to;
  event_count = pos count;
  payload_type = codes "conversation.events.v1";
  payload = payload;
  compression = compression;
  integrity_hash = [];
  auth_tag = [];
  available_at = 0;
  expires_at = 0;
}

module _ (enc : Encoding) where
  unfoldable pub marshal_federation_event_batch :
      List EventEnvelope → ℤ → Result Error (Bytes × CompressionKind)
  marshal_federation_event_batch events max_bytes =
      let payload = enc.json events in
      if fits payload max_bytes
      then ok (payload, CompressionKind.none)
      else if leb (length (enc.gzip payload)) (pos_part max_bytes)
      then ok (enc.gzip payload, CompressionKind.gzip)
      else err conflict

  -- The inner loop: the batch that begins with `first` and holds `more` grows while its encoding fits.
  unfoldable pub grow :
      ℤ
      → EventEnvelope
      → List EventEnvelope
      → Bytes × CompressionKind
      → List EventEnvelope
      → Result Error (List EventEnvelope × (Bytes × CompressionKind) × List EventEnvelope)
  grow max_bytes first more encoded [] = ok (more, encoded, [])
  grow max_bytes first more encoded (e ∷ events) =
      elim (marshal_federation_event_batch (first ∷ (more ++ (e ∷ []))) max_bytes) [
        | err x ↦ if is_conflict x then ok (more, encoded, e ∷ events) else err x
        | ok larger ↦ grow max_bytes first (more ++ (e ∷ [])) larger events
      ]

  -- The outer loop; each round takes at least one event.
  unfoldable pub batches : ℕ → Link → List EventEnvelope → Result Error (List SaveBundleParams)
  batches zero link events = ok []
  batches (suc fuel) link [] = ok []
  batches (suc fuel) link (first ∷ events) =
      elim (marshal_federation_event_batch (first ∷ []) link.max_bundle_bytes) [
        | err x ↦ elim (is_conflict x && is_ultra_constrained link.delivery_class) [
          | true ↦ batches fuel link events
          | false ↦ err x
        ]
        | ok encoded ↦ elim (grow link.max_bundle_bytes first [] encoded events) [
          | err x ↦ err x
          | ok (more, (payload, compression), rest) ↦ do
            params ← batches fuel link rest
            ok (
                batch_params first.sequence (last_sequence first more) (length more + 1) payload
                  compression
                ∷ params)
        ]
      ]

  -- It is called for some events: the worker returns before where there are none.
  unfoldable pub empty_federation_event_batch :
      List EventEnvelope → ℤ → Result Error (List SaveBundleParams)
  empty_federation_event_batch [] max_bytes = ok []
  empty_federation_event_batch (first ∷ events) max_bytes = do
    (payload, compression) ← marshal_federation_event_batch [] max_bytes
    ok (batch_params first.sequence (last_sequence first events) 0 payload compression ∷ [])

  unfoldable pub build_outbound_bundles :
      (Text → Result Error Text)
      → Peer
      → Link
      → List EventEnvelope
      → Result Error (List SaveBundleParams)
  build_outbound_bundles kind_of peer link events = do
    carried ← carried_events kind_of peer link events
    params ← batches (length carried) link carried
    elim params [
      | [] ↦ empty_federation_event_batch events link.max_bundle_bytes
      | p ∷ ps ↦ ok (p ∷ ps)
    ]
