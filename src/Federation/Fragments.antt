-- ===== src/Federation/Fragments.antt =====
-- internal/domain/federation/fragments.go: cutting a payload into fragments, and the tests on the
-- fragments of a bundle.
pub mod Split
pub mod Assembly
pub mod Completion
pub mod Order
use zvonilka.Base.{
  zero, suc, ℕ, ℤ, pos, pos_part, Text, Bool, true, false, not, ◌&&◌, ◌||◌, if◌then◌else◌, List, [],
  ◌∷◌, ◌++◌, length, take, drop, any, is_positive, trim_space, text_eq, eqb_ℤ, ltb_ℤ, ◌==◌, Result,
  ok, err, suc,
}
use zvonilka.Federation.Models.{
  Error, conflict, unauthorized, TransportKind, BundleDirection, CompressionKind, FragmentState,
  Bytes, BundleFragment,
}

abbrev pub is_bridge_transport : TransportKind → Bool
is_bridge_transport TransportKind.meshtastic = true
is_bridge_transport TransportKind.mesh_core = true
is_bridge_transport TransportKind.custom_dtn = true
is_bridge_transport _ = false

-- The loop of `splitPayload`, on what is left of the payload; each round takes `max_bytes` of it.
unfoldable pub split_from : ℕ → ℕ → Bytes → List Bytes
split_from zero max_bytes payload = []
split_from (suc fuel) max_bytes [] = []
split_from (suc fuel) max_bytes (b ∷ payload) =
    take max_bytes (b ∷ payload) ∷ split_from fuel max_bytes (drop max_bytes (b ∷ payload))

-- Each round takes at least one byte, so that the payload's length is fuel enough.
unfoldable pub split_payload : Bytes → ℤ → List Bytes
split_payload [] max_bytes = [] ∷ []
split_payload (b ∷ payload) max_bytes =
    let n = length (b ∷ payload) in
    split_from n (if is_positive max_bytes then pos_part max_bytes else n) (b ∷ payload)

abbrev pub direction_eq : BundleDirection → BundleDirection → Bool
direction_eq BundleDirection.unspecified BundleDirection.unspecified = true
direction_eq BundleDirection.inbound BundleDirection.inbound = true
direction_eq BundleDirection.outbound BundleDirection.outbound = true
direction_eq _ _ = false

abbrev pub compression_eq : CompressionKind → CompressionKind → Bool
compression_eq CompressionKind.unspecified CompressionKind.unspecified = true
compression_eq CompressionKind.none CompressionKind.none = true
compression_eq CompressionKind.gzip CompressionKind.gzip = true
compression_eq _ _ = false

-- The fields of the bundle, its hash and tag aside, agree.
abbrev pub same_bundle : BundleFragment → BundleFragment → Bool
same_bundle f g =
    text_eq f.peer_id g.peer_id
    && text_eq f.link_id g.link_id
    && text_eq f.bundle_id g.bundle_id
    && direction_eq f.direction g.direction
    && (f.cursor_from == g.cursor_from)
    && (f.cursor_to == g.cursor_to)
    && eqb_ℤ f.event_count g.event_count
    && text_eq f.payload_type g.payload_type
    && compression_eq f.compression g.compression

abbrev pub same_seal : BundleFragment → BundleFragment → Bool
same_seal f g = text_eq f.integrity_hash g.integrity_hash && text_eq f.auth_tag g.auth_tag

abbrev pub is_closed : FragmentState → Bool
is_closed FragmentState.failed = true
is_closed FragmentState.assembled = true
is_closed _ = false

abbrev pub is_accepted : FragmentState → Bool
is_accepted FragmentState.accepted = true
is_accepted _ = false

abbrev pub is_acknowledged : FragmentState → Bool
is_acknowledged FragmentState.acknowledged = true
is_acknowledged FragmentState.assembled = true
is_acknowledged _ = false

abbrev pub has_index : ℤ → BundleFragment → Bool
has_index i f = eqb_ℤ f.fragment_index i

unfoldable pub validate_inbound_fragment_candidate :
    List BundleFragment → BundleFragment → Result Error (Unit {0})
validate_inbound_fragment_candidate [] candidate = ok tt
validate_inbound_fragment_candidate (first ∷ rest) candidate =
    if not (eqb_ℤ candidate.fragment_count first.fragment_count)
    then err conflict
    else if not (same_bundle candidate first)
    then err conflict
    else if not (same_seal candidate first)
    then err unauthorized
    else if any (has_index candidate.fragment_index) (first ∷ rest)
    then err conflict
    else ok tt

-- The loop of `validateFragmentSet`; `seen` are the indexes of the fragments before.
unfoldable pub validate_from :
    BundleFragment → List ℤ → List BundleFragment → Result Error (Unit {0})
validate_from first seen [] = ok tt
validate_from first seen (f ∷ fs) =
    let rest = validate_from first (f.fragment_index ∷ seen) fs in
    if is_closed f.state
    then ok tt
    else if not (eqb_ℤ f.fragment_count first.fragment_count)
    then err conflict
    else if not (same_bundle f first && same_seal f first)
    then err conflict
    else if not (is_accepted f.state)
    then ok tt
    else if any (eqb_ℤ f.fragment_index) seen
    then err conflict
    else rest

unfoldable pub validate_fragment_set : List BundleFragment → Result Error (Unit {0})
validate_fragment_set [] = ok tt
validate_fragment_set (first ∷ rest) = validate_from first [] (first ∷ rest)

unfoldable pub insert_by_index : BundleFragment → List BundleFragment → List BundleFragment
insert_by_index f [] = f ∷ []
insert_by_index f (g ∷ gs) =
    let rest = insert_by_index f gs in
    if ltb_ℤ g.fragment_index f.fragment_index then g ∷ rest else f ∷ g ∷ gs

-- sort.Slice by the index.
unfoldable pub sort_by_index : List BundleFragment → List BundleFragment
sort_by_index [] = []
sort_by_index (f ∷ fs) = insert_by_index f (sort_by_index fs)

-- The test of `fragmentsComplete` on the ordered fragments, of which there are `count`.
unfoldable pub ordered_complete : ℕ → List BundleFragment → Result Error Bool
ordered_complete count [] = ok false
ordered_complete count (first ∷ rest) =
    let valid = validate_fragment_set (first ∷ rest) in
    if not (is_positive first.fragment_count) || not (eqb_ℤ (pos count) first.fragment_count)
    then elim valid [ err e ↦ err e | ok u ↦ ok false ]
    else elim valid [ err e ↦ err e | ok u ↦ ok true ]

unfoldable pub fragments_complete : List BundleFragment → Result Error Bool
fragments_complete fragments = ordered_complete (length fragments) (sort_by_index fragments)

abbrev pub all_acknowledged : List BundleFragment → Bool
all_acknowledged [] = true
all_acknowledged (f ∷ fs) = is_acknowledged f.state && all_acknowledged fs

unfoldable pub all_fragments_acknowledged : List BundleFragment → Bool
all_fragments_acknowledged [] = false
all_fragments_acknowledged (f ∷ fs) = all_acknowledged (f ∷ fs)

unfoldable pub is_inbound_fragment_bundle_terminal : List BundleFragment → Bool
is_inbound_fragment_bundle_terminal [] = false
is_inbound_fragment_bundle_terminal (f ∷ fs) =
    is_closed f.state || is_inbound_fragment_bundle_terminal fs

unfoldable pub contains_fragment_dedup_key : List BundleFragment → Text → Bool
contains_fragment_dedup_key fragments dedup_key =
    any (λ f. text_eq f.dedup_key (trim_space dedup_key)) fragments

-- The payload that `assembleInboundBundleIfComplete` puts together.
unfoldable pub assembled_payload : List BundleFragment → Bytes
assembled_payload [] = []
assembled_payload (f ∷ fs) = f.payload ++ assembled_payload fs
