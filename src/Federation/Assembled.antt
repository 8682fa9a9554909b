-- ===== src/Federation/Assembled.antt =====
-- internal/domain/federation/fragments.go: an inbound bundle from its fragments.
use zvonilka.Base.{
  true, false, ok, err, ◌++◌, [], ◌∷◌, Text, Time, List, codes, Bool, Option, if◌then◌else◌,
  trim_space, none, some,
}
use zvonilka.Federation.Models.{Bundle, Error, BundleFragment, FragmentState, BundleDirection}
use zvonilka.Federation.Replication.{Outcome}
use zvonilka.Federation.Security.{Digests}
use zvonilka.Federation.Store.{MemoryStore}
use zvonilka.Federation.Params.{SaveBundleParams}
use zvonilka.Federation.Fragments.{
  assembled_payload, is_inbound_fragment_bundle_terminal, fragments_complete,
}
use zvonilka.Federation.Bridge.{after_quarantine, and_then}
use zvonilka.Federation.FragmentRows.{save_fragment_row, fragments_by_bundle}
use zvonilka.Federation.Bundles.{accept_inbound_bundle}
use zvonilka.Federation.Parts.{with_found}

unfoldable pub assembled_bundle_dedup_key : Text → Text
assembled_bundle_dedup_key bundle_id = codes "bridge_bundle:" ++ trim_space bundle_id

abbrev pub assembled_params : Text → Text → BundleFragment → List BundleFragment → SaveBundleParams
assembled_params peer_id link_id first fragments = record {
  peer_id = peer_id;
  link_id = link_id;
  dedup_key = assembled_bundle_dedup_key first.bundle_id;
  direction = BundleDirection.inbound;
  cursor_from = first.cursor_from;
  cursor_to = first.cursor_to;
  event_count = first.event_count;
  payload_type = first.payload_type;
  payload = assembled_payload fragments;
  compression = first.compression;
  integrity_hash = first.integrity_hash;
  auth_tag = first.auth_tag;
  available_at = first.available_at;
  expires_at = 0;
}

abbrev pub is_quarantined_for : Error → Bool
is_quarantined_for Error.unauthorized = true
is_quarantined_for Error.conflict = true
is_quarantined_for Error.invalid_input = true
is_quarantined_for _ = false

unfoldable pub marked_assembled : Time → BundleFragment → BundleFragment
marked_assembled now f = record f { state = FragmentState.assembled; acked_at = now }

-- The last loop of assembleInboundBundleIfComplete.
unfoldable pub mark_assembled : MemoryStore → Time → List BundleFragment → Outcome (Unit {0})
mark_assembled s now [] = (ok tt, s)
mark_assembled s now (f ∷ fs) = elim (save_fragment_row s now (marked_assembled now f)) [
  | err e ↦ (err e, s)
  | ok (saved, s') ↦ mark_assembled s' now fs
]

-- `text_of` gives the text of an error, with what was wrapped around it, for the link's last error.
module _ (d : Digests) (text_of : Error → Text) where
  -- The fragments are complete: the bundle is accepted, or they are quarantined.
  unfoldable pub accept_assembled :
      MemoryStore
      → Time
      → Option Text
      → Text
      → Text
      → BundleFragment
      → List BundleFragment
      → Outcome (Option Bundle)
  accept_assembled s now drawn_id peer_id link_id first fragments =
      elim (accept_inbound_bundle d s now drawn_id
        (assembled_params peer_id link_id first fragments)) [
          | err e ↦
              if is_quarantined_for e
              then after_quarantine s now fragments (text_of e) e
              else (err e, s)
          | ok (b, s') ↦ and_then (mark_assembled s' now fragments) (λ u s''. (ok (some b), s''))
        ]

  -- The fragments of one bundle: `none` where they are not complete, or are settled already.
  unfoldable pub assemble_listed :
      MemoryStore → Time → Option Text → Text → Text → List BundleFragment → Outcome (Option Bundle)
  assemble_listed s now drawn_id peer_id link_id [] = (ok none, s)
  assemble_listed s now drawn_id peer_id link_id (f ∷ fs) =
      if is_inbound_fragment_bundle_terminal (f ∷ fs)
      then (ok none, s)
      else elim (fragments_complete (f ∷ fs)) [
        | err e ↦ after_quarantine s now (f ∷ fs) (text_of e) e
        | ok false ↦ (ok none, s)
        | ok true ↦ accept_assembled s now drawn_id peer_id link_id f (f ∷ fs)
      ]

  unfoldable pub assemble_inbound_bundle :
      MemoryStore → Time → Option Text → Text → Text → Text → Outcome (Option Bundle)
  assemble_inbound_bundle s now drawn_id peer_id link_id bundle_id =
      assemble_listed s now drawn_id peer_id link_id
        (fragments_by_bundle s bundle_id BundleDirection.inbound)

  -- The second loop of SubmitBridgeFragments.
  unfoldable pub assemble_each :
      MemoryStore → Time → (Text → Option Text) → Text → Text → List Text → Outcome (List Bundle)
  assemble_each s now ids peer_id link_id [] = (ok [], s)
  assemble_each s now ids peer_id link_id (bundle_id ∷ rest) =
      and_then (assemble_inbound_bundle s now (ids bundle_id) peer_id link_id bundle_id)
        (λ found s'. with_found found (assemble_each s' now ids peer_id link_id rest))
