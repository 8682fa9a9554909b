-- ===== src/Federation/Parts.antt =====
-- internal/domain/federation/fragments.go: an outbound bundle in fragments.
pub mod Whole
use zvonilka.Base.{
  refl, ◌≡◌, arith, true, false, ok, err, ◌++◌, [], ◌∷◌, Text, Time, List, ℤ, ℕ, codes, Bool,
  Option, if◌then◌else◌, trim_space, is_positive, any, pos, length, none, text_eq, some, suc, ◌≡◌,
  arith,
}
use zvonilka.Federation.Models.{
  Link, Bundle, Error, BundleFragment, Bytes, FragmentState, ReplicationCursor, BundleDirection,
}
use zvonilka.Federation.Replication.{Outcome, replication_cursor}
use zvonilka.Federation.Security.{Digests}
use zvonilka.Federation.Store.{MemoryStore}
use zvonilka.Federation.Params.{SaveFragmentParams, SaveBundleParams}
use zvonilka.Federation.Fragments.{
  split_payload, assembled_payload, is_inbound_fragment_bundle_terminal, fragments_complete,
}
use zvonilka.Federation.Bridge.{
  save_fragment, fragment_dedup_key, after_quarantine, bridge_link, and_then,
}
use zvonilka.Federation.FragmentRows.{save_fragment_row, fragments_by_bundle}
use zvonilka.Federation.Bundles.{accept_inbound_bundle}

-- The limit on the payloads of a link's fragments.
unfoldable pub part_limit : Link → ℤ
part_limit link =
    if is_positive link.max_fragment_bytes
    then link.max_fragment_bytes
    else if is_positive link.max_bundle_bytes
    then link.max_bundle_bytes
    else pos 256

abbrev pub part_params : Bundle → ℕ → ℕ → Bytes → SaveFragmentParams
part_params b index count part = record {
  peer_id = b.peer_id;
  link_id = b.link_id;
  bundle_id = b.id;
  dedup_key = fragment_dedup_key b.dedup_key index;
  direction = BundleDirection.outbound;
  cursor_from = b.cursor_from;
  cursor_to = b.cursor_to;
  event_count = b.event_count;
  payload_type = b.payload_type;
  compression = b.compression;
  integrity_hash = b.integrity_hash;
  auth_tag = b.auth_tag;
  fragment_index = pos index;
  fragment_count = pos count;
  payload = part;
  available_at = b.available_at;
}

abbrev pub with_first : {A : Type 0} → A → Outcome (List A) → Outcome (List A)
with_first a (err e, s) = (err e, s)
with_first a (ok rest, s) = (ok (a ∷ rest), s)

pub with_first-ok :
    {A : Type 0} (a : A) (o : Outcome (List A)) (as' : List A) (t : MemoryStore)
    → with_first a o ≡ (ok as', t)
    → (rest : List A) × (o ≡ (ok rest, t)) × (as' ≡ a ∷ rest)
with_first-ok a (ok rest, m) as' t h = (rest, ground arith, ground arith)
with_first-ok a (err e, m) as' t h = ground arith

abbrev pub with_found : {A : Type 0} → Option A → Outcome (List A) → Outcome (List A)
with_found none rest = rest
with_found (some a) rest = with_first a rest

-- The loop over the parts, from the one at `index`. An id is drawn for each of them.
unfoldable pub save_parts :
    MemoryStore
    → Time
    → (ℕ → Option Text)
    → Bundle
    → ℕ
    → ℕ
    → List Bytes
    → Outcome (List BundleFragment)
save_parts s now ids b count index [] = (ok [], s)
save_parts s now ids b count index (part ∷ parts) =
    and_then (save_fragment s now (ids index) (part_params b index count part))
      (λ f s'. with_first f (save_parts s' now ids b count (suc index) parts))

unfoldable pub ensure_outbound_fragments :
    MemoryStore → Time → (ℕ → Option Text) → Link → Bundle → Outcome (List BundleFragment)
ensure_outbound_fragments s now ids link b =
    let parts = split_payload b.payload (part_limit link) in
    elim (fragments_by_bundle s b.id BundleDirection.outbound) [
      | [] ↦ save_parts s now ids b (length parts) 0 parts
      | f ∷ fs ↦ (ok (f ∷ fs), s)
    ]
