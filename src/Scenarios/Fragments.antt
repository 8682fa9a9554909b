-- ===== src/Scenarios/Fragments.antt =====
-- A payload of five bytes in fragments of two.
use zvonilka.Base.{
  ℕ, ◌+◌, ◌*◌, ◌≤◌, ◌<◌, codes, pos, true, List, [], ◌∷◌, ok, ◌≡◌, refl, All, length, text_eq,
  arith,
}
use zvonilka.Base.Dict
use zvonilka.Base.Dict.{Dict}
use zvonilka.Federation.Models.{
  Bytes, BundleFragment, BundleDirection, CompressionKind, FragmentState,
}
use zvonilka.Federation.Fragments.{
  split_payload, split_from, fragments_complete, ordered_complete, sort_by_index, insert_by_index,
  validate_fragment_set, validate_from, assembled_payload,
}
use zvonilka.Federation.Fragments.Split.{joined_parts, split_payload-joined, split_payload-sizes}
use zvonilka.Federation.Fragments.Assembly.{Carries, assembled_payload-split}
use mathlib.Core.List.{Permᴰ}
use zvonilka.Federation.Leases.{
  ClaimFragmentsParams, AcknowledgeFragmentsParams, is_free, claimed_under, claim_fragments,
  has_claimable_fragments, acknowledge_fragments, fragments, sort_by, insert_by, put_fragments,
}
use zvonilka.Federation.Leases.Claimable.{is_some, claim_fragments-has_claimable}
use zvonilka.Federation.Leases.Acknowledged.{acknowledge_fragments-again}
use zvonilka.Federation.Fragments.Completion.{fragments_complete-AllArrived, Arrived}

abbrev payload : Bytes
payload = 1 ∷ 2 ∷ 3 ∷ 4 ∷ 5 ∷ []

three : split_payload payload (pos 2) ≡ (1 ∷ 2 ∷ []) ∷ (3 ∷ 4 ∷ []) ∷ (5 ∷ []) ∷ []
unfolding split_payload split_from
three = refl

split_payload-joined_example : joined_parts (split_payload payload (pos 2)) ≡ payload
split_payload-joined_example = split_payload-joined payload (pos 2)

split_payload-sizes_example :
    All (λ p. length p ≤ 2) (split_payload payload (pos 2))
    × (length payload ≤ length (split_payload payload (pos 2)) * 2)
    × (length (split_payload payload (pos 2)) * 2 < length payload + 2)
split_payload-sizes_example = split_payload-sizes payload (pos 2) (omega arith) refl

abbrev fragment : ℕ → Bytes → BundleFragment
fragment index part = record {
  id = codes "f";
  peer_id = codes "peer";
  link_id = codes "link";
  bundle_id = codes "b";
  dedup_key = codes "k";
  direction = BundleDirection.inbound;
  cursor_from = 1;
  cursor_to = 2;
  event_count = pos 1;
  payload_type = codes "events";
  compression = CompressionKind.none;
  integrity_hash = codes "h";
  auth_tag = codes "t";
  fragment_index = pos index;
  fragment_count = pos 3;
  payload = part;
  state = FragmentState.accepted;
  lease_token = [];
  lease_expires_at = 0;
  attempt_count = pos 0;
  created_at = 10;
  available_at = 10;
  acked_at = 0;
}

abbrev all_three : List BundleFragment
all_three = fragment 0 (1 ∷ 2 ∷ []) ∷ fragment 1 (3 ∷ 4 ∷ []) ∷ fragment 2 (5 ∷ []) ∷ []

complete : fragments_complete all_three ≡ ok true
unfolding fragments_complete ordered_complete sort_by_index insert_by_index validate_fragment_set
    validate_from text_eq
complete = refl

arrived : (n : ℕ) (part : Bytes) → Arrived (fragment 0 (1 ∷ 2 ∷ [])) 3 n (fragment n part)
unfolding text_eq
arrived n part = record {
  at_index = refl;
  of_all = refl;
  accepted = refl;
  bundle = refl;
  seal = refl;
}

-- The same three as they came: the last first, then the first.
abbrev as_came : List BundleFragment
as_came = fragment 2 (5 ∷ []) ∷ fragment 0 (1 ∷ 2 ∷ []) ∷ fragment 1 (3 ∷ 4 ∷ []) ∷ []

as_came-perm : Permᴰ as_came all_three
as_came-perm = Permᴰ.trans (Permᴰ.swap refl refl) (Permᴰ.cons refl (Permᴰ.swap refl refl))

fragments_complete-AllArrived_example : fragments_complete as_came ≡ ok true
fragments_complete-AllArrived_example =
    fragments_complete-AllArrived (fragment 0 (1 ∷ 2 ∷ []))
      (fragment 1 (3 ∷ 4 ∷ []) ∷ fragment 2 (5 ∷ []) ∷ []) as_came
      (arrived 0 (1 ∷ 2 ∷ []), (arrived 1 (3 ∷ 4 ∷ []), (arrived 2 (5 ∷ []), tt))) as_came-perm

carried : All (Carries (split_payload payload (pos 2))) all_three
unfolding split_payload split_from
carried = (
  record { index = 0; at_index = refl; of_all = refl; part = refl; accepted = refl },
  (
    record { index = 1; at_index = refl; of_all = refl; part = refl; accepted = refl },
    (record { index = 2; at_index = refl; of_all = refl; part = refl; accepted = refl }, tt),
  ),
)

assembled_payload-split_example : assembled_payload all_three ≡ payload
assembled_payload-split_example =
    assembled_payload-split payload (pos 2) all_three carried (refl, (refl, tt)) complete

-- The same fragments on their way out.
abbrev outgoing : BundleFragment
outgoing = record (fragment 0 (1 ∷ 2 ∷ [])) {
  direction = BundleDirection.outbound;
  state = FragmentState.queued;
}

abbrev store : Dict BundleFragment
store = (codes "f", outgoing) ∷ []

abbrev ask : ClaimFragmentsParams
ask = record {
  peer_id = codes "peer";
  link_id = codes "link";
  limit = pos 4;
  claimed_at = 20;
  lease_token = codes "lease";
  lease_expires_at = 50;
}

claimed_first :
    claim_fragments store 20 ask
    ≡ ok (claimed_under ask outgoing ∷ [], (codes "f", claimed_under ask outgoing) ∷ [])
unfolding claim_fragments claimed_under is_free fragments sort_by insert_by put_fragments text_eq
    Dict.put
claimed_first = refl

claim_fragments-has_claimable_example :
    is_some (claimed_under ask outgoing ∷ [])
    ≡ has_claimable_fragments store 20 (codes "peer") (codes "link") 20
claim_fragments-has_claimable_example =
    claim_fragments-has_claimable store ((codes "f", claimed_under ask outgoing) ∷ []) 20 ask
      (claimed_under ask outgoing ∷ []) refl claimed_first

abbrev receipt : AcknowledgeFragmentsParams
receipt = record {
  peer_id = codes "peer";
  link_id = codes "link";
  fragment_ids = codes "f" ∷ [];
  lease_token = codes "lease";
  acknowledged_at = 30;
}

acknowledge_fragments-again_example :
    acknowledge_fragments
      (acknowledge_fragments ((codes "f", claimed_under ask outgoing) ∷ []) receipt).1
      receipt
    ≡ ([], (acknowledge_fragments ((codes "f", claimed_under ask outgoing) ∷ []) receipt).1)
acknowledge_fragments-again_example =
    acknowledge_fragments-again receipt ((codes "f", claimed_under ask outgoing) ∷ [])
