-- ===== src/Federation/Leases.antt =====
-- The claims of outbound fragments and their acknowledgement, in internal/domain/federation/teststore/
-- store.go.
pub mod Claimable
pub mod Acknowledged
use zvonilka.Base.{
  zero, suc, ℕ, ℤ, pos, pos_part, ◌+◌, Text, Time, Bool, true, false, not, ◌&&◌, ◌||◌,
  if◌then◌else◌, List, [], ◌∷◌, map, take, keep, any, is_positive, is_empty, is_zero, before,
  or_now, text_eq, ◌==◌, ltb, ltb_ℤ, eqb_ℤ, Result, ok, err, ◌>>=◌, ◌>>◌, refuse_if, negsuc, suc,
}
use zvonilka.Base.Dict.{Dict}
use zvonilka.Base.Dict
use zvonilka.Notification.Routing.{text_lt}
use zvonilka.Federation.Models.{
  Error, invalid_input, BundleDirection, FragmentState, BundleFragment,
}

pub record ClaimFragmentsParams : Type 0 where
  pub peer_id : Text
  pub link_id : Text
  pub limit : ℤ
  pub claimed_at : Time
  pub lease_token : Text
  pub lease_expires_at : Time

pub record AcknowledgeFragmentsParams : Type 0 where
  pub peer_id : Text
  pub link_id : Text
  pub fragment_ids : List Text
  pub lease_token : Text
  pub acknowledged_at : Time

abbrev pub is_outbound : BundleDirection → Bool
is_outbound BundleDirection.outbound = true
is_outbound _ = false

-- A queued fragment is free once it is available, and a claimed one once its lease has run out.
unfoldable pub is_free : Time → BundleFragment → Bool
is_free claimed_at f = elim f.state [
  | FragmentState.queued ↦ not (before claimed_at f.available_at)
  | FragmentState.claimed ↦ not (is_zero f.lease_expires_at || before claimed_at f.lease_expires_at)
  | _ ↦ false
]

abbrev pub is_on_link : Text → Text → BundleFragment → Bool
is_on_link peer_id link_id f =
    text_eq f.peer_id peer_id && text_eq f.link_id link_id && is_outbound f.direction

abbrev pub is_claimable : Text → Text → Time → BundleFragment → Bool
is_claimable peer_id link_id claimed_at f = is_on_link peer_id link_id f && is_free claimed_at f

-- The order of a claim: availability, then the cursor, the bundle and the index.
unfoldable pub goes_first : BundleFragment → BundleFragment → Bool
goes_first f g =
    if f.available_at == g.available_at
    then (if f.cursor_to == g.cursor_to
        then (if text_eq f.bundle_id g.bundle_id
            then ltb_ℤ f.fragment_index g.fragment_index
            else text_lt f.bundle_id g.bundle_id)
        else ltb f.cursor_to g.cursor_to)
    else before f.available_at g.available_at

unfoldable pub insert_by :
    (BundleFragment → BundleFragment → Bool)
    → BundleFragment
    → List BundleFragment
    → List BundleFragment
insert_by less f [] = f ∷ []
insert_by less f (g ∷ gs) =
    let rest = insert_by less f gs in if less g f then g ∷ rest else f ∷ g ∷ gs

-- sort.Slice
unfoldable pub sort_by :
    (BundleFragment → BundleFragment → Bool) → List BundleFragment → List BundleFragment
sort_by less [] = []
sort_by less (f ∷ fs) = insert_by less f (sort_by less fs)

unfoldable pub fragments : Dict BundleFragment → List BundleFragment
fragments [] = []
fragments ((id, f) ∷ s) = f ∷ fragments s

abbrev pub succ_ℤ : ℤ → ℤ
succ_ℤ (pos n) = pos (n + 1)
succ_ℤ (negsuc zero) = pos 0
succ_ℤ (negsuc (suc n)) = negsuc n

unfoldable pub claimed_under : ClaimFragmentsParams → BundleFragment → BundleFragment
claimed_under params f = record f {
  state = FragmentState.claimed;
  lease_token = params.lease_token;
  lease_expires_at = params.lease_expires_at;
  attempt_count = succ_ℤ f.attempt_count;
}

unfoldable pub put_fragments : Dict BundleFragment → List BundleFragment → Dict BundleFragment
put_fragments s [] = s
put_fragments s (f ∷ fs) = put_fragments (Dict.put s f.id f) fs

unfoldable pub claim_fragments :
    Dict BundleFragment
    → Time
    → ClaimFragmentsParams
    → Result Error (List BundleFragment × Dict BundleFragment)
claim_fragments s clock params = if not (is_positive params.limit) then ok ([], s) else do
  refuse_if
      (is_empty params.peer_id
        || is_empty params.link_id
        || is_empty params.lease_token
        || is_zero params.lease_expires_at)
      invalid_input
  let now = or_now params.claimed_at clock
  let free = keep (is_claimable params.peer_id params.link_id now) (fragments s)
  let first = map (claimed_under params) (take (pos_part params.limit) (sort_by goes_first free))
  ok (first, put_fragments s first)

-- The switch of HasClaimableFragments, which a claim does not share.
unfoldable pub can_be_claimed : Time → BundleFragment → Bool
can_be_claimed claimed_at f = elim f.state [
  | FragmentState.queued ↦ not (before claimed_at f.available_at)
  | FragmentState.claimed ↦
      not (is_zero f.lease_expires_at) && not (before claimed_at f.lease_expires_at)
  | _ ↦ false
]

-- The loop of HasClaimableFragments, which ends at the first fragment that passes.
unfoldable pub finds_claimable : Text → Text → Time → List BundleFragment → Bool
finds_claimable peer_id link_id claimed_at [] = false
finds_claimable peer_id link_id claimed_at (f ∷ fs) =
    let rest = finds_claimable peer_id link_id claimed_at fs in
    if not (text_eq f.peer_id peer_id) || not (text_eq f.link_id link_id)
    then rest
    else if not (is_outbound f.direction)
    then rest
    else if can_be_claimed claimed_at f
    then true
    else rest

unfoldable pub has_claimable_fragments : Dict BundleFragment → Time → Text → Text → Time → Bool
has_claimable_fragments s clock peer_id link_id claimed_at =
    finds_claimable peer_id link_id (or_now claimed_at clock) (fragments s)

abbrev pub is_claimed : FragmentState → Bool
is_claimed FragmentState.claimed = true
is_claimed _ = false

-- The fragments that an acknowledgement is about: claimed, under its lease, and selected by their
-- ids.
unfoldable pub is_selected : AcknowledgeFragmentsParams → Text → BundleFragment → Bool
is_selected params id f =
    is_on_link params.peer_id params.link_id f
    && is_claimed f.state
    && text_eq f.lease_token params.lease_token
    && not (is_empty id)
    && any (text_eq id) params.fragment_ids

unfoldable pub acknowledged_by : AcknowledgeFragmentsParams → BundleFragment → BundleFragment
acknowledged_by params f = record f {
  state = FragmentState.acknowledged;
  lease_token = [];
  lease_expires_at = 0;
  acked_at = params.acknowledged_at;
}

-- The loop over the fragments: those that it updated, and the store after it.
unfoldable pub acknowledge_each :
    AcknowledgeFragmentsParams → Dict BundleFragment → List BundleFragment × Dict BundleFragment
acknowledge_each params [] = ([], [])
acknowledge_each params ((id, f) ∷ s) =
    let (updated, t) = acknowledge_each params s in
    if is_selected params id f
    then (acknowledged_by params f ∷ updated, (id, acknowledged_by params f) ∷ t)
    else (updated, (id, f) ∷ t)

abbrev pub bundle_order : BundleFragment → BundleFragment → Bool
bundle_order f g =
    if text_eq f.bundle_id g.bundle_id
    then ltb_ℤ f.fragment_index g.fragment_index
    else text_lt f.bundle_id g.bundle_id

unfoldable pub acknowledge_fragments :
    Dict BundleFragment → AcknowledgeFragmentsParams → List BundleFragment × Dict BundleFragment
acknowledge_fragments s params =
    let (updated, t) = acknowledge_each params s in (sort_by bundle_order updated, t)
