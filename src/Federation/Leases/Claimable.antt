-- ===== src/Federation/Leases/Claimable.antt =====
-- The question whether there is more agrees with what a claim would take, and a lease excludes others.
use zvonilka.Base.{
  zero, suc, Time, Bool, true, false, List, [], ◌∷◌, take, keep, any, map, arith, ◌≡◌, ok, or_now,
  is_positive, is_zero, ℕ, pos_part, leb, refl, ◌<◌, ap, suc, sym, ◌∙◌, Text,
}
use zvonilka.Base.Dict.{Dict}
use zvonilka.Federation.Models.{BundleFragment}
use zvonilka.Federation.Leases.{
  ClaimFragmentsParams, is_claimable, is_free, is_on_link, insert_by, sort_by, goes_first,
  fragments, claimed_under, claim_fragments, has_claimable_fragments, can_be_claimed,
  finds_claimable,
}

-- Whether a list has an element.
abbrev pub is_some : List BundleFragment → Bool
is_some [] = false
is_some (f ∷ fs) = true

is_some-keep :
    (p : BundleFragment → Bool) (fs : List BundleFragment) → is_some (keep p fs) ≡ any p fs
is_some-keep p [] = refl
is_some-keep p (f ∷ fs) = ground (arith, is_some-keep p fs)

is_some-insert_by :
    (less : BundleFragment → BundleFragment → Bool) (f : BundleFragment) (fs : List BundleFragment)
    → is_some (insert_by less f fs) ≡ true
unfolding insert_by
is_some-insert_by less f [] = refl
is_some-insert_by less f (g ∷ gs) = ground arith

is_some-sort_by :
    (less : BundleFragment → BundleFragment → Bool) (fs : List BundleFragment)
    → is_some (sort_by less fs) ≡ is_some fs
unfolding sort_by
is_some-sort_by less [] = refl
is_some-sort_by less (f ∷ fs) = is_some-insert_by less f (sort_by less fs)

is_some-claimed_under :
    (params : ClaimFragmentsParams) (n : ℕ) (fs : List BundleFragment)
    → 0 < n
    → is_some (map (claimed_under params) (take n fs)) ≡ is_some fs
is_some-claimed_under params zero fs l = ground arith
is_some-claimed_under params (suc n) [] l = refl
is_some-claimed_under params (suc n) (f ∷ fs) l = refl

-- The two switches on the state agree.
can_be_claimed-is_free : (now : Time) (f : BundleFragment) → can_be_claimed now f ≡ is_free now f
unfolding can_be_claimed is_free
can_be_claimed-is_free now f = ground arith

finds_claimable-any :
    (peer_id link_id : Text) (now : Time) (fs : List BundleFragment)
    → finds_claimable peer_id link_id now fs ≡ any (is_claimable peer_id link_id now) fs
unfolding finds_claimable
finds_claimable-any peer_id link_id now [] = refl
finds_claimable-any peer_id link_id now (f ∷ fs) =
    ground (arith, finds_claimable-any peer_id link_id now fs, can_be_claimed-is_free now f)

-- A claim under a positive limit that is not refused takes a fragment exactly where the store says, for
-- the same link and time, that there is one to claim.
pub claim_fragments-has_claimable :
    (s t : Dict BundleFragment) (clock : Time) (params : ClaimFragmentsParams)
    (taken : List BundleFragment)
    → is_positive params.limit ≡ true
    → claim_fragments s clock params ≡ ok (taken, t)
    → is_some taken
      ≡ has_claimable_fragments s clock params.peer_id params.link_id params.claimed_at
unfolding claim_fragments has_claimable_fragments
claim_fragments-has_claimable s t clock params taken p h =
    let now = or_now params.claimed_at clock in
    let free = keep (is_claimable params.peer_id params.link_id now) (fragments s) in
    let n = pos_part params.limit in
    let same : map (claimed_under params) (take n (sort_by goes_first free)) ≡ taken =
      ground arith in
    ap is_some (sym same)
    ∙ is_some-claimed_under params n (sort_by goes_first free) (ground arith)
    ∙ is_some-sort_by goes_first free
    ∙ is_some-keep (is_claimable params.peer_id params.link_id now) (fragments s)
    ∙ sym (finds_claimable-any params.peer_id params.link_id now (fragments s))

-- What was claimed under a lease that has an end can be claimed again, by anyone on its link, from
-- that end on and not before.
pub claimed_under-is_claimable :
    (params : ClaimFragmentsParams) (f : BundleFragment) (later : Time)
    → is_on_link params.peer_id params.link_id f ≡ true
    → is_zero params.lease_expires_at ≡ false
    → is_claimable params.peer_id params.link_id later (claimed_under params f)
      ≡ leb params.lease_expires_at later
unfolding claimed_under is_free
claimed_under-is_claimable params f later l z = ground arith
