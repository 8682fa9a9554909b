-- ===== src/Federation/Fragments/Completion.antt =====
-- The fragments of a bundle that all came in are judged complete.
use zvonilka.Base.{
  ap, ◌∙◌, negsuc, ok, ◌≡◌, [], ◌∷◌, true, false, arith, refl, pos, suc, ℕ, List, ℤ, All, length,
  ltb_ℤ, any, eqb_ℤ, ◌<◌,
}
use mathlib.Core.List.{Permᴰ}
use zvonilka.Federation.Fragments.Order.{Differs, AllDiffer, sort_by_index-perm, length-perm}
use zvonilka.Federation.Models.{BundleFragment}
use zvonilka.Federation.Fragments.{
  validate_from, fragments_complete, FragmentState, ordered_complete, same_bundle,
  validate_fragment_set, same_seal, sort_by_index,
}
use zvonilka.Federation.Fragments.Assembly.{Rising, sort_by_index-Rising}

-- The accepted fragment at `index` of `count`, of one bundle with `first`.
pub record Arrived (first : BundleFragment) (count index : ℕ) (f : BundleFragment) : Type 0 where
  pub at_index : f.fragment_index ≡ pos index
  pub of_all : f.fragment_count ≡ pos count
  pub accepted : f.state ≡ FragmentState.accepted
  pub bundle : same_bundle f first ≡ true
  pub seal : same_seal f first ≡ true

-- One fragment for each index, from `index` on.
abbrev pub AllArrived : BundleFragment → ℕ → ℕ → List BundleFragment → Type 0
AllArrived first count index [] = Unit
AllArrived first count index (f ∷ fs) =
    Arrived first count index f × AllArrived first count (suc index) fs

unseen :
    (n : ℕ) (seen : List ℤ)
    → All (λ i. ltb_ℤ i (pos n) ≡ true) seen
    → any (eqb_ℤ (pos n)) seen ≡ false
unseen n [] below = refl
unseen n (i ∷ seen) (b, below) = ground (arith, unseen n seen below)

below_next :
    (n : ℕ) (seen : List ℤ)
    → All (λ i. ltb_ℤ i (pos n) ≡ true) seen
    → All (λ i. ltb_ℤ i (pos (suc n)) ≡ true) seen
below_next n [] below = tt
below_next n (pos m ∷ seen) (b, below) = (ground arith, below_next n seen below)
below_next n (negsuc m ∷ seen) (b, below) = (ground arith, below_next n seen below)

AllArrived-Rising :
    (first : BundleFragment) (count index : ℕ) (fs : List BundleFragment)
    → AllArrived first count index fs
    → Rising fs
AllArrived-Rising first count index [] a = tt
AllArrived-Rising first count index (f ∷ []) a = tt
AllArrived-Rising first count index (f ∷ g ∷ gs) (a, (b, bs)) = (
  ground (arith, a.at_index, b.at_index),
  AllArrived-Rising first count (suc index) (g ∷ gs) (b, bs),
)

validate_from-AllArrived :
    (first : BundleFragment) (count index : ℕ) (seen : List ℤ) (fs : List BundleFragment)
    → first.fragment_count ≡ pos count
    → All (λ i. ltb_ℤ i (pos index) ≡ true) seen
    → AllArrived first count index fs
    → validate_from first seen fs ≡ ok tt
unfolding validate_from
validate_from-AllArrived first count n seen [] whole below a = refl
validate_from-AllArrived first count n seen (f ∷ fs) whole below (a, rest) =
    let more : All (λ i. ltb_ℤ i (pos (suc n)) ≡ true) (f.fragment_index ∷ seen) =
      (ground (arith, a.at_index), below_next n seen below) in
    let again =
      validate_from-AllArrived first count (suc n) (f.fragment_index ∷ seen) fs whole more rest in
    let new : any (eqb_ℤ f.fragment_index) seen ≡ false = rw a.at_index (unseen n seen below) in
    let counted : eqb_ℤ f.fragment_count first.fragment_count ≡ true =
      rw (a.of_all, whole) (ground arith) in
    rw (a.accepted, counted, a.bundle, a.seal, new) again

AllArrived-Differs :
    (first f : BundleFragment) (count index next : ℕ) (fs : List BundleFragment)
    → f.fragment_index ≡ pos index
    → index < next
    → AllArrived first count next fs
    → Differs f fs
AllArrived-Differs first f count index next [] i l a = tt
AllArrived-Differs first f count index next (g ∷ gs) i l (a, rest) = (
  ground (arith, i, a.at_index),
  AllArrived-Differs first f count index (suc next) gs i (omega (arith, l)) rest,
)

AllArrived-AllDiffer :
    (first : BundleFragment) (count index : ℕ) (fs : List BundleFragment)
    → AllArrived first count index fs
    → AllDiffer fs
AllArrived-AllDiffer first count index [] a = tt
AllArrived-AllDiffer first count index (f ∷ fs) (a, rest) = (
  AllArrived-Differs first f count index (suc index) fs a.at_index (omega arith) rest,
  AllArrived-AllDiffer first count (suc index) fs rest,
)

ordered_complete-AllArrived :
    (first : BundleFragment) (fs : List BundleFragment)
    → AllArrived first (length (first ∷ fs)) 0 (first ∷ fs)
    → ordered_complete (length (first ∷ fs)) (first ∷ fs) ≡ ok true
unfolding ordered_complete validate_fragment_set
ordered_complete-AllArrived first fs (a, rest) =
    let all = first ∷ fs in
    let valid : validate_fragment_set all ≡ ok tt =
      validate_from-AllArrived first (length all) 0 [] all a.of_all tt (a, rest) in
    ground (arith, a.of_all, valid)

-- Fragments of one bundle, accepted, one for each index from 0 and each with the number of all, are
-- judged complete in whatever order they stand in the list, so that the bundle does not wait for more.
pub fragments_complete-AllArrived :
    (first : BundleFragment) (fs came : List BundleFragment)
    → AllArrived first (length (first ∷ fs)) 0 (first ∷ fs)
    → Permᴰ came (first ∷ fs)
    → fragments_complete came ≡ ok true
unfolding fragments_complete
fragments_complete-AllArrived first fs came a p =
    let all = first ∷ fs in
    let n = length all in
    let sorted : sort_by_index came ≡ all =
      sort_by_index-perm came all p (AllArrived-AllDiffer first n 0 all a)
      ∙ sort_by_index-Rising all (AllArrived-Rising first n 0 all a) in
    ap (λ m. ordered_complete m (sort_by_index came)) (length-perm came all p)
    ∙ ap (ordered_complete n) sorted
    ∙ ordered_complete-AllArrived first fs a
