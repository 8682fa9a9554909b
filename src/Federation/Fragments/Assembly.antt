-- ===== src/Federation/Fragments/Assembly.antt =====
-- The fragments of a bundle that are complete carry its whole payload, in its order.
use zvonilka.Base.{
  ℕ, zero, suc, ◌+◌, ◌≤◌, ℤ, pos, List, [], ◌∷◌, length, drop, arith, ◌≡◌, refl, All, true,
  get_elem?, get_elem?-lt, drop-get_elem?, leb_ℤ, ok, some, ap, ◌∙◌, sym, Result-cases, inl, inr,
}
use zvonilka.Federation.Models.{Bytes, BundleFragment, FragmentState}
use zvonilka.Federation.Fragments.{
  split_payload, validate_from, validate_fragment_set, insert_by_index, sort_by_index,
  ordered_complete, fragments_complete, assembled_payload,
}
use zvonilka.Federation.Fragments.Split.{joined_parts, split_payload-joined}

-- An accepted fragment that carries the part of its index, out of all the parts.
pub record Carries (parts : List Bytes) (f : BundleFragment) : Type 0 where
  pub index : ℕ
  pub at_index : f.fragment_index ≡ pos index
  pub of_all : f.fragment_count ≡ pos (length parts)
  pub part : get_elem? parts index ≡ some f.payload
  pub accepted : f.state ≡ FragmentState.accepted

-- The order in which the store gives the fragments of a bundle.
abbrev pub Rising : List BundleFragment → Type 0
Rising [] = Unit
Rising (f ∷ []) = Unit
Rising (f ∷ g ∷ gs) = (leb_ℤ f.fragment_index g.fragment_index ≡ true) × Rising (g ∷ gs)

pub sort_by_index-Rising : (fs : List BundleFragment) → Rising fs → sort_by_index fs ≡ fs
unfolding sort_by_index insert_by_index
sort_by_index-Rising [] r = refl
sort_by_index-Rising (f ∷ []) r = refl
sort_by_index-Rising (f ∷ g ∷ gs) (l, r) = rw (sort_by_index-Rising (g ∷ gs) r) (ground arith)

drop-end : (n : ℕ) (parts : List Bytes) → length parts ≤ n → drop n parts ≡ []
drop-end zero [] l = refl
drop-end zero (p ∷ parts) l = ground arith
drop-end (suc n) [] l = refl
drop-end (suc n) (p ∷ parts) l = drop-end n parts (omega arith)

module _ (parts : List Bytes) where
  -- Indexes that begin at `k` or later, each larger than the one before.
  abbrev Climbs : ℕ → List BundleFragment → Type 0
  Climbs k [] = Unit
  Climbs k (f ∷ fs) = (c : Carries parts f) × (k ≤ c.index) × Climbs (suc c.index) fs

  Climbs-bound :
      (k : ℕ) (fs : List BundleFragment)
      → k ≤ length parts
      → Climbs k fs
      → k + length fs ≤ length parts
  Climbs-bound k [] l c = omega arith
  Climbs-bound k (f ∷ fs) l (c, m, rest) =
      omega
        (arith, Climbs-bound (suc c.index) fs (get_elem?-lt parts c.index f.payload c.part) rest)

  Climbs-payload :
      (k : ℕ) (fs : List BundleFragment)
      → k + length fs ≡ length parts
      → Climbs k fs
      → assembled_payload fs ≡ joined_parts (drop k parts)
  unfolding assembled_payload
  Climbs-payload k [] n c = rw (drop-end k parts (omega arith)) refl
  Climbs-payload k (f ∷ fs) n (c, m, rest) =
      let below = get_elem?-lt parts c.index f.payload c.part in
      let bound = Climbs-bound (suc c.index) fs below rest in
      let same : c.index ≡ k = omega (arith, bound) in
      let again = Climbs-payload (suc c.index) fs (omega (arith, bound)) rest in
      let step : drop k parts ≡ f.payload ∷ drop (suc k) parts =
        drop-get_elem? parts k f.payload (ap (get_elem? parts) (sym same) ∙ c.part) in
      let later : assembled_payload fs ≡ joined_parts (drop (suc k) parts) =
        again ∙ ap (λ i. joined_parts (drop (suc i) parts)) same in
      rw (step, later) refl

  validate_from-Climbs :
      (first f : BundleFragment) (seen : List ℤ) (fs : List BundleFragment) (c : Carries parts f)
      → All (Carries parts) fs
      → Rising (f ∷ fs)
      → validate_from first (f.fragment_index ∷ seen) fs ≡ ok tt
      → Climbs (suc c.index) fs
  unfolding validate_from
  validate_from-Climbs first f seen [] c cs r v = tt
  validate_from-Climbs first f seen (g ∷ gs) c (d, ds) (l, r) v =
      let larger : suc c.index ≤ d.index = ground arith in
      (d, larger, validate_from-Climbs first g (f.fragment_index ∷ seen) gs d ds r (ground arith))

  assembled_payload-joined :
      (fs : List BundleFragment)
      → All (Carries parts) fs
      → Rising fs
      → fragments_complete fs ≡ ok true
      → assembled_payload fs ≡ joined_parts parts
  unfolding fragments_complete ordered_complete validate_fragment_set validate_from
  assembled_payload-joined [] cs r h = ground arith
  assembled_payload-joined (f ∷ fs) (c, cs) r h =
      let sorted = sort_by_index-Rising (f ∷ fs) r in
      let whole : ordered_complete (length (f ∷ fs)) (f ∷ fs) ≡ ok true =
        ap (ordered_complete (length (f ∷ fs))) (sym sorted) ∙ h in
      let size : length (f ∷ fs) ≡ length parts = ground (arith, c.of_all) in
      let valid : validate_from f (f.fragment_index ∷ []) fs ≡ ok tt =
        elim (Result-cases (validate_from f (f.fragment_index ∷ []) fs)) [
          | inl (u, q) ↦ q
          | inr (e, q) ↦ ground (arith, c.accepted)
        ] in
      Climbs-payload 0 (f ∷ fs) (omega (arith, size))
        (c, omega arith, validate_from-Climbs f f [] fs c cs r valid)

-- Fragments of a split payload that are accepted, stand in the order of their indexes and are judged
-- complete are assembled to that payload, in whatever order they came and whatever the limit was.
pub assembled_payload-split :
    (payload : Bytes) (max_bytes : ℤ) (fs : List BundleFragment)
    → All (Carries (split_payload payload max_bytes)) fs
    → Rising fs
    → fragments_complete fs ≡ ok true
    → assembled_payload fs ≡ payload
assembled_payload-split payload max_bytes fs cs r h =
    assembled_payload-joined (split_payload payload max_bytes) fs cs r h
    ∙ split_payload-joined payload max_bytes
