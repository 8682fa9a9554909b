-- ===== src/Federation/Submissions/Keyed.antt =====
-- The store's map of fragments, each under its id, and the fragments that are settled in it.
use zvonilka.Base.{
  refl, sym, ap, ◌∙◌, ◌&&◌, ◌≡◌, [], ◌∷◌, true, false, none, some, arith, IsTrimmed, Text, Bool,
  trim_space, All, Bool-cases, text_eq_iff, text_eq, inr, inl,
}
use zvonilka.Base.Dict
use zvonilka.Base.Dict.{Dict, get-put}
use zvonilka.Federation.Leases.{fragments}
use zvonilka.Federation.Models.{BundleFragment}
use zvonilka.Federation.Store.{MemoryStore}
use zvonilka.Federation.BundleRows.{is_inbound}
use zvonilka.Federation.Fragments.{is_closed}

abbrev pub IsKeyed : Dict BundleFragment → Type 0
IsKeyed [] = Unit
IsKeyed ((id, f) ∷ m) = (f.id ≡ id) × IsTrimmed id × (Dict.get m id ≡ none) × IsKeyed m

pub IsKeyed-put :
    (m : Dict BundleFragment) (k : Text) (f : BundleFragment)
    → IsKeyed m
    → f.id ≡ k
    → IsTrimmed k
    → IsKeyed (Dict.put m k f)
unfolding Dict.put Dict.get
IsKeyed-put [] k f i e t = (e, t, refl, tt)
IsKeyed-put ((j, g) ∷ m) k f (own, trimmed, new, i) e t = elim (Bool-cases (text_eq j k)) [
  | inl same ↦
      let equal = (text_eq_iff j k).0 same in rw same (e, t, ap (Dict.get m) (sym equal) ∙ new, i)
  | inr other ↦ rw other (
    own,
    trimmed,
    ground (arith, get-put m k j f, text_eq_iff k j, text_eq_iff j k),
    IsKeyed-put m k f i e t,
  )
]

pub IsKeyed-own :
    (m : Dict BundleFragment) (k : Text) (f : BundleFragment)
    → IsKeyed m
    → Dict.get m k ≡ some f
    → (f.id ≡ k) × IsTrimmed k
unfolding Dict.get
IsKeyed-own [] k f i h = ground arith
IsKeyed-own ((j, g) ∷ m) k f (own, trimmed, new, i) h = elim (Bool-cases (text_eq j k)) [
  | inl same ↦ ground (arith, text_eq_iff j k)
  | inr other ↦ IsKeyed-own m k f i (ground arith)
]

-- What holds of each fragment that is found under its id holds of all the fragments.
pub fragments-All :
    (P : BundleFragment → Type 0) (m : Dict BundleFragment)
    → IsKeyed m
    → ((f : BundleFragment) → Dict.get m f.id ≡ some f → IsTrimmed f.id → P f)
    → All P (fragments m)
unfolding fragments Dict.get
fragments-All P [] i p = tt
fragments-All P ((j, g) ∷ m) (own, trimmed, new, i) p = (
  p g (ground (arith, text_eq_iff j g.id)) (rw own trimmed),
  fragments-All P m i (λ f found. p f (ground (arith, text_eq_iff j f.id, new))),
)

abbrev pub is_final : BundleFragment → Bool
is_final f = is_inbound f.direction && is_closed f.state

-- The fragments of `t` are under their ids, and each that is settled in `s` stands in `t` as it was.
pub record Keeps (s t : MemoryStore) : Type 0 where
  pub keyed : IsKeyed t.fragments_by_id
  pub settled :
      (k : Text) (g : BundleFragment)
      → Dict.get s.fragments_by_id k ≡ some g
      → is_final g ≡ true
      → Dict.get t.fragments_by_id k ≡ some g

pub Keeps-same :
    (s t u : MemoryStore) → Keeps s t → u.fragments_by_id ≡ t.fragments_by_id → Keeps s u
Keeps-same s t u k e = record {
  keyed = rw e k.keyed;
  settled = λ id g found closed. ap (λ m. Dict.get m id) e ∙ k.settled id g found closed;
}

-- A write under the id of `f` hits no settled fragment.
abbrev pub IsFree : MemoryStore → Text → Type 0
IsFree s id = (g : BundleFragment) → Dict.get s.fragments_by_id id ≡ some g → is_final g ≡ false

pub Keeps-put :
    (s t u : MemoryStore) (f : BundleFragment)
    → Keeps s t
    → IsTrimmed f.id
    → IsFree s f.id
    → u.fragments_by_id ≡ Dict.put t.fragments_by_id f.id f
    → Keeps s u
Keeps-put s t u f k trimmed free e = record {
  keyed = rw e (IsKeyed-put t.fragments_by_id f.id f k.keyed refl trimmed);
  settled = λ id g found closed. rw e (
      ground (
        arith,
        get-put t.fragments_by_id f.id id f,
        text_eq_iff f.id id,
        free g,
        k.settled id g found closed,
      ));
}

-- A fragment that the store has is settled, or a write under its id hits no settled one.
abbrev pub IsWritable : MemoryStore → BundleFragment → Type 0
IsWritable s f = is_final f ≡ false → IsFree s (trim_space f.id)

pub Keeps-IsWritable :
    (s t : MemoryStore) → Keeps s t → All (IsWritable s) (fragments t.fragments_by_id)
Keeps-IsWritable s t k =
    fragments-All (IsWritable s) t.fragments_by_id k.keyed (λ f found trimmed unsettled g h.
      elim (Bool-cases (is_final g)) [
        | inr no' ↦ no'
        | inl closed ↦
            let here =
              k.settled f.id g (ap (Dict.get s.fragments_by_id) (sym trimmed) ∙ h) closed in
            ground arith
      ])
