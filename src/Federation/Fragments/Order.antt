-- ===== src/Federation/Fragments/Order.antt =====
-- The sort of fragments whose indexes differ gives one list, in whatever order they came.
use mathlib.Core.Path.{subst}
use mathlib.Core.List.{Permᴰ, List, ◌∷◌}
use zvonilka.Federation.Models.{BundleFragment}
use zvonilka.Federation.Fragments.{insert_by_index, sort_by_index, ltb_ℤ, eqb_ℤ}
use zvonilka.Base.{
  [], length, ◌≡◌, All, false, true, arith, sym, ap, Bool-cases, ◌∙◌, suc, inl, refl, inr,
}

-- No fragment of the list has the index of `f`.
abbrev pub Differs : BundleFragment → List BundleFragment → Type 0
Differs f gs = All (λ g. eqb_ℤ f.fragment_index g.fragment_index ≡ false) gs

abbrev pub AllDiffer : List BundleFragment → Type 0
AllDiffer [] = Unit
AllDiffer (f ∷ fs) = Differs f fs × AllDiffer fs

insert_lower-insert :
    (f g : BundleFragment) (hs : List BundleFragment)
    → ltb_ℤ f.fragment_index g.fragment_index ≡ true
    → insert_by_index f (insert_by_index g hs) ≡ insert_by_index g (insert_by_index f hs)
unfolding insert_by_index
insert_lower-insert f g [] l = ground arith
insert_lower-insert f g (h ∷ hs) l = ground (arith, insert_lower-insert f g hs l)

insert-insert :
    (f g : BundleFragment) (hs : List BundleFragment)
    → eqb_ℤ f.fragment_index g.fragment_index ≡ false
    → insert_by_index f (insert_by_index g hs) ≡ insert_by_index g (insert_by_index f hs)
insert-insert f g hs d = elim (Bool-cases (ltb_ℤ f.fragment_index g.fragment_index)) [
  | inl lower ↦ insert_lower-insert f g hs lower
  | inr not_lower ↦ sym (insert_lower-insert g f hs (ground arith))
]

Differs-perm :
    (f : BundleFragment) (gs hs : List BundleFragment) → Permᴰ gs hs → Differs f hs → Differs f gs
Differs-perm f _ _ Permᴰ.nil d = tt
Differs-perm f (a ∷ gs) (b ∷ hs) (Permᴰ.cons e p) (d, ds) = (rw e d, Differs-perm f gs hs p ds)
Differs-perm f (a ∷ b ∷ gs) _ (Permᴰ.swap e e') (d, (d', ds)) = (rw e d', (rw e' d, ds))
Differs-perm f gs hs (Permᴰ.trans {l₂ = ms} p q) ds =
    Differs-perm f gs ms p (Differs-perm f ms hs q ds)

AllDiffer-perm : (fs gs : List BundleFragment) → Permᴰ fs gs → AllDiffer gs → AllDiffer fs
AllDiffer-perm _ _ Permᴰ.nil d = tt
AllDiffer-perm (a ∷ fs) (b ∷ gs) (Permᴰ.cons e p) (d, ds) =
    (subst (λ x. Differs x fs) (sym e) (Differs-perm b fs gs p d), AllDiffer-perm fs gs p ds)
AllDiffer-perm (a ∷ b ∷ fs) (a' ∷ b' ∷ gs) (Permᴰ.swap e e') ((d, ds), (d', ds')) = (
  (rw (e, e') (ground arith), subst (λ x. Differs x fs) (sym e) d'),
  (subst (λ x. Differs x fs) (sym e') ds, ds'),
)
AllDiffer-perm fs gs (Permᴰ.trans {l₂ = ms} p q) d =
    AllDiffer-perm fs ms p (AllDiffer-perm ms gs q d)

pub sort_by_index-perm :
    (fs gs : List BundleFragment) → Permᴰ fs gs → AllDiffer gs → sort_by_index fs ≡ sort_by_index gs
unfolding sort_by_index
sort_by_index-perm _ _ Permᴰ.nil d = refl
sort_by_index-perm (a ∷ fs) (b ∷ gs) (Permᴰ.cons e p) (d, ds) =
    rw (e, sort_by_index-perm fs gs p ds) refl
sort_by_index-perm (a ∷ b ∷ fs) (a' ∷ b' ∷ gs) (Permᴰ.swap e e') ((d, ds), ds') =
    rw (e, e') (sym (insert-insert a' b' (sort_by_index gs) d))
sort_by_index-perm fs gs (Permᴰ.trans {l₂ = ms} p q) d =
    sort_by_index-perm fs ms p (AllDiffer-perm ms gs q d) ∙ sort_by_index-perm ms gs q d

pub length-perm : (fs gs : List BundleFragment) → Permᴰ fs gs → length fs ≡ length gs
length-perm _ _ Permᴰ.nil = refl
length-perm (a ∷ fs) (b ∷ gs) (Permᴰ.cons e p) = ap suc (length-perm fs gs p)
length-perm (a ∷ b ∷ fs) _ (Permᴰ.swap e e') = refl
length-perm fs gs (Permᴰ.trans {l₂ = ms} p q) = length-perm fs ms p ∙ length-perm ms gs q
