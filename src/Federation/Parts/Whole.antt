-- ===== src/Federation/Parts/Whole.antt =====
-- A bundle that is cut into fragments is whole again when their payloads are joined.
use zvonilka.Base.{
  some, none, ◌∙◌, ◌∷◌, suc, false, refl, ℤ, true, pos, negsuc, ok, ◌≡◌, ℕ, eqb_ℤ, arith, Time,
  Result-cases, inr, inl, text_eq_iff, List, Option, Text, trim_space, [], length,
}
use zvonilka.Federation.FragmentRows.{
  save_fragment_row, normalize_fragment, over_or_put, save_over, defaulted_fragment,
  fragment_of_dedup, fragments_by_bundle,
}
use zvonilka.Federation.Models.{BundleFragment, Bytes, Bundle, Link, BundleDirection}
use zvonilka.Federation.Store.{MemoryStore, link_by_id, drawn}
use zvonilka.Federation.Bridge.{save_fragment, admitted_fragment, new_fragment, and_then-ok}
use zvonilka.Federation.Parts.{
  ensure_outbound_fragments, save_parts, SaveFragmentParams, part_params, with_first, with_first-ok,
  part_limit,
}
use zvonilka.Federation.Fragments.{assembled_payload, split_payload}
use zvonilka.Federation.Fragments.Split.{joined_parts, split_payload-joined}
use zvonilka.Federation.BundleRows.{is_inbound}

eqb_ℤ_pos : (a : ℤ) (n : ℕ) → eqb_ℤ a (pos n) ≡ true → a ≡ pos n
eqb_ℤ_pos (pos m) n h = ground arith
eqb_ℤ_pos (negsuc m) n h = ground arith

-- What one fragment carries: its part, and its place among `count`.
abbrev pub IsPart : ℕ → ℕ → Bytes → BundleFragment → Type 0
IsPart count index part f =
    (f.payload ≡ part) × (f.fragment_index ≡ pos index) × (f.fragment_count ≡ pos count)

pub normalize_fragment-row :
    (f row : BundleFragment) (now : Time)
    → normalize_fragment f now ≡ ok row
    → row ≡ defaulted_fragment f now
unfolding normalize_fragment
normalize_fragment-row f row now h = ground arith

-- Whether the row is new or one that was kept, it carries what was saved.
save_fragment_row-IsPart :
    (s t : MemoryStore) (now : Time) (f saved : BundleFragment) (count index : ℕ) (part : Bytes)
    → IsPart count index part f
    → save_fragment_row s now f ≡ ok (saved, t)
    → IsPart count index part saved
unfolding save_fragment_row over_or_put save_over defaulted_fragment
save_fragment_row-IsPart s t now f saved count index part p h =
    elim (Result-cases (normalize_fragment f now)) [
      | inr (e, q) ↦ ground arith
      | inl (row, q) ↦
          let same = normalize_fragment-row f row now q in
          let own : IsPart count index part row = rw same p in
          elim (Result-cases (link_by_id s row.link_id)) [
            | inr (e, r) ↦ ground arith
            | inl (link, r) ↦ elim (Result-cases (fragment_of_dedup s row.dedup_key)) [
              | inr (e, u) ↦ ground arith
              | inl ((id, old), u) ↦ ground (
                arith,
                text_eq_iff old.payload row.payload,
                eqb_ℤ_pos old.fragment_index index,
                eqb_ℤ_pos old.fragment_count count,
              )
            ]
          ]
    ]

drawn-some : (id : Option Text) (name : Text) → drawn id ≡ ok name → id ≡ some name
drawn-some none name h = ground arith
drawn-some (some id) name h = ground arith

pub admitted_fragment-normal :
    (s : MemoryStore) (now : Time) (id : Option Text) (params : SaveFragmentParams)
    (f : BundleFragment)
    → admitted_fragment s now id params ≡ ok f
    → (name : Text) × (id ≡ some name) × (normalize_fragment (new_fragment params name) now ≡ ok f)
unfolding admitted_fragment
admitted_fragment-normal s now id params f h =
    elim (Result-cases (link_by_id s (trim_space params.link_id))) [
      | inr (e, q) ↦ ground arith
      | inl (link, q) ↦ elim (Result-cases (drawn id)) [
        | inr (e, r) ↦ ground arith
        | inl (name, r) ↦ (name, drawn-some id name r, ground arith)
      ]
    ]

save_fragment-IsPart :
    (s t : MemoryStore) (now : Time) (id : Option Text) (b : Bundle) (count index : ℕ)
    (part : Bytes) (saved : BundleFragment)
    → save_fragment s now id (part_params b index count part) ≡ (ok saved, t)
    → IsPart count index part saved
unfolding save_fragment admitted_fragment
save_fragment-IsPart s t now id b count index part saved h =
    elim (Result-cases (admitted_fragment s now id (part_params b index count part))) [
      | inr (e, q) ↦ ground arith
      | inl (f, q) ↦
          let (name, given, r) =
            admitted_fragment-normal s now id (part_params b index count part) f q in
          let same =
            normalize_fragment-row (new_fragment (part_params b index count part) name) f now r in
          let own : IsPart count index part f =
            rw same (unfold defaulted_fragment in ground arith) in
          let sent : is_inbound f.direction ≡ false =
            rw same (unfold defaulted_fragment in ground arith) in
          elim (Result-cases (save_fragment_row s now f)) [
            | inr (e, u) ↦ ground arith
            | inl ((row, m), u) ↦
                let kept = save_fragment_row-IsPart s m now f row count index part own u in
                ground arith
          ]
    ]

-- The parts in their order, from the one at `index`.
abbrev pub AreParts : ℕ → ℕ → List Bytes → List BundleFragment → Type 0
AreParts count index [] [] = Unit
AreParts count index (part ∷ parts) (f ∷ fs) =
    IsPart count index part f × AreParts count (suc index) parts fs
AreParts count index _ _ = ⊥

save_parts-AreParts :
    (s t : MemoryStore) (now : Time) (ids : ℕ → Option Text) (b : Bundle) (count index : ℕ)
    (parts : List Bytes) (fs : List BundleFragment)
    → save_parts s now ids b count index parts ≡ (ok fs, t)
    → AreParts count index parts fs
unfolding save_parts
save_parts-AreParts s t now ids b count index [] fs h = ground arith
save_parts-AreParts s t now ids b count index (part ∷ parts) fs h =
    let (f, m, q, r) =
      and_then-ok (save_fragment s now (ids index) (part_params b index count part))
        (λ f s'. with_first f (save_parts s' now ids b count (suc index) parts)) fs t h in
    let (rest, u, e) = with_first-ok f (save_parts m now ids b count (suc index) parts) fs t r in
    rw e (
      save_fragment-IsPart s m now (ids index) b count index part f q,
      save_parts-AreParts m t now ids b count (suc index) parts rest u,
    )

AreParts-payload :
    (count index : ℕ) (parts : List Bytes) (fs : List BundleFragment)
    → AreParts count index parts fs
    → assembled_payload fs ≡ joined_parts parts
unfolding assembled_payload
AreParts-payload count index [] [] p = refl
AreParts-payload count index [] (f ∷ fs) p = elim p [ ]
AreParts-payload count index (part ∷ parts) [] p = elim p [ ]
AreParts-payload count index (part ∷ parts) (f ∷ fs) (p, ps) =
    rw (p.0, AreParts-payload count (suc index) parts fs ps) refl

-- A bundle that has no outbound fragments yet is cut into one fragment for each part of its payload,
-- in order, each with its index and the number of all; their payloads, joined, are the payload of the
-- bundle. This holds whenever the cutting succeeds, also where the store keeps rows under the
-- deduplication keys already.
pub ensure_outbound_fragments-whole :
    (s t : MemoryStore) (now : Time) (ids : ℕ → Option Text) (link : Link) (b : Bundle)
    (fs : List BundleFragment)
    → fragments_by_bundle s b.id BundleDirection.outbound ≡ []
    → ensure_outbound_fragments s now ids link b ≡ (ok fs, t)
    → let parts = split_payload b.payload (part_limit link) in
      AreParts (length parts) 0 parts fs × (assembled_payload fs ≡ b.payload)
unfolding ensure_outbound_fragments
ensure_outbound_fragments-whole s t now ids link b fs none_yet h =
    let parts = split_payload b.payload (part_limit link) in
    let run : save_parts s now ids b (length parts) 0 parts ≡ (ok fs, t) = ground arith in
    let cut = save_parts-AreParts s t now ids b (length parts) 0 parts fs run in
    (
      cut,
      AreParts-payload (length parts) 0 parts fs cut
          ∙ split_payload-joined b.payload (part_limit link),
    )
