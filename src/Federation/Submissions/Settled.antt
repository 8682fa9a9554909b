-- ===== src/Federation/Submissions/Settled.antt =====
-- A submission leaves the fragments that were assembled or failed before as they were.
use zvonilka.Federation.Submissions.Saves.{
  as_outcome-Keeps, and_then-Keeps, save_fragment_row-Keeps, after_quarantine-Keeps,
}
use zvonilka.Base.{
  ok, err, ◌≡◌, [], ◌∷◌, none, some, arith, refl, Bool, Text, Option, List, trim_space, Time, All,
  keep, Bool-cases, Result-cases, inl, inr, trim_space-IsTrimmed, leb,
}
use zvonilka.Base.Dict
use zvonilka.Base.Dict.{Dict}
use zvonilka.Federation.Leases.{sort_by, insert_by, fragments}
use zvonilka.Federation.FragmentRows.{
  fragments_by_bundle, is_of_bundle, stands_before, defaulted_fragment, save_fragment_row,
}
use zvonilka.Federation.Models.{BundleFragment, BundleDirection}
use zvonilka.Federation.Store.{MemoryStore}
use zvonilka.Federation.Bridge.{
  save_inbound_fragment, save_fragment, save_candidate, admitted_fragment, new_fragment,
  candidate_error_text,
}
use zvonilka.Federation.Submissions.Keyed.{Keeps, IsWritable, IsFree, Keeps-IsWritable}
use zvonilka.Federation.Params.{SaveFragmentParams}
use zvonilka.Federation.Parts.Whole.{admitted_fragment-normal, normalize_fragment-row}
use zvonilka.Federation.BundleRows.{is_inbound}
use zvonilka.Federation.Fragments.{
  contains_fragment_dedup_key, is_inbound_fragment_bundle_terminal,
  validate_inbound_fragment_candidate,
}
use zvonilka.Federation.Replication.{replication_cursor, Outcome}
use zvonilka.Federation.Submissions.{save_each, with_first, inbound_params}

All-kept :
    (P : BundleFragment → Type 0) (p : BundleFragment → Bool) (fs : List BundleFragment)
    → All P fs
    → All P (keep p fs)
All-kept P p [] a = tt
All-kept P p (f ∷ fs) (a, as') = elim (Bool-cases (p f)) [
  | inl h ↦ rw h (a, All-kept P p fs as')
  | inr h ↦ rw h (All-kept P p fs as')
]

All-inserted :
    (P : BundleFragment → Type 0) (less : BundleFragment → BundleFragment → Bool)
    (f : BundleFragment) (fs : List BundleFragment)
    → P f
    → All P fs
    → All P (insert_by less f fs)
unfolding insert_by
All-inserted P less f [] a as' = (a, tt)
All-inserted P less f (g ∷ gs) a (b, bs) = elim (Bool-cases (less g f)) [
  | inl h ↦ rw h (b, All-inserted P less f gs a bs)
  | inr h ↦ rw h (a, (b, bs))
]

All-sorted :
    (P : BundleFragment → Type 0) (less : BundleFragment → BundleFragment → Bool)
    (fs : List BundleFragment)
    → All P fs
    → All P (sort_by less fs)
unfolding sort_by
All-sorted P less [] a = tt
All-sorted P less (f ∷ fs) (a, as') =
    All-inserted P less f (sort_by less fs) a (All-sorted P less fs as')

pub fragments_by_bundle-IsWritable :
    (s t : MemoryStore) (bundle_id : Text) (direction : BundleDirection)
    → Keeps s t
    → All (IsWritable s) (fragments_by_bundle t bundle_id direction)
unfolding fragments_by_bundle
fragments_by_bundle-IsWritable s t bundle_id direction k =
    let all = fragments t.fragments_by_id in
    let of_bundle = is_of_bundle bundle_id direction in
    All-sorted (IsWritable s) stands_before (keep of_bundle all)
      (All-kept (IsWritable s) of_bundle all (Keeps-IsWritable s t k))

-- An id that is drawn stands for no fragment yet.
abbrev pub IsFresh : MemoryStore → Option Text → Type 0
IsFresh s drawn_id =
    (id : Text) → drawn_id ≡ some id → Dict.get s.fragments_by_id (trim_space id) ≡ none

module _ (s : MemoryStore) where
  save_candidate-Keeps :
      (t : MemoryStore) (now : Time) (existing : List BundleFragment) (f : BundleFragment)
      → Keeps s t
      → All (IsWritable s) existing
      → IsFree s (trim_space f.id)
      → Keeps s (save_candidate t now existing f).1
  unfolding save_candidate
  save_candidate-Keeps t now existing f k w free =
      elim (Result-cases (validate_inbound_fragment_candidate existing f)) [
        | inl (u, r) ↦
            rw (save_candidate, r)
              (as_outcome-Keeps s t (save_fragment_row t now f) k
                (λ a u q. save_fragment_row-Keeps s t u now f a k free q))
        | inr (e, r) ↦
            rw (save_candidate, r)
              (after_quarantine-Keeps s BundleFragment t now existing (candidate_error_text e) e k
                w)
      ]

  save_inbound_fragment-Keeps :
      (t : MemoryStore) (now : Time) (f : BundleFragment)
      → Keeps s t
      → IsFree s (trim_space f.id)
      → Keeps s (save_inbound_fragment t now f).1
  unfolding save_inbound_fragment
  save_inbound_fragment-Keeps t now f k free =
      let existing = fragments_by_bundle t f.bundle_id BundleDirection.inbound in
      let saved =
        as_outcome-Keeps s t (save_fragment_row t now f) k
          (λ a u q. save_fragment_row-Keeps s t u now f a k free q) in
      elim (Bool-cases (contains_fragment_dedup_key existing f.dedup_key)) [
        | inl known ↦ rw known saved
        | inr new ↦ elim (Bool-cases (is_inbound_fragment_bundle_terminal existing)) [
          | inl closed ↦ rw (new, closed) k
          | inr live ↦ elim (Result-cases (replication_cursor t f.peer_id f.link_id)) [
            | inr (e, q) ↦ rw (new, live, q) k
            | inl (cursor, q) ↦ elim (Bool-cases (leb f.cursor_to cursor.last_received_cursor)) [
              | inl late ↦ rw (new, live, q, late) k
              | inr due ↦
                  rw (new, live, q, due)
                    (save_candidate-Keeps t now existing f k
                      (fragments_by_bundle-IsWritable s t f.bundle_id BundleDirection.inbound k)
                      free)
            ]
          ]
        ]
      ]

  save_fragment-Keeps :
      (t : MemoryStore) (now : Time) (id : Option Text) (params : SaveFragmentParams)
      → Keeps s t
      → IsFresh s id
      → Keeps s (save_fragment t now id params).1
  unfolding save_fragment
  save_fragment-Keeps t now id params k fresh =
      elim (Result-cases (admitted_fragment t now id params)) [
        | inr (e, q) ↦ rw (save_fragment, q) k
        | inl (f, q) ↦
            let (name, given, r) = admitted_fragment-normal t now id params f q in
            let named : f.id ≡ trim_space name =
              rw (normalize_fragment-row (new_fragment params name) f now r)
                (unfold defaulted_fragment in refl) in
            let free : IsFree s (trim_space f.id) =
              rw (named, trim_space-IsTrimmed name) (λ g h. ground (arith, fresh name given)) in
            elim (Bool-cases (is_inbound f.direction)) [
              | inl inbound' ↦
                  rw (save_fragment, q, inbound') (save_inbound_fragment-Keeps t now f k free)
              | inr outbound' ↦
                  rw (save_fragment, q, outbound')
                    (as_outcome-Keeps s t (save_fragment_row t now f) k
                      (λ a u v. save_fragment_row-Keeps s t u now f a k free v))
            ]
      ]

  pub with_first-Keeps :
      {A : Type 0} (a : A) (o : Outcome (List A)) → Keeps s o.1 → Keeps s (with_first a o).1
  with_first-Keeps a (ok rest, t) k = k
  with_first-Keeps a (err e, t) k = k

  -- The ids that are drawn for the fragments.
  abbrev pub AreFresh : List (SaveFragmentParams × Option Text) → Type 0
  AreFresh given = All (λ (params, id). IsFresh s id) given

  pub save_each-Keeps :
      (t : MemoryStore) (now : Time) (peer_id link_id : Text)
      (given : List (SaveFragmentParams × Option Text))
      → Keeps s t
      → AreFresh given
      → Keeps s (save_each t now peer_id link_id given).1
  unfolding save_each
  save_each-Keeps t now peer_id link_id [] k fresh = k
  save_each-Keeps t now peer_id link_id ((params, id) ∷ rest) k (fresh, more) =
      let own = inbound_params peer_id link_id params in
      and_then-Keeps s (save_fragment t now id own)
        (λ f u. with_first f (save_each u now peer_id link_id rest))
        (save_fragment-Keeps t now id own k fresh)
        (λ f u q kept.
          with_first-Keeps f (save_each u now peer_id link_id rest)
            (save_each-Keeps u now peer_id link_id rest kept more))
