-- ===== src/Federation/Submissions/Cursors.antt =====
-- A submission of fragments lowers no watermark.

use zvonilka.Federation.Replication.Outcomes.{and_then-Moves, as_outcome-Moves, with_first-Moves}
use zvonilka.Federation.Replication.Watermarks.{Moves, Moves-same, Moves-trans}
use zvonilka.Base.{
  ok, ◌≡◌, [], ◌∷◌, arith, ◌∙◌, ap, inl, inr, Text, Time, List, Option, Result-cases, Bool-cases,
  not, ◌||◌, leb,
}
use zvonilka.Federation.Bridge.{
  quarantine_each, quarantine_inbound_fragments, after_quarantine, save_candidate,
  save_inbound_fragment, save_fragment, admitted_fragment, candidate_error_text, failed_link,
  quarantined,
}
use zvonilka.Federation.Store.{MemoryStore, link_by_id}
use zvonilka.Federation.FragmentRows.{
  save_fragment_row, save_over, over_or_put, fragments_by_bundle, normalize_fragment,
  fragment_of_dedup,
}
use zvonilka.Federation.Submissions.{
  save_each, BundleFragment, Error, SaveFragmentParams, BundleDirection, inbound_params, with_first,
  replication_cursor,
}
use zvonilka.Federation.Fragments.{
  validate_inbound_fragment_candidate, contains_fragment_dedup_key,
  is_inbound_fragment_bundle_terminal, is_closed,
}
use zvonilka.Federation.Links.{save_link}
use zvonilka.Federation.BundleRows.{is_inbound}
use zvonilka.Federation.Replication.Writes.{save_link-cursors}

save_over-cursors :
    (t u : MemoryStore) (id : Text) (old f saved : BundleFragment)
    → save_over t id old f ≡ ok (saved, u)
    → u.cursors_by_key ≡ t.cursors_by_key
unfolding save_over
save_over-cursors t u id old f saved h = ground arith

pub save_fragment_row-cursors :
    (t u : MemoryStore) (now : Time) (f saved : BundleFragment)
    → save_fragment_row t now f ≡ ok (saved, u)
    → u.cursors_by_key ≡ t.cursors_by_key
unfolding save_fragment_row over_or_put
save_fragment_row-cursors t u now f saved h = elim (Result-cases (normalize_fragment f now)) [
  | inr (e, q) ↦ ground arith
  | inl (row, q) ↦ elim (Result-cases (link_by_id t row.link_id)) [
    | inr (e, r) ↦ ground arith
    | inl (link, r) ↦ elim (Result-cases (fragment_of_dedup t row.dedup_key)) [
      | inr (e, v) ↦ ground arith
      | inl ((id, old), v) ↦ save_over-cursors t u id old row saved (ground arith)
    ]
  ]
]

quarantine_each-cursors :
    (t u : MemoryStore) (now : Time) (fs : List BundleFragment)
    → quarantine_each t now fs ≡ ok u
    → u.cursors_by_key ≡ t.cursors_by_key
unfolding quarantine_each
quarantine_each-cursors t u now [] h = ground arith
quarantine_each-cursors t u now (f ∷ fs) h =
    elim (Bool-cases (not (is_inbound f.direction) || is_closed f.state)) [
      | inl skipped ↦ quarantine_each-cursors t u now fs (ground arith)
      | inr failing ↦ elim (Result-cases (save_fragment_row t now (quarantined now f))) [
        | inr (e, q) ↦ ground arith
        | inl ((saved, m), q) ↦
            quarantine_each-cursors m u now fs (ground arith)
            ∙ save_fragment_row-cursors t m now (quarantined now f) saved q
      ]
    ]

quarantine_inbound_fragments-cursors :
    (t u : MemoryStore) (now : Time) (fs : List BundleFragment) (error_text : Text)
    → quarantine_inbound_fragments t now fs error_text ≡ ok u
    → u.cursors_by_key ≡ t.cursors_by_key
unfolding quarantine_inbound_fragments
quarantine_inbound_fragments-cursors t u now [] text h = ground arith
quarantine_inbound_fragments-cursors t u now (f ∷ fs) text h =
    elim (Result-cases (quarantine_each t now (f ∷ fs))) [
      | inr (e, q) ↦ ground arith
      | inl (m, q) ↦ elim (Result-cases (link_by_id m f.link_id)) [
        | inr (e, r) ↦ ground arith
        | inl (link, r) ↦ elim (Result-cases (save_link m now (failed_link now text link))) [
          | inr (e, v) ↦ ground arith
          | inl ((saved, n), v) ↦
              let end : u ≡ n = ground arith in
              ap (λ (x : MemoryStore). x.cursors_by_key) end
              ∙ save_link-cursors m n now (failed_link now text link) saved v
              ∙ quarantine_each-cursors t m now (f ∷ fs) q
        ]
      ]
    ]

module _ (s : MemoryStore) where
  pub Moves-row :
      (t u : MemoryStore) (now : Time) (f saved : BundleFragment)
      → Moves s t
      → save_fragment_row t now f ≡ ok (saved, u)
      → Moves s u
  Moves-row t u now f saved m h =
      Moves-trans s t u m (Moves-same t u m.kept (save_fragment_row-cursors t u now f saved h))

  pub after_quarantine-Moves :
      (A : Type 0) (t : MemoryStore) (now : Time) (fs : List BundleFragment) (text : Text)
      (e : Error)
      → Moves s t
      → Moves s (after_quarantine {A = A} t now fs text e).1
  unfolding after_quarantine
  after_quarantine-Moves A t now fs text e m =
      elim (Result-cases (quarantine_inbound_fragments t now fs text)) [
        | inr (e', q) ↦ rw (after_quarantine, q) m
        | inl (u, q) ↦
            rw (after_quarantine, q)
              (Moves-trans s t u m
                (Moves-same t u m.kept (quarantine_inbound_fragments-cursors t u now fs text q)))
      ]

  save_candidate-Moves :
      (t : MemoryStore) (now : Time) (existing : List BundleFragment) (f : BundleFragment)
      → Moves s t
      → Moves s (save_candidate t now existing f).1
  unfolding save_candidate
  save_candidate-Moves t now existing f m =
      elim (Result-cases (validate_inbound_fragment_candidate existing f)) [
        | inl (u, r) ↦
            rw (save_candidate, r)
              (as_outcome-Moves s t (save_fragment_row t now f) m
                (λ a u q. Moves-row t u now f a m q))
        | inr (e, r) ↦
            rw (save_candidate, r)
              (after_quarantine-Moves BundleFragment t now existing (candidate_error_text e) e m)
      ]

  save_inbound_fragment-Moves :
      (t : MemoryStore) (now : Time) (f : BundleFragment)
      → Moves s t
      → Moves s (save_inbound_fragment t now f).1
  unfolding save_inbound_fragment
  save_inbound_fragment-Moves t now f m =
      let existing = fragments_by_bundle t f.bundle_id BundleDirection.inbound in
      let saved =
        as_outcome-Moves s t (save_fragment_row t now f) m (λ a u q. Moves-row t u now f a m q) in
      elim (Bool-cases (contains_fragment_dedup_key existing f.dedup_key)) [
        | inl known ↦ rw known saved
        | inr new ↦ elim (Bool-cases (is_inbound_fragment_bundle_terminal existing)) [
          | inl closed ↦ rw (new, closed) m
          | inr live ↦ elim (Result-cases (replication_cursor t f.peer_id f.link_id)) [
            | inr (e, q) ↦ rw (new, live, q) m
            | inl (cursor, q) ↦ elim (Bool-cases (leb f.cursor_to cursor.last_received_cursor)) [
              | inl late ↦ rw (new, live, q, late) m
              | inr due ↦ rw (new, live, q, due) (save_candidate-Moves t now existing f m)
            ]
          ]
        ]
      ]

  pub save_fragment-Moves :
      (t : MemoryStore) (now : Time) (id : Option Text) (params : SaveFragmentParams)
      → Moves s t
      → Moves s (save_fragment t now id params).1
  unfolding save_fragment
  save_fragment-Moves t now id params m = elim (Result-cases (admitted_fragment t now id params)) [
    | inr (e, q) ↦ rw (save_fragment, q) m
    | inl (f, q) ↦ elim (Bool-cases (is_inbound f.direction)) [
      | inl inbound' ↦ rw (save_fragment, q, inbound') (save_inbound_fragment-Moves t now f m)
      | inr outbound' ↦
          rw (save_fragment, q, outbound')
            (as_outcome-Moves s t (save_fragment_row t now f) m
              (λ a u v. Moves-row t u now f a m v))
    ]
  ]

  pub save_each-Moves :
      (t : MemoryStore) (now : Time) (peer_id link_id : Text)
      (given : List (SaveFragmentParams × Option Text))
      → Moves s t
      → Moves s (save_each t now peer_id link_id given).1
  unfolding save_each
  save_each-Moves t now peer_id link_id [] m = m
  save_each-Moves t now peer_id link_id ((params, id) ∷ rest) m =
      let own = inbound_params peer_id link_id params in
      and_then-Moves s (save_fragment t now id own)
        (λ f u. with_first f (save_each u now peer_id link_id rest))
        (save_fragment-Moves t now id own m)
        (λ f u n.
          with_first-Moves s f (save_each u now peer_id link_id rest)
            (save_each-Moves u now peer_id link_id rest n))
