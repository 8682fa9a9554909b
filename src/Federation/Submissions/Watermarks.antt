-- ===== src/Federation/Submissions/Watermarks.antt =====
-- A submission of fragments lowers no watermark: the bundles that it assembles.
use zvonilka.Federation.Submissions.Cursors.{Moves-row, after_quarantine-Moves, save_each-Moves}
use zvonilka.Federation.Replication.Outcomes.{and_then-Moves, with_found-Moves}
use zvonilka.Federation.Replication.Watermarks.{IsKept, Moves, Moves-same, Moves-trans}
use zvonilka.Federation.Replication.Writes.{save_bundle-Moves}
use zvonilka.Federation.Bundles.{accept_inbound_bundle}
use zvonilka.Federation.Fragments.{is_inbound_fragment_bundle_terminal, fragments_complete}
use zvonilka.Federation.FragmentRows.{save_fragment_row, fragments_by_bundle}
use zvonilka.Federation.Assembled.{
  mark_assembled, marked_assembled, accept_assembled, assemble_listed, assemble_inbound_bundle,
  assemble_each, assembled_params, is_quarantined_for,
}
use zvonilka.Federation.Parts.{with_found}
use zvonilka.Federation.Security.{Digests}
use zvonilka.Federation.Store.{MemoryStore}
use zvonilka.Base.{
  true, false, Time, List, Text, Option, ◌∷◌, Result-cases, inr, Bool-cases, [], inl, ok, refl,
  some,
}
use zvonilka.Federation.Submissions.{
  submit_bridge_fragments, assemble_submitted, bundle_ids_from, SaveFragmentParams, bridge_link,
  and_then, replication_cursor, save_each,
}
use zvonilka.Federation.Models.{Error, BundleFragment, BundleDirection, Bundle}

module _ (s : MemoryStore) where
  mark_assembled-Moves :
      (t : MemoryStore) (now : Time) (fs : List BundleFragment)
      → Moves s t
      → Moves s (mark_assembled t now fs).1
  unfolding mark_assembled
  mark_assembled-Moves t now [] m = m
  mark_assembled-Moves t now (f ∷ fs) m =
      elim (Result-cases (save_fragment_row t now (marked_assembled now f))) [
        | inr (e, q) ↦ rw (mark_assembled, q) m
        | inl ((saved, u), q) ↦
            rw (mark_assembled, q)
              (mark_assembled-Moves u now fs
                (Moves-row s t u now (marked_assembled now f) saved m q))
      ]

module _ (s : MemoryStore) (d : Digests) (text_of : Error → Text) where
  accept_assembled-Moves :
      (t : MemoryStore) (now : Time) (id : Option Text) (peer_id link_id : Text)
      (first : BundleFragment) (fs : List BundleFragment)
      → Moves s t
      → Moves s (accept_assembled d text_of t now id peer_id link_id first fs).1
  unfolding accept_assembled accept_inbound_bundle
  accept_assembled-Moves t now id peer_id link_id first fs m =
      let params = assembled_params peer_id link_id first fs in
      elim (Result-cases (accept_inbound_bundle d t now id params)) [
        | inr (e, q) ↦ elim (Bool-cases (is_quarantined_for e)) [
          | inl failing ↦
              rw (accept_assembled, q, failing)
                (after_quarantine-Moves s (Option Bundle) t now fs (text_of e) e m)
          | inr other ↦ rw (accept_assembled, q, other) m
        ]
        | inl ((b, u), q) ↦
            let moved =
              Moves-trans s t u m
                (save_bundle-Moves d t u now id params BundleDirection.inbound b m.kept q) in
            rw (accept_assembled, q)
              (and_then-Moves s (mark_assembled u now fs) (λ x u'. (ok (some b), u'))
                (mark_assembled-Moves s u now fs moved) (λ x u' n. n))
      ]

  assemble_listed-Moves :
      (t : MemoryStore) (now : Time) (id : Option Text) (peer_id link_id : Text)
      (fs : List BundleFragment)
      → Moves s t
      → Moves s (assemble_listed d text_of t now id peer_id link_id fs).1
  unfolding assemble_listed
  assemble_listed-Moves t now id peer_id link_id [] m = m
  assemble_listed-Moves t now id peer_id link_id (f ∷ fs) m =
      elim (Bool-cases (is_inbound_fragment_bundle_terminal (f ∷ fs))) [
        | inl closed ↦ rw closed m
        | inr live ↦ elim (Result-cases (fragments_complete (f ∷ fs))) [
          | inr (e, q) ↦
              rw (live, q) (after_quarantine-Moves s (Option Bundle) t now (f ∷ fs) (text_of e) e m)
          | inl (false, q) ↦ rw (live, q) m
          | inl (true, q) ↦
              rw (live, q) (accept_assembled-Moves t now id peer_id link_id f (f ∷ fs) m)
        ]
      ]

  assemble_inbound_bundle-Moves :
      (t : MemoryStore) (now : Time) (id : Option Text) (peer_id link_id bundle_id : Text)
      → Moves s t
      → Moves s (assemble_inbound_bundle d text_of t now id peer_id link_id bundle_id).1
  unfolding assemble_inbound_bundle
  assemble_inbound_bundle-Moves t now id peer_id link_id bundle_id m =
      assemble_listed-Moves t now id peer_id link_id
        (fragments_by_bundle t bundle_id BundleDirection.inbound) m

  assemble_each-Moves :
      (t : MemoryStore) (now : Time) (ids : Text → Option Text) (peer_id link_id : Text)
      (bundle_ids : List Text)
      → Moves s t
      → Moves s (assemble_each d text_of t now ids peer_id link_id bundle_ids).1
  unfolding assemble_each
  assemble_each-Moves t now ids peer_id link_id [] m = m
  assemble_each-Moves t now ids peer_id link_id (b ∷ rest) m =
      and_then-Moves s (assemble_inbound_bundle d text_of t now (ids b) peer_id link_id b)
        (λ found u. with_found found (assemble_each d text_of u now ids peer_id link_id rest))
        (assemble_inbound_bundle-Moves t now (ids b) peer_id link_id b m)
        (λ found u n.
          with_found-Moves s found (assemble_each d text_of u now ids peer_id link_id rest)
            (assemble_each-Moves u now ids peer_id link_id rest n))

  assemble_submitted-Moves :
      (t : MemoryStore) (now : Time) (ids : Text → Option Text) (peer_id link_id : Text)
      (accepted : List BundleFragment)
      → Moves s t
      → Moves s (assemble_submitted d text_of t now ids peer_id link_id accepted).1
  unfolding assemble_submitted
  assemble_submitted-Moves t now ids peer_id link_id accepted m =
      and_then-Moves s
        (assemble_each d text_of t now ids peer_id link_id (bundle_ids_from [] accepted))
        (λ bundles u.
          and_then (replication_cursor u peer_id link_id, u)
            (λ cursor v. (ok (accepted, bundles, cursor), v)))
        (assemble_each-Moves t now ids peer_id link_id (bundle_ids_from [] accepted) m)
        (λ bundles u n.
          and_then-Moves s (replication_cursor u peer_id link_id, u)
            (λ cursor v. (ok (accepted, bundles, cursor), v)) n (λ cursor v l. l))

pub submit_bridge_fragments-Moves :
    (d : Digests) (text_of : Error → Text) (s : MemoryStore) (now : Time) (ids : Text → Option Text)
    (peer_server_name link_name : Text) (given : List (SaveFragmentParams × Option Text))
    → IsKept s
    → Moves s (submit_bridge_fragments d text_of s now ids peer_server_name link_name given).1
unfolding submit_bridge_fragments
submit_bridge_fragments-Moves d text_of s now ids peer_server_name link_name given k =
    and_then-Moves s (bridge_link s peer_server_name link_name, s)
      (λ (peer, link) t.
        and_then (save_each t now peer.id link.id given)
          (λ accepted u. assemble_submitted d text_of u now ids peer.id link.id accepted))
      (Moves-same s s k refl)
      (λ (peer, link) t m.
        and_then-Moves s (save_each t now peer.id link.id given)
          (λ accepted u. assemble_submitted d text_of u now ids peer.id link.id accepted)
          (save_each-Moves s t now peer.id link.id given m)
          (λ accepted u n.
            assemble_submitted-Moves s d text_of u now ids peer.id link.id accepted n))
