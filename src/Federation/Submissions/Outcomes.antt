-- ===== src/Federation/Submissions/Outcomes.antt =====
-- A submission leaves the fragments that were assembled or failed before as they were.
use zvonilka.Federation.Submissions.Saves.{
  and_then-Keeps, after_quarantine-Keeps, save_fragment_row-Keeps,
}
use zvonilka.Federation.Submissions.Settled.{
  AreFresh, save_each-Keeps, with_first-Keeps, fragments_by_bundle-IsWritable,
}
use zvonilka.Base.{
  ok, ◌≡◌, [], ◌∷◌, true, false, none, some, arith, List, Option, All, Time, Text, Result-cases,
  Bool-cases, inl, inr,
}
use zvonilka.Federation.Submissions.{
  submit_bridge_fragments, Digests, BundleFragment, Outcome, Error, assemble_submitted,
  SaveFragmentParams, bundle_ids_from, BundleDirection, and_then, bridge_link, replication_cursor,
  save_each, Bundle,
}
use zvonilka.Federation.Store.{MemoryStore}
use zvonilka.Federation.Fragments.{is_inbound_fragment_bundle_terminal, fragments_complete}
use zvonilka.Federation.Assembled.{
  mark_assembled, marked_assembled, accept_assembled, assemble_listed, assemble_inbound_bundle,
  assemble_each, assembled_params, is_quarantined_for,
}
use zvonilka.Federation.Submissions.Keyed.{Keeps, is_final, IsWritable, IsKeyed, Keeps-same}
use zvonilka.Federation.Parts.{with_found}
use zvonilka.Federation.Bundles.{accept_inbound_bundle}
use zvonilka.Federation.FragmentRows.{save_fragment_row, fragments_by_bundle}
use zvonilka.Federation.Submissions.Bundled.{accept_inbound_bundle-fragments}

not_terminal :
    (fs : List BundleFragment)
    → is_inbound_fragment_bundle_terminal fs ≡ false
    → All (λ f. is_final f ≡ false) fs
unfolding is_inbound_fragment_bundle_terminal
not_terminal [] h = tt
not_terminal (f ∷ fs) h = (ground arith, not_terminal fs (ground arith))

module _ (s : MemoryStore) where
  mark_assembled-Keeps :
      (t : MemoryStore) (now : Time) (fs : List BundleFragment)
      → Keeps s t
      → All (IsWritable s) fs
      → All (λ f. is_final f ≡ false) fs
      → Keeps s (mark_assembled t now fs).1
  unfolding mark_assembled marked_assembled
  mark_assembled-Keeps t now [] k w o = k
  mark_assembled-Keeps t now (f ∷ fs) k (w, ws) (o, os) =
      elim (Result-cases (save_fragment_row t now (marked_assembled now f))) [
        | inr (e, q) ↦ rw (mark_assembled, q) k
        | inl ((saved, u), q) ↦
            rw (mark_assembled, q)
              (mark_assembled-Keeps u now fs
                (save_fragment_row-Keeps s t u now (marked_assembled now f) saved k (w o) q) ws os)
      ]

  with_found-Keeps :
      {A : Type 0} (found : Option A) (o : Outcome (List A))
      → Keeps s o.1
      → Keeps s (with_found found o).1
  with_found-Keeps none o k = k
  with_found-Keeps (some a) o k = with_first-Keeps s a o k

module _ (s : MemoryStore) (d : Digests) (text_of : Error → Text) where
  accept_assembled-Keeps :
      (t : MemoryStore) (now : Time) (id : Option Text) (peer_id link_id : Text)
      (first : BundleFragment) (fs : List BundleFragment)
      → Keeps s t
      → All (IsWritable s) fs
      → All (λ f. is_final f ≡ false) fs
      → Keeps s (accept_assembled d text_of t now id peer_id link_id first fs).1
  unfolding accept_assembled
  accept_assembled-Keeps t now id peer_id link_id first fs k w o =
      let params = assembled_params peer_id link_id first fs in
      elim (Result-cases (accept_inbound_bundle d t now id params)) [
        | inr (e, q) ↦ elim (Bool-cases (is_quarantined_for e)) [
          | inl failing ↦
              rw (accept_assembled, q, failing)
                (after_quarantine-Keeps s (Option Bundle) t now fs (text_of e) e k w)
          | inr other ↦ rw (accept_assembled, q, other) k
        ]
        | inl ((b, u), q) ↦
            let kept =
              Keeps-same s t u k (accept_inbound_bundle-fragments d t u now id params b q) in
            rw (accept_assembled, q)
              (and_then-Keeps s (mark_assembled u now fs) (λ x u'. (ok (some b), u'))
                (mark_assembled-Keeps s u now fs kept w o) (λ x u' r k'. k'))
      ]

  assemble_listed-Keeps :
      (t : MemoryStore) (now : Time) (id : Option Text) (peer_id link_id : Text)
      (fs : List BundleFragment)
      → Keeps s t
      → All (IsWritable s) fs
      → Keeps s (assemble_listed d text_of t now id peer_id link_id fs).1
  unfolding assemble_listed
  assemble_listed-Keeps t now id peer_id link_id [] k w = k
  assemble_listed-Keeps t now id peer_id link_id (f ∷ fs) k w =
      elim (Bool-cases (is_inbound_fragment_bundle_terminal (f ∷ fs))) [
        | inl closed ↦ rw closed k
        | inr live ↦ elim (Result-cases (fragments_complete (f ∷ fs))) [
          | inr (e, q) ↦
              rw (live, q)
                (after_quarantine-Keeps s (Option Bundle) t now (f ∷ fs) (text_of e) e k w)
          | inl (false, q) ↦ rw (live, q) k
          | inl (true, q) ↦
              rw (live, q)
                (accept_assembled-Keeps t now id peer_id link_id f (f ∷ fs) k w
                  (not_terminal (f ∷ fs) live))
        ]
      ]

  assemble_inbound_bundle-Keeps :
      (t : MemoryStore) (now : Time) (id : Option Text) (peer_id link_id bundle_id : Text)
      → Keeps s t
      → Keeps s (assemble_inbound_bundle d text_of t now id peer_id link_id bundle_id).1
  unfolding assemble_inbound_bundle
  assemble_inbound_bundle-Keeps t now id peer_id link_id bundle_id k =
      let w = fragments_by_bundle-IsWritable s t bundle_id BundleDirection.inbound k in
      assemble_listed-Keeps t now id peer_id link_id
        (fragments_by_bundle t bundle_id BundleDirection.inbound) k w

  assemble_each-Keeps :
      (t : MemoryStore) (now : Time) (ids : Text → Option Text) (peer_id link_id : Text)
      (bundle_ids : List Text)
      → Keeps s t
      → Keeps s (assemble_each d text_of t now ids peer_id link_id bundle_ids).1
  unfolding assemble_each
  assemble_each-Keeps t now ids peer_id link_id [] k = k
  assemble_each-Keeps t now ids peer_id link_id (b ∷ rest) k =
      and_then-Keeps s (assemble_inbound_bundle d text_of t now (ids b) peer_id link_id b)
        (λ found u. with_found found (assemble_each d text_of u now ids peer_id link_id rest))
        (assemble_inbound_bundle-Keeps t now (ids b) peer_id link_id b k)
        (λ found u q kept.
          with_found-Keeps s found (assemble_each d text_of u now ids peer_id link_id rest)
            (assemble_each-Keeps u now ids peer_id link_id rest kept))

  assemble_submitted-Keeps :
      (t : MemoryStore) (now : Time) (ids : Text → Option Text) (peer_id link_id : Text)
      (accepted : List BundleFragment)
      → Keeps s t
      → Keeps s (assemble_submitted d text_of t now ids peer_id link_id accepted).1
  unfolding assemble_submitted
  assemble_submitted-Keeps t now ids peer_id link_id accepted k =
      and_then-Keeps s
        (assemble_each d text_of t now ids peer_id link_id (bundle_ids_from [] accepted))
        (λ bundles u.
          and_then (replication_cursor u peer_id link_id, u)
            (λ cursor v. (ok (accepted, bundles, cursor), v)))
        (assemble_each-Keeps t now ids peer_id link_id (bundle_ids_from [] accepted) k)
        (λ bundles u q kept.
          and_then-Keeps s (replication_cursor u peer_id link_id, u)
            (λ cursor v. (ok (accepted, bundles, cursor), v)) kept (λ cursor v r again. again))

-- A submission of fragments, on whatever link and however it ends, leaves every inbound fragment that
-- was assembled or failed before in its place as it was, its payload included, and keeps the fragments
-- under their ids: no fragment is opened again or replaced. The ids that are drawn for the new
-- fragments are those of no fragment of the store.
pub submit_bridge_fragments-settled :
    (s : MemoryStore) (d : Digests) (text_of : Error → Text) (now : Time) (ids : Text → Option Text)
    (peer_server_name link_name : Text) (given : List (SaveFragmentParams × Option Text))
    → IsKeyed s.fragments_by_id
    → AreFresh s given
    → Keeps s (submit_bridge_fragments d text_of s now ids peer_server_name link_name given).1
unfolding submit_bridge_fragments
submit_bridge_fragments-settled s d text_of now ids peer_server_name link_name given i fresh =
    let start : Keeps s s = record { keyed = i; settled = λ k g h c. h } in
    and_then-Keeps s (bridge_link s peer_server_name link_name, s)
      (λ (peer, link) t.
        and_then (save_each t now peer.id link.id given)
          (λ accepted u. assemble_submitted d text_of u now ids peer.id link.id accepted))
      start
      (λ (peer, link) t q kept.
        and_then-Keeps s (save_each t now peer.id link.id given)
          (λ accepted u. assemble_submitted d text_of u now ids peer.id link.id accepted)
          (save_each-Keeps s t now peer.id link.id given kept fresh)
          (λ accepted u r again.
            assemble_submitted-Keeps s d text_of u now ids peer.id link.id accepted again))
