-- ===== src/Federation/Submissions/Saves.antt =====
-- The saves and the quarantine of fragments leave the settled ones as they are.
use zvonilka.Base.{
  refl, ok, err, ◌≡◌, [], ◌∷◌, some, arith, Text, Time, List, All, Bool-cases, trim_space,
  Result-cases, ◌||◌, not, inr, inl, trim_space-IsTrimmed,
}
use zvonilka.Base.Dict
use zvonilka.Base.Dict.{Dict}
use zvonilka.Federation.Store.{MemoryStore, Saved, link_by_id}
use zvonilka.Federation.FragmentRows.{
  fragment_of_dedup, save_over, save_fragment_row, over_or_put, normalize_fragment, same_progress,
  with_progress, defaulted_fragment,
}
use zvonilka.Federation.Links.{save_link}
use zvonilka.Federation.Bridge.{
  quarantine_inbound_fragments, after_quarantine, quarantine_each, quarantined, as_outcome,
  and_then, failed_link,
}
use zvonilka.Federation.Replication.{Outcome}
use zvonilka.Federation.Models.{Link, BundleFragment, Error}
use zvonilka.Federation.Submissions.Keyed.{
  Keeps, IsKeyed-own, IsFree, IsWritable, is_final, Keeps-same, Keeps-put,
}
use zvonilka.Federation.BundleRows.{is_inbound}
use zvonilka.Federation.Fragments.{is_closed}
use zvonilka.Federation.Parts.Whole.{normalize_fragment-row}

pub fragment_of_dedup-found :
    (t : MemoryStore) (key id : Text) (old : BundleFragment)
    → fragment_of_dedup t key ≡ ok (id, old)
    → Dict.get t.fragments_by_id id ≡ some old
unfolding fragment_of_dedup
fragment_of_dedup-found t key id old h = ground arith

pub save_link-fragments :
    (s t : MemoryStore) (clock : Time) (given saved : Link)
    → save_link s clock given ≡ ok (saved, t)
    → t.fragments_by_id ≡ s.fragments_by_id
unfolding save_link
save_link-fragments s t clock given saved h = ground arith

module _ (s : MemoryStore) where
  save_over-Keeps :
      (t u : MemoryStore) (id : Text) (old f saved : BundleFragment)
      → Keeps s t
      → Dict.get t.fragments_by_id id ≡ some old
      → save_over t id old f ≡ ok (saved, u)
      → Keeps s u
  unfolding save_over
  save_over-Keeps t u id old f saved k found h =
      let (own, trimmed) = IsKeyed-own t.fragments_by_id id old k.keyed found in
      elim (Bool-cases (is_final old || same_progress old f)) [
        | inl kept ↦ Keeps-same s t u k (ground arith)
        | inr moved ↦
            Keeps-put s t u (with_progress old f) k (rw own trimmed)
              (λ g here. ground (arith, own, k.settled id g)) (ground (arith, own))
      ]

  pub save_fragment_row-Keeps :
      (t u : MemoryStore) (now : Time) (f saved : BundleFragment)
      → Keeps s t
      → IsFree s (trim_space f.id)
      → save_fragment_row t now f ≡ ok (saved, u)
      → Keeps s u
  unfolding save_fragment_row over_or_put
  save_fragment_row-Keeps t u now f saved k free h =
      elim (Result-cases (normalize_fragment f now)) [
        | inr (e, q) ↦ ground arith
        | inl (row, q) ↦
            let named : row.id ≡ trim_space f.id =
              rw (normalize_fragment-row f row now q) (unfold defaulted_fragment in refl) in
            elim (Result-cases (link_by_id t row.link_id)) [
              | inr (e, r) ↦ ground arith
              | inl (link, r) ↦ elim (Result-cases (fragment_of_dedup t row.dedup_key)) [
                | inr (e, v) ↦
                    Keeps-put s t u row k (rw named (trim_space-IsTrimmed f.id)) (rw named free)
                      (ground arith)
                | inl ((id, old), v) ↦
                    save_over-Keeps t u id old row saved k
                      (fragment_of_dedup-found t row.dedup_key id old v) (ground arith)
              ]
            ]
      ]

  pub quarantine_each-Keeps :
      (t u : MemoryStore) (now : Time) (fs : List BundleFragment)
      → Keeps s t
      → All (IsWritable s) fs
      → quarantine_each t now fs ≡ ok u
      → Keeps s u
  unfolding quarantine_each quarantined
  quarantine_each-Keeps t u now [] k w h = Keeps-same s t u k (ground arith)
  quarantine_each-Keeps t u now (f ∷ fs) k (w, ws) h =
      elim (Bool-cases (not (is_inbound f.direction) || is_closed f.state)) [
        | inl skipped ↦ quarantine_each-Keeps t u now fs k ws (ground arith)
        | inr failing ↦ elim (Result-cases (save_fragment_row t now (quarantined now f))) [
          | inr (e, q) ↦ ground arith
          | inl ((saved, m), q) ↦
              quarantine_each-Keeps m u now fs
                (save_fragment_row-Keeps t m now (quarantined now f) saved k (w (ground arith)) q)
                ws (ground arith)
        ]
      ]

  pub quarantine_inbound_fragments-Keeps :
      (t u : MemoryStore) (now : Time) (fs : List BundleFragment) (error_text : Text)
      → Keeps s t
      → All (IsWritable s) fs
      → quarantine_inbound_fragments t now fs error_text ≡ ok u
      → Keeps s u
  unfolding quarantine_inbound_fragments
  quarantine_inbound_fragments-Keeps t u now [] text k w h = Keeps-same s t u k (ground arith)
  quarantine_inbound_fragments-Keeps t u now (f ∷ fs) text k w h =
      elim (Result-cases (quarantine_each t now (f ∷ fs))) [
        | inr (e, q) ↦ ground arith
        | inl (m, q) ↦ elim (Result-cases (link_by_id m f.link_id)) [
          | inr (e, r) ↦ ground arith
          | inl (link, r) ↦ elim (Result-cases (save_link m now (failed_link now text link))) [
            | inr (e, v) ↦ ground arith
            | inl ((saved, n), v) ↦
                Keeps-same s m u (quarantine_each-Keeps t m now (f ∷ fs) k w q)
                  (ground (arith, save_link-fragments m n now (failed_link now text link) saved v))
          ]
        ]
      ]

  pub after_quarantine-Keeps :
      (A : Type 0) (t : MemoryStore) (now : Time) (fs : List BundleFragment) (text : Text)
      (e : Error)
      → Keeps s t
      → All (IsWritable s) fs
      → Keeps s (after_quarantine {A = A} t now fs text e).1
  unfolding after_quarantine
  after_quarantine-Keeps A t now fs text e k w =
      elim (Result-cases (quarantine_inbound_fragments t now fs text)) [
        | inr (e', q) ↦ rw (after_quarantine, q) k
        | inl (u, q) ↦
            rw (after_quarantine, q) (quarantine_inbound_fragments-Keeps t u now fs text k w q)
      ]

  pub as_outcome-Keeps :
      {A : Type 0} (t : MemoryStore) (r : Saved A)
      → Keeps s t
      → ((a : A) (u : MemoryStore) → r ≡ ok (a, u) → Keeps s u)
      → Keeps s (as_outcome t r).1
  as_outcome-Keeps t (ok (a, u)) k p = p a u refl
  as_outcome-Keeps t (err e) k p = k

  pub and_then-Keeps :
      {A B : Type 0} (o : Outcome A) (next : A → MemoryStore → Outcome B)
      → Keeps s o.1
      → ((a : A) (t : MemoryStore) → o ≡ (ok a, t) → Keeps s t → Keeps s (next a t).1)
      → Keeps s (and_then o next).1
  and_then-Keeps (ok a, t) next k p = p a t refl k
  and_then-Keeps (err e, t) next k p = k
