-- ===== src/Federation/Worker/Rounds.antt =====
-- The rounds of the worker that applies bundles: what a later round is handed.
use zvonilka.Base.{
  Text, Time, ok, err, ℕ, Result, List, [], ◌∷◌, ℤ, All, suc, zero, take, keep, Bool-cases, ◌<◌,
  ◌≤◌, ◌≡◌, inl, is_positive, Option-cases, arith, inr, Result-cases, pos_part, trim_space,
  trim_space-IsTrimmed, leb, leb→le, refl, All-map,
}
use zvonilka.Base.Dict
use zvonilka.Federation.Models.{Error, Bundle, BundleDirection, ReplicationCursor}
use zvonilka.Federation.Store.{MemoryStore, pair_key, cursor_by_peer_and_link}
use zvonilka.Federation.Bundles.{raised, cursor_or_first}
use zvonilka.Federation.BundleReads.{
  bundles_after, bundles, insert_bundle, sort_bundles, is_after, bundle_before,
}
use zvonilka.Federation.Replication.{replication_cursor, advance_inbound_cursor, authorized_link}
use zvonilka.Federation.Replication.Watermarks.{
  IsKept, Moves, cursor_or_first-found, save_cursor-Moves, Moves-same,
}
use zvonilka.Federation.Replication.Operations.{advance-Moves}
use zvonilka.Federation.Worker.{apply_each, advance_applied, apply_page}
use zvonilka.Federation.BundleRows.{save_cursor}

module _ {κ} (P : Bundle → Type κ) where
  All-insert_bundle : (b : Bundle) (bs : List Bundle) → P b → All P bs → All P (insert_bundle b bs)
  unfolding insert_bundle
  All-insert_bundle b [] p ps = (p, ps)
  All-insert_bundle b (c ∷ cs) p (q, qs) = elim (Bool-cases (bundle_before c b)) [
    | inl h ↦ rw h (q, All-insert_bundle b cs p qs)
    | inr h ↦ rw h (p, (q, qs))
  ]

  All-sort_bundles : (bs : List Bundle) → All P bs → All P (sort_bundles bs)
  unfolding sort_bundles
  All-sort_bundles [] ps = ps
  All-sort_bundles (b ∷ bs) (p, ps) =
      All-insert_bundle b (sort_bundles bs) p (All-sort_bundles bs ps)

  All-take : (n : ℕ) (bs : List Bundle) → All P bs → All P (take n bs)
  All-take zero bs ps = tt
  All-take (suc n) [] ps = ps
  All-take (suc n) (b ∷ bs) (p, ps) = (p, All-take n bs ps)

All-after :
    (peer_id link_id : Text) (direction : BundleDirection) (mark : ℕ) (bs : List Bundle)
    → All (λ b. mark < b.cursor_to) (keep (is_after peer_id link_id direction mark) bs)
All-after peer_id link_id direction mark [] = tt
All-after peer_id link_id direction mark (b ∷ bs) =
    elim (Bool-cases (is_after peer_id link_id direction mark b)) [
      | inl h ↦ rw h (ground arith, All-after peer_id link_id direction mark bs)
      | inr h ↦ rw h (All-after peer_id link_id direction mark bs)
    ]

-- A page ends after the cursor that it was asked for.
pub bundles_after-lt :
    (s : MemoryStore) (peer_id link_id : Text) (direction : BundleDirection) (mark : ℕ) (limit : ℤ)
    → All (λ b. mark < b.cursor_to) (bundles_after s peer_id link_id direction mark limit)
unfolding bundles_after
bundles_after-lt s peer_id link_id direction mark limit = elim (Bool-cases (is_positive limit)) [
  | inr h ↦ rw h tt
  | inl h ↦
      let found = keep (is_after peer_id link_id direction mark) (bundles s.bundles_by_id) in
      let P : Bundle → Type 0 = λ b. mark < b.cursor_to in
      rw h (
        All-take P (pos_part limit) (sort_bundles found) (
          All-sort_bundles P found
            (All-after peer_id link_id direction mark (bundles s.bundles_by_id))))
]

-- The inbound watermark does not fall, also where there was no cursor yet.
pub Moves-inbound :
    (s t : MemoryStore) (peer_id link_id : Text)
    → Moves s t
    → (cursor_or_first s peer_id link_id).last_inbound_cursor
      ≤ (cursor_or_first t peer_id link_id).last_inbound_cursor
unfolding cursor_or_first cursor_by_peer_and_link
Moves-inbound s t peer_id link_id m =
    elim (Option-cases (Dict.get s.cursors_by_key (pair_key peer_id link_id))) [
      | inl absent ↦ rw (absent, cursor_or_first) (omega arith)
      | inr (c, found) ↦
          let (c', later, a) = m.later (pair_key peer_id link_id) c found in
          rw (found, later, cursor_or_first) a.inbound
    ]

module _ {W : Type 0} (apply : Bundle → W → Result Error (Unit {0}) × W) where
  -- What a round is over: the bundles that were applied end at or before it.
  apply_each-le :
      (applied end : ℕ) (bs : List Bundle) (w : W)
      → (apply_each apply applied bs w).0 ≡ ok end
      → (applied ≤ end) × All (λ b. b.cursor_to ≤ end) bs
  unfolding apply_each
  apply_each-le applied end [] w h = (ground arith, tt)
  apply_each-le applied end (b ∷ bs) w h = elim (Result-cases (apply b w).0) [
    | inr (e, q) ↦ let h' = rw (q, apply_each) at h in cc
    | inl (u, q) ↦
        let h' = rw (q, apply_each) at h in
        let (le, all) = apply_each-le (raised b.cursor_to applied) end bs (apply b w).1 h' in
        (ground arith, (ground arith, all))
  ]

advance-reaches :
    (s t : MemoryStore) (clock : Time) (peer_id link_id : Text) (up_to_cursor : ℕ)
    (saved : ReplicationCursor)
    → IsKept s
    → advance_inbound_cursor s clock peer_id link_id up_to_cursor ≡ ok (saved, t)
    → up_to_cursor
      ≤ (cursor_or_first t (trim_space peer_id) (trim_space link_id)).last_inbound_cursor
unfolding advance_inbound_cursor
advance-reaches s t clock given_peer given_link up_to_cursor saved k h =
    let peer = trim_space given_peer in
    let link = trim_space given_link in
    let p = trim_space-IsTrimmed given_peer in
    let l = trim_space-IsTrimmed given_link in
    let current = cursor_or_first s peer link in
    let next = record current { last_inbound_cursor = up_to_cursor; updated_at = clock } in
    elim (Result-cases (authorized_link s peer link)) [
      | inr (e, q) ↦ ground arith
      | inl (found, q) ↦ elim (Result-cases (replication_cursor s peer link)) [
        | inr (e, r) ↦ ground arith
        | inl (c, r) ↦
            let same : c ≡ current = unfold replication_cursor in ground (arith, p, l) in
            elim (Bool-cases (leb up_to_cursor current.last_inbound_cursor)) [
              | inl done ↦ let end : t ≡ s = ground arith in rw end (leb→le _ _ done)
              | inr more ↦
                  let write : save_cursor s clock next ≡ ok (saved, t) = ground arith in
                  let (moved, stands, above) =
                    save_cursor-Moves s s t clock peer link next saved k p l refl refl refl
                      (ground arith) write in
                  rw (cursor_or_first-found t peer link saved stands) above.inbound
            ]
      ]
    ]

module _ {W : Type 0} (apply : Bundle → W → Result Error (Unit {0}) × W) where
  pub apply_page-reaches :
      (s t : MemoryStore) (clock : Time) (peer_id link_id : Text) (applied : ℕ) (page : List Bundle)
      (w w' : W) (end : ℕ)
      → IsKept s
      → apply_page apply s clock peer_id link_id applied page w ≡ (ok end, t, w')
      → Moves s t
        × All
            (λ b.
              b.cursor_to
              ≤ (cursor_or_first t (trim_space peer_id) (trim_space link_id)).last_inbound_cursor)
            page
  unfolding apply_page advance_applied
  apply_page-reaches s t clock peer_id link_id applied [] w w' end k h =
      (Moves-same s t k (ground arith), tt)
  apply_page-reaches s t clock peer_id link_id applied (b ∷ bs) w w' end k h =
      let w'' = (apply_each apply applied (b ∷ bs) w).1 in
      elim (Result-cases (apply_each apply applied (b ∷ bs) w).0) [
        | inr (e, q) ↦
            let run : apply_each apply applied (b ∷ bs) w ≡ (err e, w'') = rw (← q) refl in
            let h' = rw (run, apply_page, advance_applied) at h in cc
        | inl (m, q) ↦
            let run : apply_each apply applied (b ∷ bs) w ≡ (ok m, w'') = rw (← q) refl in
            let h' = rw (run, apply_page, advance_applied) at h in
            elim (Result-cases (advance_inbound_cursor s clock peer_id link_id m)) [
              | inr (e, r) ↦ let h'' = rw (r, advance_applied) at h' in cc
              | inl ((cursor, u), r) ↦
                  let h'' = rw (r, advance_applied) at h' in
                  let ends : u ≡ t = cc in
                  let r' : advance_inbound_cursor s clock peer_id link_id m ≡ ok (cursor, t) =
                    rw (← ends) r in
                  let reached = advance-reaches s t clock peer_id link_id m cursor k r' in
                  let (le, all) = apply_each-le apply applied m (b ∷ bs) w q in
                  (
                    advance-Moves s t clock peer_id link_id m cursor k r',
                    All-map (λ b. b.cursor_to ≤ m)
                        (λ b.
                          b.cursor_to
                          ≤ (cursor_or_first t (trim_space peer_id)
                              (trim_space link_id)).last_inbound_cursor)
                        (λ b p. omega arith) (b ∷ bs) all,
                  )
            ]
      ]
