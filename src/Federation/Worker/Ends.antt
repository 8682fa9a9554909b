-- ===== src/Federation/Worker/Ends.antt =====
-- The cursor that a round of the worker gives back is the one that the store has after it.
use zvonilka.Base.{
  refl, arith, ap, ◌∙◌, ◌∷◌, [], inl, inr, ok, err, ◌≡◌, Result, Time, Text, ℕ, ℤ, List, trim_space,
  trim_space-IsTrimmed, Result-cases, Bool-cases, leb,
}
use zvonilka.Federation.Models.{Bundle, Error, ReplicationCursor}
use zvonilka.Federation.Replication.{advance_inbound_cursor, authorized_link, replication_cursor}
use zvonilka.Federation.Store.{MemoryStore}
use zvonilka.Federation.Worker.{
  apply_pending_inbound_bundles, apply_page, advance_applied, apply_each, pending_inbound,
}
use zvonilka.Federation.Replication.Watermarks.{IsKept, save_cursor-Moves, cursor_or_first-found}
use zvonilka.Federation.Bundles.{cursor_or_first}
use zvonilka.Federation.BundleRows.{save_cursor}

advance-end :
    (s t : MemoryStore) (clock : Time) (peer_id link_id : Text) (up_to_cursor : ℕ)
    (saved : ReplicationCursor)
    → IsKept s
    → advance_inbound_cursor s clock peer_id link_id up_to_cursor ≡ ok (saved, t)
    → cursor_or_first t (trim_space peer_id) (trim_space link_id) ≡ saved
unfolding advance_inbound_cursor
advance-end s t clock given_peer given_link up_to_cursor saved k h =
    let peer = trim_space given_peer in
    let link = trim_space given_link in
    let p = trim_space-IsTrimmed given_peer in
    let l = trim_space-IsTrimmed given_link in
    let current = cursor_or_first s peer link in
    let next = record current { last_inbound_cursor = up_to_cursor; updated_at = clock } in
    elim (Result-cases (authorized_link s peer link)) [
      | inr (e, q) ↦ ground arith
      | inl (found, q) ↦ elim (Result-cases (replication_cursor s peer link)) [
        | inr (e, r) ↦ ground arith
        | inl (c, r) ↦
            let same : c ≡ current = unfold replication_cursor in ground (arith, p, l) in
            elim (Bool-cases (leb up_to_cursor current.last_inbound_cursor)) [
              | inl done ↦
                  let end : t ≡ s = ground arith in
                  let kept : current ≡ saved = ground arith in rw end kept
              | inr more ↦
                  let write : save_cursor s clock next ≡ ok (saved, t) = ground arith in
                  let (moved, stands, above) =
                    save_cursor-Moves s s t clock peer link next saved k p l refl refl refl
                      (ground arith) write in
                  cursor_or_first-found t peer link saved stands
            ]
      ]
    ]

module _ {W : Type 0} (apply : Bundle → W → Result Error (Unit {0}) × W) where
  apply_page-end :
      (s t : MemoryStore) (clock : Time) (peer_id link_id : Text) (page : List Bundle) (w w' : W)
      (end : ℕ)
      → IsKept s
      → apply_page apply s clock peer_id link_id
          (cursor_or_first s (trim_space peer_id) (trim_space link_id)).last_inbound_cursor
          page
          w
        ≡ (ok end, t, w')
      → (cursor_or_first t (trim_space peer_id) (trim_space link_id)).last_inbound_cursor ≡ end
  unfolding apply_page advance_applied
  apply_page-end s t clock peer_id link_id [] w w' end k h =
      let kept : s ≡ t = ground arith in rw (← kept) (ground arith)
  apply_page-end s t clock peer_id link_id (b ∷ bs) w w' end k h =
      let applied =
        (cursor_or_first s (trim_space peer_id) (trim_space link_id)).last_inbound_cursor in
      let w'' = (apply_each apply applied (b ∷ bs) w).1 in
      elim (Result-cases (apply_each apply applied (b ∷ bs) w).0) [
        | inr (e, q) ↦
            let run : apply_each apply applied (b ∷ bs) w ≡ (err e, w'') = rw (← q) refl in
            let h' = rw (run, apply_page, advance_applied) at h in cc
        | inl (m, q) ↦
            let run : apply_each apply applied (b ∷ bs) w ≡ (ok m, w'') = rw (← q) refl in
            let h' = rw (run, apply_page, advance_applied) at h in
            elim (Result-cases (advance_inbound_cursor s clock peer_id link_id m)) [
              | inr (e, r) ↦ let h'' = rw (r, advance_applied) at h' in cc
              | inl ((cursor, u), r) ↦
                  let h'' = rw (r, advance_applied) at h' in
                  let ends : u ≡ t = cc in
                  let given_back : cursor.last_inbound_cursor ≡ end = cc in
                  let r' : advance_inbound_cursor s clock peer_id link_id m ≡ ok (cursor, t) =
                    rw (← ends) r in
                  ap (λ (c : ReplicationCursor). c.last_inbound_cursor)
                    (advance-end s t clock peer_id link_id m cursor k r')
                  ∙ given_back
            ]
      ]

  pub apply_pending-end :
      (s t : MemoryStore) (clock : Time) (peer_id link_id : Text) (batch_size : ℤ) (w w' : W)
      (end : ℕ)
      → IsKept s
      → apply_pending_inbound_bundles apply s clock peer_id link_id batch_size w ≡ (ok end, t, w')
      → (cursor_or_first t (trim_space peer_id) (trim_space link_id)).last_inbound_cursor ≡ end
  unfolding apply_pending_inbound_bundles
  apply_pending-end s t clock peer_id link_id batch_size w w' end k h =
      let current = cursor_or_first s (trim_space peer_id) (trim_space link_id) in
      elim (Result-cases (replication_cursor s peer_id link_id)) [
        | inr (e, q) ↦ let h' = rw (q, apply_pending_inbound_bundles) at h in cc
        | inl (c, q) ↦
            let same : c ≡ current = unfold replication_cursor in ground arith in
            let h' = rw (q, apply_pending_inbound_bundles, same) at h in
            apply_page-end s t clock peer_id link_id
              (pending_inbound s peer_id link_id current batch_size) w w' end k h'
      ]
