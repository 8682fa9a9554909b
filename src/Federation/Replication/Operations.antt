-- ===== src/Federation/Replication/Operations.antt =====
-- The operations on bundles and cursors lower no watermark.
use zvonilka.Base.{
  Text, Time, Option, ok, ℕ, Result-cases, inl, inr, List, trim_space, ℤ, ◌≡◌, trim_space-IsTrimmed,
  arith, Bool-cases, leb, refl,
}
use zvonilka.Federation.Models.{ReplicationCursor}
use zvonilka.Federation.Params.{SaveBundleParams, AcknowledgeBundlesParams}
use zvonilka.Federation.Store.{MemoryStore}
use zvonilka.Federation.Security.{Digests}
use zvonilka.Federation.Replication.Watermarks.{IsKept, Moves, Moves-same, save_cursor-Moves}
use zvonilka.Federation.Replication.Writes.{accept_each-Moves, Moves-healthy}
use zvonilka.Federation.Replication.{
  advance_inbound_cursor, push_inbound_bundles, pull_outbound_bundles, acknowledge_bundles,
  trimmed_acknowledgement, authorized_link, outbound_cursor, accept_each, cursor_or_first,
  replication_cursor, raised, settle_each, allowed_acknowledgement, save_cursor,
  record_acknowledgement,
}

pub push-Moves :
    (d : Digests) (s : MemoryStore) (clock : Time) (peer_id link_id : Text)
    (given : List (SaveBundleParams × Option Text))
    → IsKept s
    → Moves s (push_inbound_bundles d s clock peer_id link_id given).1
unfolding push_inbound_bundles
push-Moves d s clock peer_id link_id given k =
    let peer = trim_space peer_id in
    let link = trim_space link_id in
    elim (Result-cases (authorized_link s peer link)) [
      | inr (e, q) ↦ rw (q, push_inbound_bundles) (Moves-same s s k refl)
      | inl (found, q) ↦
          let t = (accept_each d clock peer link s given).1 in
          let m = accept_each-Moves d clock peer link s given k in
          elim (Result-cases (accept_each d clock peer link s given).0) [
            | inr (e, r) ↦ rw (q, r, push_inbound_bundles) m
            | inl (accepted, r) ↦ elim (Result-cases (replication_cursor t peer link)) [
              | inr (e, u) ↦ rw (q, r, u, push_inbound_bundles) m
              | inl (cursor, u) ↦
                  rw (q, r, u, push_inbound_bundles)
                    (Moves-healthy s t clock link (accepted, cursor) m)
            ]
          ]
    ]

pub pull-Moves :
    (s : MemoryStore) (clock : Time) (peer_id link_id : Text) (after_cursor : ℕ) (limit : ℤ)
    → IsKept s
    → Moves s (pull_outbound_bundles s clock peer_id link_id after_cursor limit).1
unfolding pull_outbound_bundles
pull-Moves s clock peer_id link_id after_cursor limit k =
    elim (Result-cases (outbound_cursor s peer_id link_id)) [
      | inr (e, q) ↦ rw (q, pull_outbound_bundles) (Moves-same s s k refl)
      | inl (cursor, q) ↦
          rw (q, pull_outbound_bundles) (Moves-healthy s s clock link_id _ (Moves-same s s k refl))
    ]

pub advance-Moves :
    (s t : MemoryStore) (clock : Time) (peer_id link_id : Text) (up_to_cursor : ℕ)
    (saved : ReplicationCursor)
    → IsKept s
    → advance_inbound_cursor s clock peer_id link_id up_to_cursor ≡ ok (saved, t)
    → Moves s t
unfolding advance_inbound_cursor
advance-Moves s t clock given_peer given_link up_to_cursor saved k h =
    let peer = trim_space given_peer in
    let link = trim_space given_link in
    let p = trim_space-IsTrimmed given_peer in
    let l = trim_space-IsTrimmed given_link in
    let current = cursor_or_first s peer link in
    let next = record current { last_inbound_cursor = up_to_cursor; updated_at = clock } in
    elim (Result-cases (authorized_link s peer link)) [
      | inr (e, q) ↦ ground arith
      | inl (found, q) ↦ elim (Result-cases (replication_cursor s peer link)) [
        | inr (e, r) ↦ ground arith
        | inl (c, r) ↦
            let same : c ≡ current = unfold replication_cursor in ground (arith, p, l) in
            elim (Bool-cases (leb up_to_cursor current.last_inbound_cursor)) [
              | inl done ↦ Moves-same s t k (ground arith)
              | inr more ↦
                  let write : save_cursor s clock next ≡ ok (saved, t) = ground arith in
                  (save_cursor-Moves s s t clock peer link next saved k p l refl refl refl
                    (ground arith) write).0
            ]
      ]
    ]

pub acknowledge-Moves :
    (s : MemoryStore) (clock : Time) (params : AcknowledgeBundlesParams)
    → IsKept s
    → Moves s (acknowledge_bundles s clock params).1
unfolding acknowledge_bundles
acknowledge-Moves s clock given k =
    let params = trimmed_acknowledgement given clock in
    let p = trim_space-IsTrimmed given.peer_id in
    let l = trim_space-IsTrimmed given.link_id in
    let current = cursor_or_first s params.peer_id params.link_id in
    let next = record current {
      last_acked_cursor = raised params.up_to_cursor current.last_acked_cursor;
      updated_at = params.acknowledged_at;
    } in
    let m = record s { bundles_by_id = settle_each params s.bundles_by_id } in
    elim (Result-cases (allowed_acknowledgement s clock params)) [
      | inr (e, q) ↦ rw (q, acknowledge_bundles) (Moves-same s s k refl)
      | inl ((cursor, t), q) ↦
          let write : save_cursor m clock next ≡ ok (cursor, t) =
            unfold allowed_acknowledgement record_acknowledgement in ground arith in
          rw (q, acknowledge_bundles)
            (Moves-healthy s t clock params.link_id cursor
              (save_cursor-Moves s m t clock params.peer_id params.link_id next cursor k p l refl
                refl refl (ground arith) write).0)
    ]
