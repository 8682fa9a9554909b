-- ===== src/Federation/Pulls/Marks.antt =====
-- What AcknowledgeBundles does to the acknowledged watermark.

use zvonilka.Federation.Bundles.{cursor_or_first}
use zvonilka.Base.{inl, inr, ok, ◌≡◌, [], arith, ◌∙◌, ap, Text, Time, Result-cases, trim_space}
use zvonilka.Federation.Replication.{
  then_healthy, acknowledge_bundles, allowed_acknowledgement, record_acknowledgement,
  trimmed_acknowledgement, settle_each, authorized_link,
}
use zvonilka.Federation.BundleRows.{save_cursor, normalize_replication_cursor}
use zvonilka.Federation.Store.{MemoryStore, link_by_id}
use zvonilka.Federation.Models.{ReplicationCursor}
use zvonilka.Federation.Pulls.{raised}
use zvonilka.Federation.Links.{mark_link_healthy, active_of_degraded, save_link}
use zvonilka.Federation.Params.{AcknowledgeBundlesParams}
use zvonilka.Federation.Submissions.Saves.{save_link-fragments}

save_cursor-row :
    (s t : MemoryStore) (clock : Time) (given saved : ReplicationCursor)
    → save_cursor s clock given ≡ ok (saved, t)
    → (saved.last_acked_cursor ≡ given.last_acked_cursor) × (t.fragments_by_id ≡ s.fragments_by_id)
unfolding save_cursor normalize_replication_cursor
save_cursor-row s t clock given saved h = ground arith

then_healthy-kept :
    {A : Type 0} (s t : MemoryStore) (clock : Time) (link_id : Text) (a b : A)
    → then_healthy s clock link_id a ≡ (ok b, t)
    → (b ≡ a) × (t.fragments_by_id ≡ s.fragments_by_id)
unfolding then_healthy mark_link_healthy
then_healthy-kept s t clock link_id a b h = elim (Result-cases (link_by_id s link_id)) [
  | inr (e, q) ↦ ground arith
  | inl (link, q) ↦
      let next = record link {
        last_healthy_at = clock;
        last_error = [];
        state = active_of_degraded link.state;
        updated_at = clock;
      } in
      elim (Result-cases (save_link s clock next)) [
        | inr (e, r) ↦ ground arith
        | inl ((saved, m), r) ↦ ground (arith, save_link-fragments s m clock next saved r)
      ]
]

pub acknowledge_bundles-mark :
    (s t : MemoryStore) (clock : Time) (params : AcknowledgeBundlesParams)
    (cursor : ReplicationCursor)
    → acknowledge_bundles s clock params ≡ (ok cursor, t)
    → (cursor.last_acked_cursor
        ≡ raised params.up_to_cursor
            (cursor_or_first s
              (trim_space params.peer_id)
              (trim_space params.link_id)).last_acked_cursor)
      × (t.fragments_by_id ≡ s.fragments_by_id)
unfolding acknowledge_bundles allowed_acknowledgement record_acknowledgement
acknowledge_bundles-mark s t clock given cursor h =
    let params = trimmed_acknowledgement given clock in
    let current = cursor_or_first s params.peer_id params.link_id in
    let moved = record current {
      last_acked_cursor = raised params.up_to_cursor current.last_acked_cursor;
      updated_at = params.acknowledged_at;
    } in
    let settled = record s { bundles_by_id = settle_each params s.bundles_by_id } in
    elim (Result-cases (authorized_link s params.peer_id params.link_id)) [
      | inr (e, q) ↦ ground arith
      | inl (link, q) ↦ elim (Result-cases (save_cursor settled clock moved)) [
        | inr (e, r) ↦ ground arith
        | inl ((saved, m), r) ↦
            let (mark, rows) = save_cursor-row settled m clock moved saved r in
            let (same, kept) =
              then_healthy-kept m t clock params.link_id saved cursor (ground arith) in
            (ap (λ (c : ReplicationCursor). c.last_acked_cursor) same ∙ mark, kept ∙ rows)
      ]
    ]
