-- ===== src/Federation/Submissions/Bundled.antt =====
-- Accepting the bundle of complete fragments leaves the settled fragments as they are.

use zvonilka.Base.{
  ok, ◌≡◌, arith, ◌∙◌, ap, Time, Option, Result-cases, Text, Bool-cases, inr, inl, ◌&&◌, leb,
}
use zvonilka.Federation.Bundles.{
  record_bundle, accept_inbound_bundle, cursor_or_first, repeated_bundle, cursor_after,
}
use zvonilka.Federation.BundleRows.{
  save_bundle_row, save_cursor, normalize_bundle, is_inbound, kept_or_put,
}
use zvonilka.Federation.Security.{Digests}
use zvonilka.Federation.Store.{MemoryStore, bundle_by_dedup_key}
use zvonilka.Federation.Models.{ReplicationCursor, Bundle, BundleDirection}
use zvonilka.Federation.Params.{SaveBundleParams}
use zvonilka.Federation.Replication.Writes.{save_bundle-recorded, repeated_bundle-same}

save_bundle_row-fragments :
    (s t : MemoryStore) (clock : Time) (given saved : Bundle)
    → save_bundle_row s clock given ≡ ok (saved, t)
    → t.fragments_by_id ≡ s.fragments_by_id
unfolding save_bundle_row
save_bundle_row-fragments s t clock given saved h =
    elim (Result-cases (normalize_bundle given clock)) [
      | inr (e, q) ↦ ground arith
      | inl (row, q) ↦ elim (Result-cases (bundle_by_dedup_key s row.dedup_key)) [
        | inr (e, r) ↦ unfold kept_or_put in ground arith
        | inl (old, r) ↦ unfold kept_or_put in ground arith
      ]
    ]

save_cursor-fragments :
    (s t : MemoryStore) (clock : Time) (given saved : ReplicationCursor)
    → save_cursor s clock given ≡ ok (saved, t)
    → t.fragments_by_id ≡ s.fragments_by_id
unfolding save_cursor
save_cursor-fragments s t clock given saved h = ground arith

record_bundle-fragments :
    (s t : MemoryStore) (now : Time) (b saved : Bundle)
    → record_bundle s now b ≡ ok (saved, t)
    → t.fragments_by_id ≡ s.fragments_by_id
unfolding record_bundle
record_bundle-fragments s t now b saved h =
    let old = cursor_or_first s b.peer_id b.link_id in
    elim (Bool-cases (is_inbound b.direction && leb b.cursor_to old.last_received_cursor)) [
      | inl yes' ↦
          let again : repeated_bundle s b ≡ ok (saved, t) = ground arith in
          ap (λ (m : MemoryStore). m.fragments_by_id) (repeated_bundle-same s t b saved again)
      | inr no' ↦ elim (Result-cases (save_bundle_row s now b)) [
        | inr (e, q) ↦ ground arith
        | inl ((row, m), q) ↦ elim (Result-cases (save_cursor m now (cursor_after old b now))) [
          | inr (e, r) ↦ ground arith
          | inl ((moved, u), r) ↦
              let end : t ≡ u = ground arith in
              ap (λ (m : MemoryStore). m.fragments_by_id) end
              ∙ save_cursor-fragments m u now (cursor_after old b now) moved r
              ∙ save_bundle_row-fragments s m now b row q
        ]
      ]
    ]

pub accept_inbound_bundle-fragments :
    (d : Digests) (s t : MemoryStore) (now : Time) (id : Option Text) (params : SaveBundleParams)
    (saved : Bundle)
    → accept_inbound_bundle d s now id params ≡ ok (saved, t)
    → t.fragments_by_id ≡ s.fragments_by_id
unfolding accept_inbound_bundle
accept_inbound_bundle-fragments d s t now id params saved h =
    let (b, p, l, r) = save_bundle-recorded d s t now id params BundleDirection.inbound saved h in
    record_bundle-fragments s t now b saved r
