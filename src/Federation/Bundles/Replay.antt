-- ===== src/Federation/Bundles/Replay.antt =====
-- An inbound bundle that comes again.
use zvonilka.Base.{
  Time, ok, true, ◌≡◌, Result-cases, refl, inl, arith, inr, text_eq_refl, Text, IsTrimmed,
  Bool-cases, leb, ◌∙◌, trim_space-IsTrimmed, trim_lower_idem,
}
use zvonilka.Base.Dict.{get-put_self}
use zvonilka.Federation.Models.{ReplicationCursor, Bundle, BundleDirection}
use zvonilka.Federation.Store.{MemoryStore, bundle_by_dedup_key}
use zvonilka.Federation.BundleRows.{
  normalize_bundle, defaulted_bundle, save_bundle_row, kept_or_put, same_path, save_cursor,
  is_inbound,
}
use zvonilka.Federation.Fragments.{direction_eq}
use zvonilka.Federation.Bundles.{record_bundle, repeated_bundle, cursor_or_first, cursor_after}
use zvonilka.Federation.Replication.Watermarks.{IsKept, save_cursor-Moves, cursor_or_first-found}
use zvonilka.Federation.Replication.Writes.{save_bundle_row-cursors}

direction_eq_refl : (x : BundleDirection) → direction_eq x x ≡ true
direction_eq_refl BundleDirection.unspecified = refl
direction_eq_refl BundleDirection.inbound = refl
direction_eq_refl BundleDirection.outbound = refl

-- What save_bundle_row leaves: the saved row under the deduplication key, on the path of the given one,
-- and the links and peers as they were.
save_bundle_row-found :
    (s t : MemoryStore) (clock : Time) (given saved : Bundle)
    → defaulted_bundle given clock ≡ given
    → save_bundle_row s clock given ≡ ok (saved, t)
    → (bundle_by_dedup_key t given.dedup_key ≡ ok saved)
      × (same_path saved given ≡ true)
      × (t.links_by_id ≡ s.links_by_id)
      × (t.peers_by_id ≡ s.peers_by_id)
unfolding save_bundle_row kept_or_put normalize_bundle
save_bundle_row-found s t clock given saved normal h =
    elim (Result-cases (bundle_by_dedup_key s given.dedup_key)) [
      | inl (old, q) ↦ ground (arith, normal)
      | inr (e, q) ↦
          unfold bundle_by_dedup_key in
          ground (
            arith,
            normal,
            get-put_self s.bundle_ids_by_dedup given.dedup_key given.id,
            get-put_self s.bundles_by_id given.id given,
            text_eq_refl given.peer_id,
            text_eq_refl given.link_id,
            direction_eq_refl given.direction,
          )
    ]

save_cursor-frame :
    (s t : MemoryStore) (clock : Time) (given saved : ReplicationCursor)
    → save_cursor s clock given ≡ ok (saved, t)
    → (t.links_by_id ≡ s.links_by_id)
      × (t.peers_by_id ≡ s.peers_by_id)
      × ((key : Text) → bundle_by_dedup_key t key ≡ bundle_by_dedup_key s key)
unfolding save_cursor bundle_by_dedup_key
save_cursor-frame s t clock given saved h =
    let a : t.bundles_by_id ≡ s.bundles_by_id = ground arith in
    let b : t.bundle_ids_by_dedup ≡ s.bundle_ids_by_dedup = ground arith in
    (ground arith, ground arith, λ key. rw (a, b) refl)

-- Two bundles that stand for the same one: the id, the times and what was sealed may differ.
pub record IsRepeat (b b' : Bundle) : Type 0 where
  pub peer : b'.peer_id ≡ b.peer_id
  pub link : b'.link_id ≡ b.link_id
  pub key : b'.dedup_key ≡ b.dedup_key
  pub direction : b'.direction ≡ b.direction
  pub end : b'.cursor_to ≡ b.cursor_to

same_path-repeat :
    (saved b b' : Bundle) → IsRepeat b b' → same_path saved b ≡ true → same_path saved b' ≡ true
same_path-repeat saved b b' r h = rw (r.peer, r.link, r.direction) h

repeated_bundle-found :
    (t : MemoryStore) (b saved : Bundle)
    → bundle_by_dedup_key t b.dedup_key ≡ ok saved
    → same_path saved b ≡ true
    → repeated_bundle t b ≡ ok (saved, t)
unfolding repeated_bundle
repeated_bundle-found t b saved h p = ground arith

repeated_bundle-inv :
    (s t : MemoryStore) (b saved : Bundle)
    → repeated_bundle s b ≡ ok (saved, t)
    → (bundle_by_dedup_key s b.dedup_key ≡ ok saved) × (same_path saved b ≡ true) × (t ≡ s)
unfolding repeated_bundle
repeated_bundle-inv s t b saved h = ground arith

record_bundle-of_past :
    (t : MemoryStore) (now : Time) (b saved : Bundle)
    → is_inbound b.direction ≡ true
    → leb b.cursor_to (cursor_or_first t b.peer_id b.link_id).last_received_cursor ≡ true
    → repeated_bundle t b ≡ ok (saved, t)
    → record_bundle t now b ≡ ok (saved, t)
unfolding record_bundle
record_bundle-of_past t now b saved inbound past h = ground arith

-- The cursor of a repeated bundle is that of the first.
past-repeat :
    (t : MemoryStore) (b b' : Bundle)
    → IsRepeat b b'
    → leb b.cursor_to (cursor_or_first t b.peer_id b.link_id).last_received_cursor ≡ true
    → leb b'.cursor_to (cursor_or_first t b'.peer_id b'.link_id).last_received_cursor ≡ true
past-repeat t b b' r h = rw (r.peer, r.link, r.end) h

pub record_bundle-again :
    (s t : MemoryStore) (now now' : Time) (b b' saved : Bundle)
    → IsKept s
    → IsTrimmed b.peer_id
    → IsTrimmed b.link_id
    → is_inbound b.direction ≡ true
    → defaulted_bundle b now ≡ b
    → IsRepeat b b'
    → record_bundle s now b ≡ ok (saved, t)
    → (record_bundle t now' b' ≡ ok (saved, t))
      × (t.links_by_id ≡ s.links_by_id)
      × (t.peers_by_id ≡ s.peers_by_id)
unfolding record_bundle
record_bundle-again s t now now' b b' saved k p l inbound normal r h =
    let old = cursor_or_first s b.peer_id b.link_id in
    elim (Bool-cases (leb b.cursor_to old.last_received_cursor)) [
      | inl past ↦
          let h' : repeated_bundle s b ≡ ok (saved, t) = ground arith in
          let (found, path, same) = repeated_bundle-inv s t b saved h' in
          let again : repeated_bundle s b' ≡ ok (saved, s) =
            repeated_bundle-found s b' saved (rw r.key found)
              (same_path-repeat saved b b' r path) in
          rw same (
            record_bundle-of_past s now' b' saved (rw r.direction inbound)
                (past-repeat s b b' r past) again,
            refl,
            refl,
          )
      | inr fresh ↦ elim (Result-cases (save_bundle_row s now b)) [
        | inr (e, q) ↦ ground arith
        | inl ((row, m), q) ↦ elim (Result-cases (save_cursor m now (cursor_after old b now))) [
          | inr (e, w) ↦ ground arith
          | inl ((moved, u), w) ↦
              let ends : u ≡ t = ground arith in
              let is_saved : row ≡ saved = ground arith in
              let write : save_cursor m now (cursor_after old b now) ≡ ok (moved, t) =
                rw (← ends) w in
              let stored : save_bundle_row s now b ≡ ok (saved, m) = rw (← is_saved) q in
              let (found, path, links, peers) =
                save_bundle_row-found s m now b saved normal stored in
              let (moves, stands, above) =
                save_cursor-Moves s m t now b.peer_id b.link_id (cursor_after old b now) moved k p l
                  (save_bundle_row-cursors s m now b saved stored)
                  (unfold cursor_after in ground arith) (unfold cursor_after in ground arith)
                  (unfold cursor_after in ground arith) write in
              let frame = save_cursor-frame m t now (cursor_after old b now) moved write in
              let reached : leb b.cursor_to moved.last_received_cursor ≡ true =
                unfold cursor_after in ground (arith, above.received) in
              let again : repeated_bundle t b' ≡ ok (saved, t) =
                repeated_bundle-found t b' saved (frame.2 b'.dedup_key ∙ (rw r.key found))
                  (same_path-repeat saved b b' r path) in
              (
                record_bundle-of_past t now' b' saved (rw r.direction inbound)
                    (past-repeat t b b' r
                      (rw (cursor_or_first-found t b.peer_id b.link_id moved stands) reached))
                    again,
                frame.0 ∙ links,
                frame.1 ∙ peers,
              )
        ]
      ]
    ]

pub defaulted_bundle_idem :
    (b : Bundle) (now : Time)
    → defaulted_bundle (defaulted_bundle b now) now ≡ defaulted_bundle b now
unfolding defaulted_bundle
defaulted_bundle_idem b now = ground (
  arith,
  trim_space-IsTrimmed b.id,
  trim_space-IsTrimmed b.peer_id,
  trim_space-IsTrimmed b.link_id,
  trim_space-IsTrimmed b.dedup_key,
  trim_lower_idem b.integrity_hash,
  trim_lower_idem b.auth_tag,
  trim_lower_idem b.payload_type,
)
