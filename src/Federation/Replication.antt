-- ===== src/Federation/Replication.antt =====
-- PushInboundBundles, PullOutboundBundles, AdvanceInboundCursor and AcknowledgeBundles of
-- internal/domain/federation/service.go, over teststore/store.go. Their writes are not one
-- transaction: where a later one fails, the earlier ones stay, so that each operation also has the
-- store after an error.
pub mod Watermarks
pub mod Writes
pub mod Outcomes
pub mod Operations
pub mod Steps
use zvonilka.Base.{
  Text, Time, Option, true, false, ok, err, ◌>>=◌, ◌>>◌, [], ◌∷◌, List, Result, Bool, ℕ, text_eq,
  if◌then◌else◌, ℤ, refuse_if, trim_space, ◌&&◌, is_positive, is_empty, or_now, ltb, take, ◌||◌,
  pos_part, not, pos, leb, any, ◌+◌, length,
}
use zvonilka.Base.Dict.{Dict}
use zvonilka.Federation.Models.{
  Error, invalid_input, conflict, Bundle, BundleState, BundleDirection, ReplicationCursor, Link,
}
use zvonilka.Federation.Params.{SaveBundleParams, AcknowledgeBundlesParams}
use zvonilka.Federation.Store.{MemoryStore, Saved}
use zvonilka.Federation.Links.{authorize_link_for_peer, mark_link_healthy}
use zvonilka.Federation.Security.{Digests}
use zvonilka.Federation.BundleRows.{save_cursor}
use zvonilka.Federation.Bundles.{cursor_or_first, raised, accept_inbound_bundle}
use zvonilka.Federation.Leases.{is_outbound}
use zvonilka.Federation.BundleReads.{bundles_after}

unfoldable pub replication_cursor : MemoryStore → Text → Text → Result Error ReplicationCursor
replication_cursor s peer_id link_id = do
  refuse_if (is_empty (trim_space peer_id) || is_empty (trim_space link_id)) invalid_input
  ok (cursor_or_first s (trim_space peer_id) (trim_space link_id))

-- The guards of the operations under ids that are trimmed.
unfoldable pub authorized_link : MemoryStore → Text → Text → Result Error Link
authorized_link s peer_id link_id = do
  refuse_if (is_empty peer_id || is_empty link_id) invalid_input
  authorize_link_for_peer s peer_id link_id false

-- The outcome of an operation, and the store after it.
abbrev pub Outcome : Type 0 → Type 0
Outcome A = Result Error A × MemoryStore

-- The end of an operation: the link is marked healthy, and then `a` is returned.
unfoldable pub then_healthy : {A : Type 0} → MemoryStore → Time → Text → A → Outcome A
then_healthy s clock link_id a = elim (mark_link_healthy s clock link_id) [
  | ok (link, s') ↦ (ok a, s')
  | err e ↦ (err e, s)
]

abbrev pub page_size : ℤ → ℕ
page_size limit = if is_positive limit then pos_part limit else 100

unfoldable pub outbound_cursor : MemoryStore → Text → Text → Result Error ReplicationCursor
outbound_cursor s peer_id link_id = do
  refuse_if (is_empty (trim_space peer_id) || is_empty (trim_space link_id)) invalid_input
  link ← authorize_link_for_peer s peer_id link_id false
  replication_cursor s peer_id link_id

unfoldable pub pull_outbound_bundles :
    MemoryStore → Time → Text → Text → ℕ → ℤ → Outcome (List Bundle × ReplicationCursor × Bool)
pull_outbound_bundles s clock peer_id link_id after_cursor limit =
    elim (outbound_cursor s peer_id link_id) [
      | err e ↦ (err e, s)
      | ok cursor ↦
          let page = page_size limit in
          let found =
            bundles_after s peer_id link_id BundleDirection.outbound after_cursor
              (pos (page + 1)) in
          then_healthy s clock link_id (take page found, cursor, ltb page (length found))
    ]

abbrev pub with_accepted : Bundle → Result Error (List Bundle) → Result Error (List Bundle)
with_accepted b (err e) = err e
with_accepted b (ok bs) = ok (b ∷ bs)

-- The loop of PushInboundBundles. The ids are drawn one for each bundle.
module _ (d : Digests) (clock : Time) (peer_id link_id : Text) where
  unfoldable pub accept_each :
      MemoryStore → List (SaveBundleParams × Option Text) → Outcome (List Bundle)
  accept_each s [] = (ok [], s)
  accept_each s ((params, id) ∷ rest) =
      elim (accept_inbound_bundle d s clock id
        (record params { peer_id = peer_id; link_id = link_id })) [
          | err e ↦ (err e, s)
          | ok (b, s') ↦ let (outcome, t) = accept_each s' rest in (with_accepted b outcome, t)
        ]

unfoldable pub push_inbound_bundles :
    Digests
    → MemoryStore
    → Time
    → Text
    → Text
    → List (SaveBundleParams × Option Text)
    → Outcome (List Bundle × ReplicationCursor)
push_inbound_bundles d s clock peer_id link_id given =
    let peer = trim_space peer_id in
    let link = trim_space link_id in
    elim (authorized_link s peer link) [
      | err e ↦ (err e, s)
      | ok found ↦
          let (outcome, t) = accept_each d clock peer link s given in
          elim outcome [
            | err e ↦ (err e, t)
            | ok accepted ↦ elim (replication_cursor t peer link) [
              | err e ↦ (err e, t)
              | ok cursor ↦ then_healthy t clock link (accepted, cursor)
            ]
          ]
    ]

unfoldable pub advance_inbound_cursor :
    MemoryStore → Time → Text → Text → ℕ → Saved ReplicationCursor
advance_inbound_cursor s clock given_peer given_link up_to_cursor = do
  let peer_id = trim_space given_peer
  let link_id = trim_space given_link
  link ← authorized_link s peer_id link_id
  current ← replication_cursor s peer_id link_id
  refuse_if (ltb current.last_received_cursor up_to_cursor) conflict
  elim (leb up_to_cursor current.last_inbound_cursor) [
    | true ↦ ok (current, s)
    | false ↦
        save_cursor s clock
          (record current { last_inbound_cursor = up_to_cursor; updated_at = clock })
  ]

abbrev pub is_selected_bundle : AcknowledgeBundlesParams → Text → Bundle → Bool
is_selected_bundle params id b =
    text_eq b.peer_id params.peer_id
    && text_eq b.link_id params.link_id
    && is_outbound b.direction
    && ((not (is_empty id) && any (text_eq id) params.bundle_ids)
        || leb b.cursor_to params.up_to_cursor)

abbrev pub settled_bundle : AcknowledgeBundlesParams → Bundle → Bundle
settled_bundle params b = record b {
  state = BundleState.acknowledged;
  acked_at = params.acknowledged_at;
}

-- The loop of the store's AcknowledgeBundles.
unfoldable pub settle_each : AcknowledgeBundlesParams → Dict Bundle → Dict Bundle
settle_each params [] = []
settle_each params ((id, b) ∷ s) =
    (id, if is_selected_bundle params id b then settled_bundle params b else b)
    ∷ settle_each params s

unfoldable pub record_acknowledgement :
    MemoryStore → Time → AcknowledgeBundlesParams → Saved ReplicationCursor
record_acknowledgement s clock params =
    let current = cursor_or_first s params.peer_id params.link_id in
    save_cursor (record s { bundles_by_id = settle_each params s.bundles_by_id }) clock
      (record current {
        last_acked_cursor = raised params.up_to_cursor current.last_acked_cursor;
        updated_at = params.acknowledged_at;
      })

abbrev pub trimmed_acknowledgement : AcknowledgeBundlesParams → Time → AcknowledgeBundlesParams
trimmed_acknowledgement params clock = record params {
  peer_id = trim_space params.peer_id;
  link_id = trim_space params.link_id;
  acknowledged_at = or_now params.acknowledged_at clock;
}

unfoldable pub allowed_acknowledgement :
    MemoryStore → Time → AcknowledgeBundlesParams → Saved ReplicationCursor
allowed_acknowledgement s clock params = do
  link ← authorized_link s params.peer_id params.link_id
  record_acknowledgement s clock params

unfoldable pub acknowledge_bundles :
    MemoryStore → Time → AcknowledgeBundlesParams → Outcome ReplicationCursor
acknowledge_bundles s clock given =
    let params = trimmed_acknowledgement given clock in
    elim (allowed_acknowledgement s clock params) [
      | err e ↦ (err e, s)
      | ok (cursor, t) ↦ then_healthy t clock params.link_id cursor
    ]
