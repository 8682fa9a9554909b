-- ===== src/Federation/Pulls/Ready.antt =====
-- How far an acknowledgement of fragments moves the watermark of the link.
use mathlib.Core.Path.{subst}
use zvonilka.Federation.FragmentRows.{fragments_by_bundle}
use zvonilka.Federation.Replication.{replication_cursor}
use zvonilka.Federation.Bundles.{cursor_or_first}
use zvonilka.Federation.Store.{cursor_by_peer_and_link}
use zvonilka.Federation.Bridge.{bridge_link, and_then-ok, and_then}
use zvonilka.Federation.Pulls.Marks.{acknowledge_bundles-mark}
use zvonilka.Base.{
  ◌⊎◌, inl, inr, ok, ◌≡◌, [], ◌∷◌, true, arith, ◌∙◌, sym, ap, refl, ℕ, List, Text, Time, Bool-cases,
  any, ltb, text_eq, trim_space, ◌<◌, or_now,
}
use zvonilka.Federation.Store.{MemoryStore}
use zvonilka.Federation.Models.{BundleFragment, ReplicationCursor, BundleDirection, Peer, Link}
use zvonilka.Federation.Pulls.{
  ready_bundles, all_fragments_acknowledged, raised, acknowledge_ready, acknowledge_on,
  acknowledge_bridge_fragments, acknowledgement_link, lacks_token, AcknowledgeFragmentsParams,
  acknowledge_fragments, Outcome,
}

-- A fragment of a bundle that ends at `mark`, all of whose fragments are acknowledged.
abbrev pub IsEnd : MemoryStore → ℕ → BundleFragment → Type 0
IsEnd s mark f =
    (all_fragments_acknowledged (fragments_by_bundle s f.bundle_id BundleDirection.outbound) ≡ true)
    × (f.cursor_to ≡ mark)

abbrev pub SomeOf : (BundleFragment → Type 0) → List BundleFragment → Type 0
SomeOf P [] = ⊥
SomeOf P (f ∷ fs) = P f ⊎ SomeOf P fs

-- The outcome of the loop over the updated fragments.
abbrev IsReady : MemoryStore → List BundleFragment → List Text × ℕ → Type 0
IsReady s fs (ids, mark) = ((ids ≡ []) × (mark ≡ 0)) ⊎ SomeOf (IsEnd s mark) fs

IsReady-later :
    (s : MemoryStore) (f : BundleFragment) (fs : List BundleFragment) (found : List Text × ℕ)
    → IsReady s fs found
    → IsReady s (f ∷ fs) found
IsReady-later s f fs (ids, mark) (inl none_ready) = inl none_ready
IsReady-later s f fs (ids, mark) (inr one) = inr (inr one)

IsReady-raised :
    (s : MemoryStore) (f : BundleFragment) (fs : List BundleFragment) (ids : List Text) (mark : ℕ)
    → all_fragments_acknowledged (fragments_by_bundle s f.bundle_id BundleDirection.outbound) ≡ true
    → IsReady s fs (ids, mark)
    → IsReady s (f ∷ fs) (f.bundle_id ∷ ids, raised f.cursor_to mark)
IsReady-raised s f fs ids mark a r =
    let ready = λ (n : ℕ). IsReady s (f ∷ fs) (f.bundle_id ∷ ids, n) in
    elim (Bool-cases (ltb mark f.cursor_to)) [
      | inl further ↦
          let e : raised f.cursor_to mark ≡ f.cursor_to = ground arith in
          subst ready (sym e) (inr (inl (a, refl)))
      | inr within ↦
          let e : raised f.cursor_to mark ≡ mark = ground arith in
          subst ready (sym e)
            (elim r [ inl (none_yet, z) ↦ inr (inl (a, ground arith)) | inr one ↦ inr (inr one) ])
    ]

ready_bundles-IsReady :
    (s : MemoryStore) (seen : List Text) (fs : List BundleFragment)
    → IsReady s fs (ready_bundles s seen fs)
unfolding ready_bundles
ready_bundles-IsReady s seen [] = inl (refl, refl)
ready_bundles-IsReady s seen (f ∷ fs) =
    let more = ready_bundles-IsReady s (f.bundle_id ∷ seen) fs in
    let found = ready_bundles s (f.bundle_id ∷ seen) fs in
    let acknowledged =
      all_fragments_acknowledged (fragments_by_bundle s f.bundle_id BundleDirection.outbound) in
    let ready = IsReady s (f ∷ fs) in
    elim (Bool-cases (any (text_eq f.bundle_id) seen)) [
      | inl passed ↦
          let e : ready_bundles s seen (f ∷ fs) ≡ ready_bundles s seen fs = rw passed refl in
          subst ready (sym e)
            (IsReady-later s f fs (ready_bundles s seen fs) (ready_bundles-IsReady s seen fs))
      | inr first ↦ elim (Bool-cases acknowledged) [
        | inl a ↦
            let e : ready_bundles s seen (f ∷ fs)
                ≡ (f.bundle_id ∷ found.0, raised f.cursor_to found.1) =
              rw (first, a) refl in
            subst ready (sym e) (IsReady-raised s f fs found.0 found.1 a more)
        | inr a ↦
            let e : ready_bundles s seen (f ∷ fs) ≡ found = rw (first, a) refl in
            subst ready (sym e) (IsReady-later s f fs found more)
      ]
    ]

acknowledge_ready-IsReady :
    (s t : MemoryStore) (now : Time) (peer_id link_id : Text) (at_time : Time)
    (earlier after : ReplicationCursor) (fs : List BundleFragment) (found : List Text × ℕ)
    → cursor_or_first s (trim_space peer_id) (trim_space link_id) ≡ earlier
    → IsReady s fs found
    → acknowledge_ready s now peer_id link_id at_time earlier found ≡ (ok after, t)
    → (t.fragments_by_id ≡ s.fragments_by_id)
      × ((after.last_acked_cursor ≡ earlier.last_acked_cursor)
          ⊎ (earlier.last_acked_cursor < after.last_acked_cursor)
            × SomeOf (IsEnd s after.last_acked_cursor) fs)
unfolding acknowledge_ready
acknowledge_ready-IsReady s t now peer_id link_id at_time b a fs ([], mark) same r h =
    (ground arith, inl (ground arith))
acknowledge_ready-IsReady s t now peer_id link_id at_time b a fs (id ∷ ids, mark) same r h =
    let (moved, rows) =
      acknowledge_bundles-mark s t now
        (record {
          peer_id = peer_id;
          link_id = link_id;
          up_to_cursor = mark;
          bundle_ids = id ∷ ids;
          acknowledged_at = at_time;
        })
        a h in
    let old = b.last_acked_cursor in
    let end : a.last_acked_cursor ≡ raised mark old =
      moved ∙ ap (λ (c : ReplicationCursor). raised mark c.last_acked_cursor) same in
    (
      rows,
      elim (Bool-cases (ltb old mark)) [
        | inr within ↦ inl (ground arith)
        | inl further ↦ elim r [
          | inl (none_ready, z) ↦ inl (ground arith)
          | inr one ↦
              let at_mark : a.last_acked_cursor ≡ mark = ground arith in
              inr (ground arith, subst (λ n. SomeOf (IsEnd s n) fs) (sym at_mark) one)
        ]
      ],
    )

SomeOf-rows :
    (s t : MemoryStore) (mark : ℕ) (fs : List BundleFragment)
    → t.fragments_by_id ≡ s.fragments_by_id
    → SomeOf (IsEnd s mark) fs
    → SomeOf (IsEnd t mark) fs
unfolding fragments_by_bundle
SomeOf-rows s t mark [] e p = p
SomeOf-rows s t mark (f ∷ fs) e (inl (a, q)) = inl (rw e a, q)
SomeOf-rows s t mark (f ∷ fs) e (inr p) = inr (SomeOf-rows s t mark fs e p)

replication_cursor-first :
    (s : MemoryStore) (peer_id link_id : Text) (c : ReplicationCursor)
    → replication_cursor s peer_id link_id ≡ ok c
    → cursor_or_first s (trim_space peer_id) (trim_space link_id) ≡ c
unfolding replication_cursor
replication_cursor-first s peer_id link_id c h = ground arith

acknowledge_on-ready :
    (s t : MemoryStore) (now : Time) (params : AcknowledgeFragmentsParams)
    (earlier after : ReplicationCursor) (updated : List BundleFragment)
    → replication_cursor s params.peer_id params.link_id ≡ ok earlier
    → acknowledge_on s now params ≡ (ok (updated, after), t)
    → (after.last_acked_cursor ≡ earlier.last_acked_cursor)
      ⊎ (earlier.last_acked_cursor < after.last_acked_cursor)
        × SomeOf (IsEnd t after.last_acked_cursor) updated
unfolding acknowledge_on replication_cursor cursor_or_first cursor_by_peer_and_link
acknowledge_on-ready s t now params b a updated c h =
    let done = acknowledge_fragments s.fragments_by_id params in
    let s' : MemoryStore = record s { fragments_by_id = done.1 } in
    let found = ready_bundles s' [] done.0 in
    let ready : ReplicationCursor → MemoryStore → Outcome ReplicationCursor = λ c u.
      acknowledge_ready u now params.peer_id params.link_id params.acknowledged_at c
        (ready_bundles u [] done.0) in
    let close : ReplicationCursor
        → MemoryStore
        → Outcome (List BundleFragment × ReplicationCursor) =
      λ moved u. (ok (done.0, moved), u) in
    let known : replication_cursor s' params.peer_id params.link_id ≡ ok b = c in
    let run : and_then (ready b s') close ≡ (ok (updated, a), t) =
      ap (λ r. and_then (r, s') (λ c u. and_then (ready c u) close)) (sym known) ∙ h in
    let (moved, t', q, r) = and_then-ok (ready b s') close (updated, a) t run in
    let same : cursor_or_first s' (trim_space params.peer_id) (trim_space params.link_id) ≡ b =
      replication_cursor-first s params.peer_id params.link_id b c in
    let (rows, way) =
      acknowledge_ready-IsReady s' t' now params.peer_id params.link_id params.acknowledged_at b
        moved done.0 found same (ready_bundles-IsReady s' [] done.0) q in
    let store : t' ≡ t = ground arith in
    let cursor : moved ≡ a = ground arith in
    let list : done.0 ≡ updated = ground arith in
    elim way [
      | inl still ↦ inl (ground arith)
      | inr (further, ends) ↦
          let after_it = SomeOf-rows s' t' moved.last_acked_cursor done.0 rows ends in
          inr (rw (← store, ← cursor, ← list) (further, after_it))
    ]

-- An acknowledgement of fragments that succeeds leaves the acknowledged watermark of its link as it was,
-- or moves it forward to the end of a bundle of one of the fragments that it acknowledged, every
-- outbound fragment of which the store after it has as acknowledged.
pub acknowledge_bridge_fragments-ready :
    (s t : MemoryStore) (now : Time) (peer_server_name link_name : Text) (ids : List Text)
    (token : Text) (acknowledged_at : Time) (peer : Peer) (link : Link)
    (earlier after : ReplicationCursor) (updated : List BundleFragment)
    → bridge_link s peer_server_name link_name ≡ ok (peer, link)
    → replication_cursor s peer.id link.id ≡ ok earlier
    → acknowledge_bridge_fragments s now peer_server_name link_name ids token acknowledged_at
      ≡ (ok (updated, after), t)
    → (after.last_acked_cursor ≡ earlier.last_acked_cursor)
      ⊎ (earlier.last_acked_cursor < after.last_acked_cursor)
        × SomeOf (IsEnd t after.last_acked_cursor) updated
unfolding acknowledge_bridge_fragments acknowledgement_link
acknowledge_bridge_fragments-ready s t now server name ids token at_time peer link b a updated found
      c h =
    let params : AcknowledgeFragmentsParams = record {
      peer_id = peer.id;
      link_id = link.id;
      fragment_ids = ids;
      lease_token = trim_space token;
      acknowledged_at = or_now at_time now;
    } in
    elim (Bool-cases (lacks_token ids token)) [
      | inl bare ↦ ground arith
      | inr given ↦
          let run : acknowledge_on s now params ≡ (ok (updated, a), t) = ground arith in
          acknowledge_on-ready s t now params b a updated c run
    ]
