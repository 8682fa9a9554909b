-- ===== src/Federation/Replication/Writes.antt =====
-- The writes of saveBundle, of links and of peers: what they do to the cursors.
use zvonilka.Base.{
  ◌∷◌, [], Text, Time, ok, Result-cases, inl, inr, [], ◌≡◌, IsTrimmed, arith, Bool-cases, ◌&&◌, leb,
  ap, Option, trim_space-IsTrimmed, List, trim_space, refl,
}
use zvonilka.Federation.Models.{Link, Peer, Bundle, BundleDirection}
use zvonilka.Federation.Store.{MemoryStore, link_by_id, bundle_by_dedup_key, drawn}
use zvonilka.Federation.Security.{Digests, sign_bundle, peer_and_link, verify_bundle}
use zvonilka.Federation.Links.{save_link, mark_link_healthy, active_of_degraded}
use zvonilka.Federation.BundleRows.{
  save_cursor, kept_or_put, save_bundle_row, normalize_bundle, is_inbound, defaulted_bundle,
}
use zvonilka.Federation.Bundles.{
  cursor_or_first, cursor_after, repeated_bundle, record_bundle, sealed_bundle, save_bundle,
  accept_inbound_bundle, new_bundle,
}
use zvonilka.Federation.Replication.Watermarks.{
  IsKept, Moves, Moves-same, save_cursor-Moves, Moves-trans,
}
use zvonilka.Federation.Peers.{save_peer, save_row}
use zvonilka.Federation.Replication.{then_healthy, accept_each, SaveBundleParams}

pub save_link-cursors :
    (s t : MemoryStore) (clock : Time) (given saved : Link)
    → save_link s clock given ≡ ok (saved, t)
    → t.cursors_by_key ≡ s.cursors_by_key
unfolding save_link
save_link-cursors s t clock given saved h = ground arith

pub save_peer-cursors :
    (d : Digests) (s t : MemoryStore) (clock : Time) (given saved : Peer)
    → save_peer d s clock given ≡ ok (saved, t)
    → t.cursors_by_key ≡ s.cursors_by_key
unfolding save_peer save_row
save_peer-cursors d s t clock given saved h = ground arith

then_healthy-cursors :
    {A : Type 0} (s : MemoryStore) (clock : Time) (link_id : Text) (a : A)
    → (then_healthy s clock link_id a).1.cursors_by_key ≡ s.cursors_by_key
unfolding then_healthy mark_link_healthy
then_healthy-cursors s clock link_id a = elim (Result-cases (link_by_id s link_id)) [
  | inr (e, q) ↦ ground arith
  | inl (link, q) ↦
      let next = record link {
        last_healthy_at = clock;
        last_error = [];
        state = active_of_degraded link.state;
        updated_at = clock;
      } in
      elim (Result-cases (save_link s clock next)) [
        | inr (e, r) ↦ ground arith
        | inl ((saved, t), r) ↦ ground (arith, save_link-cursors s t clock next saved r)
      ]
]

pub save_bundle_row-cursors :
    (s t : MemoryStore) (clock : Time) (given saved : Bundle)
    → save_bundle_row s clock given ≡ ok (saved, t)
    → t.cursors_by_key ≡ s.cursors_by_key
unfolding save_bundle_row
save_bundle_row-cursors s t clock given saved h =
    elim (Result-cases (normalize_bundle given clock)) [
      | inr (e, q) ↦ ground arith
      | inl (row, q) ↦ elim (Result-cases (bundle_by_dedup_key s row.dedup_key)) [
        | inr (e, r) ↦ unfold kept_or_put in ground arith
        | inl (old, r) ↦ unfold kept_or_put in ground arith
      ]
    ]

pub repeated_bundle-same :
    (s t : MemoryStore) (b saved : Bundle) → repeated_bundle s b ≡ ok (saved, t) → t ≡ s
unfolding repeated_bundle
repeated_bundle-same s t b saved h = ground arith

pub record_bundle-Moves :
    (s t : MemoryStore) (now : Time) (b saved : Bundle)
    → IsKept s
    → IsTrimmed b.peer_id
    → IsTrimmed b.link_id
    → record_bundle s now b ≡ ok (saved, t)
    → Moves s t
unfolding record_bundle
record_bundle-Moves s t now b saved k p l h =
    let old = cursor_or_first s b.peer_id b.link_id in
    elim (Bool-cases (is_inbound b.direction && leb b.cursor_to old.last_received_cursor)) [
      | inl yes' ↦
          let h' : repeated_bundle s b ≡ ok (saved, t) = ground arith in
          Moves-same s t k
            (ap (λ (m : MemoryStore). m.cursors_by_key) (repeated_bundle-same s t b saved h'))
      | inr no' ↦ elim (Result-cases (save_bundle_row s now b)) [
        | inr (e, q) ↦ ground arith
        | inl ((row, m), q) ↦ elim (Result-cases (save_cursor m now (cursor_after old b now))) [
          | inr (e, r) ↦ ground arith
          | inl ((moved, u), r) ↦
              let end : u ≡ t = ground arith in
              rw (← end) (
                (save_cursor-Moves s m u now b.peer_id b.link_id (cursor_after old b now) moved k p
                  l (save_bundle_row-cursors s m now b row q) (unfold cursor_after in ground arith)
                  (unfold cursor_after in ground arith) (unfold cursor_after in ground arith) r).0)
        ]
      ]
    ]

normalize_bundle-IsTrimmed :
    (given b : Bundle) (now : Time)
    → normalize_bundle given now ≡ ok b
    → IsTrimmed b.peer_id × IsTrimmed b.link_id
unfolding normalize_bundle defaulted_bundle
normalize_bundle-IsTrimmed given b now h =
    ground (arith, trim_space-IsTrimmed given.peer_id, trim_space-IsTrimmed given.link_id)

pub sealed_bundle-path :
    (d : Digests) (s : MemoryStore) (b c : Bundle)
    → sealed_bundle d s b ≡ ok c
    → (c.peer_id ≡ b.peer_id) × (c.link_id ≡ b.link_id)
unfolding sealed_bundle sign_bundle
sealed_bundle-path d s b c h = elim (Result-cases (peer_and_link s b.peer_id b.link_id)) [
  | inr (e, q) ↦ ground arith
  | inl ((peer, link), q) ↦ elim (Result-cases (verify_bundle d peer link b)) [
    | inr (e, r) ↦ ground arith
    | inl (u, r) ↦ ground arith
  ]
]

-- What saveBundle comes to: the transaction on a bundle with trimmed ids.
pub save_bundle-recorded :
    (d : Digests) (s t : MemoryStore) (now : Time) (id : Option Text) (params : SaveBundleParams)
    (direction : BundleDirection) (saved : Bundle)
    → save_bundle d s now id params direction ≡ ok (saved, t)
    → (b : Bundle) × IsTrimmed b.peer_id
      × IsTrimmed b.link_id
      × (record_bundle s now b ≡ ok (saved, t))
unfolding save_bundle
save_bundle-recorded d s t now id params direction saved h =
    elim (Result-cases (link_by_id s (trim_space params.link_id))) [
      | inr (e, p) ↦ ground arith
      | inl (link, p) ↦ elim (Result-cases (drawn id)) [
        | inr (e, q) ↦ ground arith
        | inl (name, q) ↦
            elim (Result-cases (normalize_bundle (new_bundle params direction name) now)) [
              | inr (e, r) ↦ ground arith
              | inl (normal, r) ↦ elim (Result-cases (sealed_bundle d s normal)) [
                | inr (e, u) ↦ ground arith
                | inl (b, u) ↦
                    let trimmed =
                      normalize_bundle-IsTrimmed (new_bundle params direction name) normal now r in
                    let path = sealed_bundle-path d s normal b u in
                    (b, rw path.0 trimmed.0, rw path.1 trimmed.1, ground arith)
              ]
            ]
      ]
    ]

pub save_bundle-Moves :
    (d : Digests) (s t : MemoryStore) (now : Time) (id : Option Text) (params : SaveBundleParams)
    (direction : BundleDirection) (saved : Bundle)
    → IsKept s
    → save_bundle d s now id params direction ≡ ok (saved, t)
    → Moves s t
save_bundle-Moves d s t now id params direction saved k h =
    let (b, p, l, r) = save_bundle-recorded d s t now id params direction saved h in
    record_bundle-Moves s t now b saved k p l r

pub accept_each-Moves :
    (d : Digests) (clock : Time) (peer_id link_id : Text) (s : MemoryStore)
    (given : List (SaveBundleParams × Option Text))
    → IsKept s
    → Moves s (accept_each d clock peer_id link_id s given).1
unfolding accept_each accept_inbound_bundle
accept_each-Moves d clock peer_id link_id s [] k = Moves-same s s k refl
accept_each-Moves d clock peer_id link_id s ((params, id) ∷ rest) k =
    let own = record params { peer_id = peer_id; link_id = link_id } in
    elim (Result-cases (save_bundle d s clock id own BundleDirection.inbound)) [
      | inr (e, q) ↦ rw (q, accept_each) (Moves-same s s k refl)
      | inl ((b, m), q) ↦
          let first = save_bundle-Moves d s m clock id own BundleDirection.inbound b k q in
          let later = accept_each-Moves d clock peer_id link_id m rest first.kept in
          rw (q, accept_each)
            (Moves-trans s m (accept_each d clock peer_id link_id m rest).1 first later)
    ]

pub Moves-healthy :
    {A : Type 0} (s t : MemoryStore) (clock : Time) (link_id : Text) (a : A)
    → Moves s t
    → Moves s (then_healthy t clock link_id a).1
Moves-healthy s t clock link_id a m =
    let u = (then_healthy t clock link_id a).1 in
    Moves-trans s t u m (Moves-same t u m.kept (then_healthy-cursors t clock link_id a))
