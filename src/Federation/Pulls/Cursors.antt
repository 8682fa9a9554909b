-- ===== src/Federation/Pulls/Cursors.antt =====
-- Pulling fragments over a bridge lowers no watermark.
use zvonilka.Federation.Submissions.Cursors.{save_fragment-Moves}
use zvonilka.Federation.Replication.Outcomes.{and_then-Moves, as_outcome-Moves, with_first-Moves}
use zvonilka.Federation.Replication.Watermarks.{IsKept, Moves, Moves-same, Moves-trans}
use zvonilka.Federation.Parts.{
  with_first, save_parts, ensure_outbound_fragments, part_params, part_limit,
}
use zvonilka.Federation.Bridge.{save_fragment, bridge_link, and_then, as_outcome}
use zvonilka.Federation.Fragments.{split_payload}
use zvonilka.Federation.FragmentRows.{fragments_by_bundle}
use zvonilka.Federation.Leases.{claim_fragments, ClaimFragmentsParams}
use zvonilka.Federation.BundleReads.{bundles_after}
use zvonilka.Federation.Store.{MemoryStore, drawn}
use zvonilka.Federation.Models.{
  Bundle, BundleFragment, Bytes, Link, Peer, ReplicationCursor, BundleDirection,
}
use zvonilka.Federation.Pulls.{
  pull_bridge_fragments, claim_again, claim_or_cut, ensure_each, claim_bridge_fragments,
  replication_cursor, fragment_limit, has_more, Outcome,
}
use zvonilka.Base.{
  Time, ℕ, Text, Option, List, [], ℤ, ◌∷◌, ◌≡◌, suc, length, ok, Result-cases, refl, inr, arith,
  inl, ◌+◌,
}

claim_bridge_fragments-cursors :
    (s t : MemoryStore) (now : Time) (ttl : ℕ) (token : Option Text) (peer_id link_id : Text)
    (limit : ℤ) (claimed : List BundleFragment × Text)
    → claim_bridge_fragments s now ttl token peer_id link_id limit ≡ ok (claimed, t)
    → t.cursors_by_key ≡ s.cursors_by_key
unfolding claim_bridge_fragments
claim_bridge_fragments-cursors s t now ttl token peer_id link_id limit claimed h =
    elim (Result-cases (drawn token)) [
      | inr (e, q) ↦ ground arith
      | inl (name, q) ↦
          let params : ClaimFragmentsParams = record {
            peer_id = peer_id;
            link_id = link_id;
            limit = limit;
            claimed_at = now;
            lease_token = name;
            lease_expires_at = now + ttl;
          } in
          elim (Result-cases (claim_fragments s.fragments_by_id now params)) [
            | inr (e, r) ↦ ground arith
            | inl (([], rows), r) ↦ ground arith
            | inl ((f ∷ fs, rows), r) ↦ ground arith
          ]
    ]

module _ (s : MemoryStore) where
  save_parts-Moves :
      (t : MemoryStore) (now : Time) (ids : ℕ → Option Text) (b : Bundle) (count index : ℕ)
      (parts : List Bytes)
      → Moves s t
      → Moves s (save_parts t now ids b count index parts).1
  unfolding save_parts
  save_parts-Moves t now ids b count index [] m = m
  save_parts-Moves t now ids b count index (part ∷ parts) m =
      let own = part_params b index count part in
      and_then-Moves s (save_fragment t now (ids index) own)
        (λ f u. with_first f (save_parts u now ids b count (suc index) parts))
        (save_fragment-Moves s t now (ids index) own m)
        (λ f u n.
          with_first-Moves s f (save_parts u now ids b count (suc index) parts)
            (save_parts-Moves u now ids b count (suc index) parts n))

  -- The fragments that are kept already, or the parts where there are none.
  kept_or_cut-Moves :
      (t : MemoryStore) (now : Time) (ids : ℕ → Option Text) (b : Bundle) (parts : List Bytes)
      (kept : List BundleFragment)
      → Moves s t
      → Moves s
          (elim kept as (λ x. Outcome (List BundleFragment)) [
            | [] ↦ save_parts t now ids b (length parts) 0 parts
            | f ∷ fs ↦ (ok (f ∷ fs), t)
          ]).1
  kept_or_cut-Moves t now ids b parts [] m = save_parts-Moves t now ids b (length parts) 0 parts m
  kept_or_cut-Moves t now ids b parts (f ∷ fs) m = m

  ensure_outbound_fragments-Moves :
      (t : MemoryStore) (now : Time) (ids : ℕ → Option Text) (link : Link) (b : Bundle)
      → Moves s t
      → Moves s (ensure_outbound_fragments t now ids link b).1
  unfolding ensure_outbound_fragments
  ensure_outbound_fragments-Moves t now ids link b m =
      kept_or_cut-Moves t now ids b (split_payload b.payload (part_limit link))
        (fragments_by_bundle t b.id BundleDirection.outbound) m

  ensure_each-Moves :
      (t : MemoryStore) (now : Time) (ids : Text → ℕ → Option Text) (link : Link) (bs : List Bundle)
      → Moves s t
      → Moves s (ensure_each t now ids link bs).1
  unfolding ensure_each
  ensure_each-Moves t now ids link [] m = m
  ensure_each-Moves t now ids link (b ∷ bs) m =
      and_then-Moves s (ensure_outbound_fragments t now (ids b.id) link b)
        (λ fs u. ensure_each u now ids link bs)
        (ensure_outbound_fragments-Moves t now (ids b.id) link b m)
        (λ fs u n. ensure_each-Moves u now ids link bs n)

  claimed-Moves :
      (t : MemoryStore) (now : Time) (ttl : ℕ) (token : Option Text) (peer_id link_id : Text)
      (limit : ℤ)
      → Moves s t
      → Moves s (as_outcome t (claim_bridge_fragments t now ttl token peer_id link_id limit)).1
  claimed-Moves t now ttl token peer_id link_id limit m =
      as_outcome-Moves s t (claim_bridge_fragments t now ttl token peer_id link_id limit) m
        (λ claimed u q. Moves-trans s t u m (
          Moves-same t u m.kept
            (claim_bridge_fragments-cursors t u now ttl token peer_id link_id limit claimed q)))

  claim_again-Moves :
      (t : MemoryStore) (now : Time) (ttl : ℕ) (token : Option Text) (ids : Text → ℕ → Option Text)
      (peer : Peer) (link : Link) (limit : ℤ)
      → Moves s t
      → Moves s (claim_again t now ttl token ids peer link limit).1
  unfolding claim_again
  claim_again-Moves t now ttl token ids peer link limit m =
      let bundles = λ (u : MemoryStore) (cursor : ReplicationCursor).
        bundles_after u peer.id link.id BundleDirection.outbound cursor.last_acked_cursor limit in
      let claim = λ (u : MemoryStore).
        as_outcome u (claim_bridge_fragments u now ttl token peer.id link.id limit) in
      and_then-Moves s (replication_cursor t peer.id link.id, t)
        (λ cursor u. and_then (ensure_each u now ids link (bundles u cursor)) (λ x v. claim v)) m
        (λ cursor u n.
          and_then-Moves s (ensure_each u now ids link (bundles u cursor)) (λ x v. claim v)
            (ensure_each-Moves u now ids link (bundles u cursor) n)
            (λ x v l. claimed-Moves v now ttl token peer.id link.id limit l))

  claimed_or_again-Moves :
      (t : MemoryStore) (now : Time) (ttl : ℕ) (second : Option Text) (ids : Text → ℕ → Option Text)
      (peer : Peer) (link : Link) (limit : ℤ) (claimed : List BundleFragment) (token : Text)
      → Moves s t
      → Moves s
          (elim claimed as (λ x. Outcome (List BundleFragment × Text)) [
            | [] ↦ claim_again t now ttl second ids peer link limit
            | f ∷ fs ↦ (ok (f ∷ fs, token), t)
          ]).1
  claimed_or_again-Moves t now ttl second ids peer link limit [] token m =
      claim_again-Moves t now ttl second ids peer link limit m
  claimed_or_again-Moves t now ttl second ids peer link limit (f ∷ fs) token m = m

  claim_or_cut-Moves :
      (t : MemoryStore) (now : Time) (ttl : ℕ) (first second : Option Text)
      (ids : Text → ℕ → Option Text) (peer : Peer) (link : Link) (limit : ℤ)
      → Moves s t
      → Moves s (claim_or_cut t now ttl first second ids peer link limit).1
  unfolding claim_or_cut
  claim_or_cut-Moves t now ttl first second ids peer link limit m =
      and_then-Moves s (as_outcome t (claim_bridge_fragments t now ttl first peer.id link.id limit))
        (λ (claimed, token) u. elim claimed [
          | [] ↦ claim_again u now ttl second ids peer link limit
          | f ∷ fs ↦ (ok (f ∷ fs, token), u)
        ])
        (claimed-Moves t now ttl first peer.id link.id limit m)
        (λ (claimed, token) u n.
          claimed_or_again-Moves u now ttl second ids peer link limit claimed token n)

pub pull_bridge_fragments-Moves :
    (s : MemoryStore) (now : Time) (ttl : ℕ) (first second : Option Text)
    (ids : Text → ℕ → Option Text) (peer_server_name link_name : Text) (limit : ℤ)
    → IsKept s
    → Moves s (pull_bridge_fragments s now ttl first second ids peer_server_name link_name limit).1
unfolding pull_bridge_fragments
pull_bridge_fragments-Moves s now ttl first second ids peer_server_name link_name limit k =
    let most = fragment_limit limit in
    let end =
      λ (link : Link) (peer : Peer) (claimed : List BundleFragment) (token : Text)
          (u : MemoryStore).
        and_then (replication_cursor u peer.id link.id, u)
          (λ cursor v. (ok (claimed, link, cursor, has_more v now peer link claimed, token), v)) in
    and_then-Moves s (bridge_link s peer_server_name link_name, s)
      (λ (peer, link) t.
        and_then (claim_or_cut t now ttl first second ids peer link most)
          (λ (claimed, token) u. end link peer claimed token u))
      (Moves-same s s k refl)
      (λ (peer, link) t m.
        and_then-Moves s (claim_or_cut t now ttl first second ids peer link most)
          (λ (claimed, token) u. end link peer claimed token u)
          (claim_or_cut-Moves s t now ttl first second ids peer link most m)
          (λ (claimed, token) u n.
            and_then-Moves s (replication_cursor u peer.id link.id, u)
              (λ cursor v. (ok (claimed, link, cursor, has_more v now peer link claimed, token), v))
              n (λ cursor v l. l)))
