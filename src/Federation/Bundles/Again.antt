-- ===== src/Federation/Bundles/Again.antt =====
-- AcceptInboundBundle, called again for what it accepted.
use zvonilka.Base.{
  Text, Time, ok, true, false, Option, ◌≡◌, arith, is_empty, trim_space, ◌∙◌, Result-cases, refl,
  inr, inl, ap, some, trim_space-IsTrimmed,
}
use zvonilka.Federation.Models.{Link, Peer, Bundle, BundleDirection}
use zvonilka.Federation.Params.{SaveBundleParams}
use zvonilka.Federation.Store.{MemoryStore, link_by_id, peer_by_id}
use zvonilka.Federation.Security.{
  Digests, verify_bundle, peer_and_link, bundle_auth_tag, signed_message,
}
use zvonilka.Federation.BundleRows.{normalize_bundle, defaulted_bundle, is_inbound}
use zvonilka.Federation.Bundles.{
  accept_inbound_bundle, save_bundle, new_bundle, sealed_bundle, record_bundle, drawn,
}
use zvonilka.Federation.Bundles.Replay.{IsRepeat, record_bundle-again, defaulted_bundle_idem}
use zvonilka.Federation.Replication.Watermarks.{IsKept}

abbrev candidate : SaveBundleParams → Text → Time → Bundle
candidate params id now = defaulted_bundle (new_bundle params BundleDirection.inbound id) now

-- What stands in a normal form under another id, at another time.
normalize-other :
    (params : SaveBundleParams) (id id' : Text) (now now' : Time) (b : Bundle)
    → normalize_bundle (new_bundle params BundleDirection.inbound id) now ≡ ok b
    → is_empty (trim_space id') ≡ false
    → (b ≡ candidate params id now)
      × (normalize_bundle (new_bundle params BundleDirection.inbound id') now'
          ≡ ok (candidate params id' now'))
unfolding normalize_bundle defaulted_bundle
normalize-other params id id' now now' b h given = (ground arith, ground arith)

candidate-IsRepeat :
    (params : SaveBundleParams) (id id' : Text) (now now' : Time)
    → IsRepeat (candidate params id now) (candidate params id' now')
unfolding defaulted_bundle
candidate-IsRepeat params id id' now now' = ground arith

peer_and_link-same :
    (s t : MemoryStore) (peer_id link_id : Text)
    → t.links_by_id ≡ s.links_by_id
    → t.peers_by_id ≡ s.peers_by_id
    → peer_and_link t peer_id link_id ≡ peer_and_link s peer_id link_id
unfolding peer_and_link link_by_id peer_by_id
peer_and_link-same s t peer_id link_id links peers = rw (links, peers) refl

verify-other :
    (d : Digests) (peer : Peer) (link : Link) (params : SaveBundleParams) (id id' : Text)
    (now now' : Time)
    → verify_bundle d peer link (candidate params id' now')
      ≡ verify_bundle d peer link (candidate params id now)
unfolding verify_bundle bundle_auth_tag signed_message defaulted_bundle
verify-other d peer link params id id' now now' = refl

sealed_bundle-inbound :
    (d : Digests) (s : MemoryStore) (b : Bundle) (peer : Peer) (link : Link)
    → is_inbound b.direction ≡ true
    → peer_and_link s b.peer_id b.link_id ≡ ok (peer, link)
    → verify_bundle d peer link b ≡ ok tt
    → sealed_bundle d s b ≡ ok b
unfolding sealed_bundle
sealed_bundle-inbound d s b peer link inbound h v = ground arith

sealed_bundle-inv :
    (d : Digests) (s : MemoryStore) (b c : Bundle)
    → is_inbound b.direction ≡ true
    → sealed_bundle d s b ≡ ok c
    → (peer : Peer) × (link : Link) × (peer_and_link s b.peer_id b.link_id ≡ ok (peer, link))
      × (verify_bundle d peer link b ≡ ok tt)
      × (c ≡ b)
unfolding sealed_bundle
sealed_bundle-inv d s b c inbound h = elim (Result-cases (peer_and_link s b.peer_id b.link_id)) [
  | inr (e, q) ↦ ground arith
  | inl ((peer, link), q) ↦ elim (Result-cases (verify_bundle d peer link b)) [
    | inr (e, r) ↦ ground arith
    | inl (u, r) ↦ (peer, link, q, r, ground arith)
  ]
]

-- The seal of an inbound bundle does not depend on its id and its times, nor on what else the store
-- holds than links and peers.
sealed-other :
    (d : Digests) (s t : MemoryStore) (params : SaveBundleParams) (id id' : Text) (now now' : Time)
    (b : Bundle)
    → sealed_bundle d s (candidate params id now) ≡ ok b
    → t.links_by_id ≡ s.links_by_id
    → t.peers_by_id ≡ s.peers_by_id
    → (b ≡ candidate params id now)
      × (sealed_bundle d t (candidate params id' now') ≡ ok (candidate params id' now'))
unfolding defaulted_bundle
sealed-other d s t params id id' now now' b h links peers =
    let first = candidate params id now in
    let second = candidate params id' now' in
    let (peer, link, found, verified, same) = sealed_bundle-inv d s first b refl h in
    (
      same,
      sealed_bundle-inbound d t second peer link refl
          (peer_and_link-same s t second.peer_id second.link_id links peers ∙ found)
          (verify-other d peer link params id id' now now' ∙ verified),
    )

-- The stages of an inbound bundle that was accepted.
record Accepted (d : Digests) (s : MemoryStore) (now : Time) (params : SaveBundleParams)
    (saved : Bundle) (t : MemoryStore) : Type 0 where
  id : Text
  normal :
      normalize_bundle (new_bundle params BundleDirection.inbound id) now
      ≡ ok (candidate params id now)
  sealed : sealed_bundle d s (candidate params id now) ≡ ok (candidate params id now)
  recorded : record_bundle s now (candidate params id now) ≡ ok (saved, t)

accept-Accepted :
    (d : Digests) (s t : MemoryStore) (now : Time) (drawn_id : Option Text)
    (params : SaveBundleParams) (saved : Bundle)
    → accept_inbound_bundle d s now drawn_id params ≡ ok (saved, t)
    → Accepted d s now params saved t
unfolding accept_inbound_bundle save_bundle
accept-Accepted d s t now drawn_id params saved h =
    elim (Result-cases (link_by_id s (trim_space params.link_id))) [
      | inr (e, p) ↦ ground arith
      | inl (link, p) ↦ elim (Result-cases (drawn drawn_id)) [
        | inr (e, q) ↦ ground arith
        | inl (id, q) ↦
            elim (Result-cases
              (normalize_bundle (new_bundle params BundleDirection.inbound id) now)) [
                | inr (e, r) ↦ ground arith
                | inl (normal, r) ↦ elim (Result-cases (sealed_bundle d s normal)) [
                  | inr (e, u) ↦ ground arith
                  | inl (b, u) ↦
                      let is_normal : normal ≡ candidate params id now =
                        unfold normalize_bundle in ground arith in
                      let u' : sealed_bundle d s (candidate params id now) ≡ ok b =
                        rw (← is_normal) u in
                      let is_sealed : b ≡ candidate params id now =
                        (sealed-other d s s params id id now now b u' refl refl).0 in
                      record {
                        id = id;
                        normal = r ∙ ap ok is_normal;
                        sealed = u' ∙ ap ok is_sealed;
                        recorded = rw (← is_sealed) (ground arith);
                      }
                ]
              ]
      ]
    ]

-- The guards before the stages, on two stores with the same links.
accept-staged :
    (d : Digests) (s t u : MemoryStore) (now now' : Time) (drawn_id : Option Text) (id' : Text)
    (params : SaveBundleParams) (saved : Bundle)
    → accept_inbound_bundle d s now drawn_id params ≡ ok (saved, u)
    → t.links_by_id ≡ s.links_by_id
    → normalize_bundle (new_bundle params BundleDirection.inbound id') now'
      ≡ ok (candidate params id' now')
    → sealed_bundle d t (candidate params id' now') ≡ ok (candidate params id' now')
    → record_bundle t now' (candidate params id' now') ≡ ok (saved, t)
    → accept_inbound_bundle d t now' (some id') params ≡ ok (saved, t)
unfolding accept_inbound_bundle save_bundle
accept-staged d s t u now now' drawn_id id' params saved h links normal sealed recorded =
    let same : link_by_id t (trim_space params.link_id) ≡ link_by_id s (trim_space params.link_id) =
      unfold link_by_id in rw links refl in
    elim (Result-cases (link_by_id s (trim_space params.link_id))) [
      | inr (e, p) ↦ ground arith
      | inl (link, p) ↦ ground arith
    ]

-- A bundle that was accepted and comes again, at any later time and under any id that is drawn for it:
-- the row that was saved at first is returned, and the store does not change.
pub accept_inbound_bundle-again :
    (d : Digests) (s t : MemoryStore) (now now' : Time) (drawn_id : Option Text) (id' : Text)
    (params : SaveBundleParams) (saved : Bundle)
    → IsKept s
    → is_empty (trim_space id') ≡ false
    → accept_inbound_bundle d s now drawn_id params ≡ ok (saved, t)
    → accept_inbound_bundle d t now' (some id') params ≡ ok (saved, t)
unfolding defaulted_bundle
accept_inbound_bundle-again d s t now now' drawn_id id' params saved k given h =
    let a = accept-Accepted d s t now drawn_id params saved h in
    let first = candidate params a.id now in
    let second = candidate params id' now' in
    let (again, links, peers) =
      record_bundle-again s t now now' first second saved k
        (trim_space-IsTrimmed (trim_space params.peer_id))
        (trim_space-IsTrimmed (trim_space params.link_id)) refl
        (defaulted_bundle_idem (new_bundle params BundleDirection.inbound a.id) now)
        (candidate-IsRepeat params a.id id' now now') a.recorded in
    accept-staged d s t t now now' drawn_id id' params saved h links
      (normalize-other params a.id id' now now' first a.normal given).1
      (sealed-other d s t params a.id id' now now' first a.sealed links peers).1 again
