-- ===== src/Federation/Peers/Trust.antt =====
-- Who is let in: a peer that was revoked, and one whose trust was withdrawn.
use zvonilka.Base.{
  Time, ok, ◌≡◌, IsTrimmed, arith, trim_space-IsTrimmed, trim_space, Result-cases, Text, inr, some,
  none, inl, is_empty, false, true, if◌then◌else◌, text_eq, err, ap, ◌∙◌, refl,
}
use zvonilka.Base.Dict.{get-put_self}
use zvonilka.Federation.Models.{Peer, PeerState, forbidden, unauthorized}
use zvonilka.Federation.Store.{MemoryStore, peer_by_id}
use zvonilka.Federation.Security.{Digests}
use zvonilka.Federation.Peers.{
  save_normalized, save_peer, save_row, normalize_peer, defaulted_peer, settled_state, update_peer,
  authenticate_peer, changed_peer, settled_trust, UpdatePeerParams, admit_peer, secret_hash,
}

module _ (d : Digests) where
  -- What a save under normal form leaves: the saved row, found under its id.
  save_normalized-found :
      (s t : MemoryStore) (clock : Time) (given saved : Peer)
      → save_normalized d s clock given ≡ ok (saved, t)
      → (peer_by_id t saved.id ≡ ok saved)
        × IsTrimmed saved.id
        × (is_empty saved.id ≡ false)
        × (saved ≡ defaulted_peer d (defaulted_peer d given clock) clock)
  unfolding save_normalized save_peer save_row normalize_peer peer_by_id
  save_normalized-found s t clock given saved h =
      let row = defaulted_peer d (defaulted_peer d given clock) clock in
      let equal : saved ≡ row = ground arith in
      (
        ground (arith, get-put_self s.peers_by_id row.id row),
        rw equal (unfold defaulted_peer in trim_space-IsTrimmed (trim_space given.id)),
        ground arith,
        equal,
      )

  defaulted_twice :
      (p : Peer) (now : Time)
      → let q = defaulted_peer d (defaulted_peer d p now) now in
        (q.state ≡ settled_state p.trusted p.state)
        × (q.trusted
            ≡ settled_trust (settled_trust p.trusted p.state) (settled_state p.trusted p.state))
  unfolding defaulted_peer
  defaulted_twice p now = elim p.state [
    | PeerState.unspecified ↦ ground arith
    | PeerState.pending ↦ ground arith
    | PeerState.active ↦ ground arith
    | PeerState.degraded ↦ ground arith
    | PeerState.revoked ↦ ground arith
  ]

  update_peer-saved :
      (s t : MemoryStore) (clock : Time) (params : UpdatePeerParams) (saved : Peer)
      → update_peer d s clock params ≡ ok (saved, t)
      → (current : Peer) × (peer_by_id s (trim_space params.peer_id) ≡ ok current)
        × (save_normalized d s clock (changed_peer d params clock current) ≡ ok (saved, t))
  unfolding update_peer
  update_peer-saved s t clock params saved h =
      elim (Result-cases (peer_by_id s (trim_space params.peer_id))) [
        | inr (e, q) ↦ ground arith
        | inl (current, q) ↦ (current, q, ground arith)
      ]

  -- A peer that was updated to the state of a revoked one: whatever secret is presented for it then,
  -- and whenever, it is not let in; with its secret it is refused as forbidden.
  pub update_peer-revoked :
      (s t : MemoryStore) (clock later : Time) (params : UpdatePeerParams) (saved : Peer)
      (secret : Text)
      → params.state ≡ some PeerState.revoked
      → update_peer d s clock params ≡ ok (saved, t)
      → is_empty (trim_space secret) ≡ false
      → authenticate_peer d t later saved.id secret ≡ (
          if text_eq saved.shared_secret_hash (secret_hash d (trim_space secret))
          then err forbidden
          else err unauthorized)
  unfolding authenticate_peer admit_peer changed_peer
  update_peer-revoked s t clock later params saved secret revoked h given =
      let (current, q, run) = update_peer-saved s t clock params saved h in
      let (found, trimmed, named, equal) =
        save_normalized-found s t clock (changed_peer d params clock current) saved run in
      let facts = defaulted_twice (changed_peer d params clock current) clock in
      let trust : saved.trusted ≡ false =
        ap (λ (p : Peer). p.trusted) equal ∙ (facts.1 ∙ (rw revoked refl)) in
      let id_given : is_empty (trim_space saved.id) ≡ false = ap is_empty trimmed ∙ named in
      ground (arith, trust, trimmed, found, given, id_given)

  -- An update that withdraws the trust of an active peer and names no state has no effect on it: the
  -- row that is saved is trusted and active.
  pub update_peer-still_trusted :
      (s t : MemoryStore) (clock : Time) (params : UpdatePeerParams) (current saved : Peer)
      → peer_by_id s (trim_space params.peer_id) ≡ ok current
      → current.state ≡ PeerState.active
      → params.state ≡ none
      → params.trusted ≡ some false
      → update_peer d s clock params ≡ ok (saved, t)
      → (saved.trusted ≡ true) × (saved.state ≡ PeerState.active)
  unfolding changed_peer
  update_peer-still_trusted s t clock params current saved r active unnamed withdrawn h =
      let (found_row, q, run) = update_peer-saved s t clock params saved h in
      let same : current ≡ found_row = ground arith in
      let (found, trimmed, named, equal) =
        save_normalized-found s t clock (changed_peer d params clock found_row) saved run in
      let facts = defaulted_twice (changed_peer d params clock found_row) clock in
      let state : saved.state ≡ PeerState.active =
        ap (λ (p : Peer). p.state) equal ∙ (facts.0 ∙ (rw (unnamed, ← same, active) refl)) in
      let trust : saved.trusted ≡ true =
        ap (λ (p : Peer). p.trusted) equal ∙ (facts.1 ∙ (rw (unnamed, ← same, active) refl)) in
      (trust, state)
