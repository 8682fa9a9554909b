-- ===== src/Federation/Replication/Watermarks.antt =====
-- The watermarks of the replication cursors under every operation that writes them.
use mathlib.Core.Path.{subst, sym}
use zvonilka.Base.{
  Text, Time, some, ok, ◌≤◌, ◌≡◌, arith, IsTrimmed, trim_space, trim_space-IsTrimmed, Bool-cases,
  text_eq, inl, text_eq_iff, Option-cases, inr, refl, ◌∙◌,
}
use zvonilka.Base.Dict
use zvonilka.Federation.Models.{ReplicationCursor}
use zvonilka.Federation.Store.{MemoryStore, pair_key, cursor_by_peer_and_link}
use zvonilka.Federation.BundleRows.{save_cursor, normalize_replication_cursor}
use zvonilka.Base.Dict.{get-put, get-put_self}
use zvonilka.Federation.Bundles.{cursor_or_first}

-- No watermark falls.
pub record Advances (a b : ReplicationCursor) : Type 0 where
  pub received : a.last_received_cursor ≤ b.last_received_cursor
  pub inbound : a.last_inbound_cursor ≤ b.last_inbound_cursor
  pub outbound : a.last_outbound_cursor ≤ b.last_outbound_cursor
  pub acked : a.last_acked_cursor ≤ b.last_acked_cursor

-- A row stands under its own key, and what was applied was received.
pub record IsEntry (key : Text) (c : ReplicationCursor) : Type 0 where
  pub own_key : pair_key c.peer_id c.link_id ≡ key
  pub peer : IsTrimmed c.peer_id
  pub link : IsTrimmed c.link_id
  pub applied : c.last_inbound_cursor ≤ c.last_received_cursor

pub record IsKept (s : MemoryStore) : Type 0 where
  pub entry :
      (key : Text) (c : ReplicationCursor) → Dict.get s.cursors_by_key key ≡ some c → IsEntry key c

abbrev pub Later : MemoryStore → Text → ReplicationCursor → Type 0
Later t key c = (c' : ReplicationCursor) × (Dict.get t.cursors_by_key key ≡ some c') × Advances c c'

-- Both stores' cursors are kept, and each of the first has moved to a later one of the second.
pub record Moves (s t : MemoryStore) : Type 0 where
  pub kept : IsKept t
  pub later :
      (key : Text) (c : ReplicationCursor) → Dict.get s.cursors_by_key key ≡ some c → Later t key c

pub Advances-refl : (c : ReplicationCursor) → Advances c c
Advances-refl c = omega arith

pub Moves-same : (s t : MemoryStore) → IsKept s → t.cursors_by_key ≡ s.cursors_by_key → Moves s t
Moves-same s t k e = record {
  kept = record { entry = λ key c h. k.entry key c (rw (← e) h) };
  later = λ key c h. (c, rw e h, Advances-refl c);
}

pub Moves-trans : (s t u : MemoryStore) → Moves s t → Moves t u → Moves s u
Moves-trans s t u m n = record {
  kept = n.kept;
  later = λ key c h.
      let (c', h', a) = m.later key c h in
      let (c'', h'', b) = n.later key c' h' in (c'', h'', omega arith);
}

-- What `save_cursor` returns stands under its key, with the watermarks that it was given.
pub save_cursor-saved :
    (s t : MemoryStore) (clock : Time) (given saved : ReplicationCursor)
    → save_cursor s clock given ≡ ok (saved, t)
    → IsEntry (pair_key (trim_space given.peer_id) (trim_space given.link_id)) saved
      × Advances given saved
      × (t.cursors_by_key
          ≡ Dict.put s.cursors_by_key
              (pair_key (trim_space given.peer_id) (trim_space given.link_id))
              saved)
unfolding save_cursor normalize_replication_cursor
save_cursor-saved s t clock given saved h =
    ground (arith, trim_space-IsTrimmed given.peer_id, trim_space-IsTrimmed given.link_id)

pub Moves-put :
    (s t : MemoryStore) (key : Text) (c : ReplicationCursor)
    → IsKept s
    → IsEntry key c
    → ((c' : ReplicationCursor) → Dict.get s.cursors_by_key key ≡ some c' → Advances c' c)
    → t.cursors_by_key ≡ Dict.put s.cursors_by_key key c
    → Moves s t
Moves-put s t key c k own above e = record { kept = record { entry = entry' }; later = later' }
  where
    entry' :
        (key' : Text) (c' : ReplicationCursor)
        → Dict.get t.cursors_by_key key' ≡ some c'
        → IsEntry key' c'
    entry' key' c' h = elim (Bool-cases (text_eq key key')) [
      | inl same ↦
          let found : Dict.get t.cursors_by_key key' ≡ some c =
            rw e (rw (get-put s.cursors_by_key key key' c, same) refl) in
          let equal : c ≡ c' = cc in
          subst (λ k. IsEntry k c') ((text_eq_iff key key').0 same) (subst (IsEntry key) equal own)
      | inr other ↦
          k.entry key' c'
            (sym (get-put s.cursors_by_key key key' c ∙ (rw other refl)) ∙ (rw (← e) h))
    ]

    later' :
        (key' : Text) (c' : ReplicationCursor)
        → Dict.get s.cursors_by_key key' ≡ some c'
        → Later t key' c'
    later' key' c' h = elim (Bool-cases (text_eq key key')) [
      | inl same ↦ (
        c,
        rw e (rw (get-put s.cursors_by_key key key' c, same) refl),
        above c' (rw ((text_eq_iff key key').0 same) h),
      )
      | inr other ↦ (c', rw e (rw (get-put s.cursors_by_key key key' c, other) h), Advances-refl c')
    ]

-- Under trimmed ids: the row that is read is the one of the key, where there is one, and it may be
-- put there again.
pub cursor_or_first-IsEntry :
    (s : MemoryStore) (peer_id link_id : Text)
    → IsKept s
    → IsTrimmed peer_id
    → IsTrimmed link_id
    → IsEntry (pair_key peer_id link_id) (cursor_or_first s peer_id link_id)
unfolding cursor_or_first cursor_by_peer_and_link
cursor_or_first-IsEntry s peer_id link_id k p l =
    elim (Option-cases (Dict.get s.cursors_by_key (pair_key peer_id link_id))) [
      | inl absent ↦
          rw (absent, cursor_or_first)
            (record { own_key = refl; peer = p; link = l; applied = omega arith })
      | inr (c, found) ↦ rw (found, cursor_or_first) (k.entry (pair_key peer_id link_id) c found)
    ]

pub cursor_or_first-found :
    (s : MemoryStore) (peer_id link_id : Text) (c : ReplicationCursor)
    → Dict.get s.cursors_by_key (pair_key peer_id link_id) ≡ some c
    → cursor_or_first s peer_id link_id ≡ c
unfolding cursor_or_first cursor_by_peer_and_link
cursor_or_first-found s peer_id link_id c h = rw (h, cursor_or_first) refl

-- A write of a row that was read under trimmed ids, with watermarks that did not fall.
pub save_cursor-Moves :
    (s m t : MemoryStore) (clock : Time) (peer_id link_id : Text) (given saved : ReplicationCursor)
    → IsKept s
    → IsTrimmed peer_id
    → IsTrimmed link_id
    → m.cursors_by_key ≡ s.cursors_by_key
    → given.peer_id ≡ (cursor_or_first s peer_id link_id).peer_id
    → given.link_id ≡ (cursor_or_first s peer_id link_id).link_id
    → Advances (cursor_or_first s peer_id link_id) given
    → save_cursor m clock given ≡ ok (saved, t)
    → Moves s t
      × (Dict.get t.cursors_by_key (pair_key peer_id link_id) ≡ some saved)
      × Advances given saved
save_cursor-Moves s m t clock peer_id link_id given saved k p l same ep el up h =
    let old = cursor_or_first s peer_id link_id in
    let entry = cursor_or_first-IsEntry s peer_id link_id k p l in
    let (own, above, put) = save_cursor-saved m t clock given saved h in
    let key : pair_key (trim_space given.peer_id) (trim_space given.link_id)
        ≡ pair_key peer_id link_id =
      rw (ep, el, entry.peer, entry.link) entry.own_key in
    let put' : t.cursors_by_key ≡ Dict.put s.cursors_by_key (pair_key peer_id link_id) saved =
      rw (← key, ← same) put in
    (
      Moves-put s t (pair_key peer_id link_id) saved k (rw (← key) own)
          (λ c' h'.
            let e = cursor_or_first-found s peer_id link_id c' h' in
            let up' : Advances c' given = subst (λ c. Advances c given) e up in omega arith)
          put',
      rw put' (get-put_self s.cursors_by_key (pair_key peer_id link_id) saved),
      above,
    )
