-- ===== src/Federation/Store.antt =====
-- internal/domain/federation/teststore/store.go: the maps of the in-memory store, and the reads of
-- peers, links and cursors.
use zvonilka.Base.{
  Bool, true, false, not, text_eq, none, Text, ◌++◌, ◌∷◌, Result, ok, err, Option, none, some,
  ◌>>=◌,
}
use zvonilka.Base.Dict
use zvonilka.Base.Dict.{Dict}
use zvonilka.Federation.Models.{
  internal, Error, not_found, Peer, Link, Bundle, BundleFragment, ReplicationCursor,
}

pub record MemoryStore : Type 0 where
  pub peers_by_id : Dict Peer
  pub peer_ids_by_server : Dict Text
  pub links_by_id : Dict Link
  pub link_ids_by_peer_name : Dict Text
  pub bundles_by_id : Dict Bundle
  pub bundle_ids_by_dedup : Dict Text
  pub fragments_by_id : Dict BundleFragment
  pub fragment_ids_by_dedup : Dict Text
  pub cursors_by_key : Dict ReplicationCursor

-- `row, ok := m[key]; if !ok { return ErrNotFound }`
abbrev pub or_not_found {ℓ} : {A : Type ℓ} → Option A → Result Error A
or_not_found none = err not_found
or_not_found (some a) = ok a

abbrev pub Saved : Type 0 → Type 0
Saved A = Result Error (A × MemoryStore)

-- `existingID, ok := …; ok && existingID != id`
abbrev pub is_taken : Option Text → Text → Bool
is_taken none id = false
is_taken (some existing) id = not (text_eq existing id)

abbrev pub is_found {ℓ} : {A : Type ℓ} → Option A → Bool
is_found none = false
is_found (some a) = true

-- `none` where the random source fails.
abbrev pub drawn : Option Text → Result Error Text
drawn none = err internal
drawn (some id) = ok id

-- `if given != nil { current = *given }`
abbrev pub given_or {ℓ} : {A : Type ℓ} → Option A → A → A
given_or none current = current
given_or (some a) current = a

abbrev pub map_or {ℓ} : {A : Type ℓ} → (A → A) → Option A → A → A
map_or f none current = current
map_or f (some a) current = f a

-- cursorKey and peerNameKey
abbrev pub pair_key : Text → Text → Text
pair_key peer_id name = peer_id ++ (b':' ∷ name)

unfoldable pub peer_by_id : MemoryStore → Text → Result Error Peer
peer_by_id s peer_id = or_not_found (Dict.get s.peers_by_id peer_id)

unfoldable pub peer_by_server_name : MemoryStore → Text → Result Error Peer
peer_by_server_name s server_name = do
  peer_id ← or_not_found (Dict.get s.peer_ids_by_server server_name)
  or_not_found (Dict.get s.peers_by_id peer_id)

unfoldable pub link_by_id : MemoryStore → Text → Result Error Link
link_by_id s link_id = or_not_found (Dict.get s.links_by_id link_id)

unfoldable pub bundle_by_dedup_key : MemoryStore → Text → Result Error Bundle
bundle_by_dedup_key s dedup_key = do
  bundle_id ← or_not_found (Dict.get s.bundle_ids_by_dedup dedup_key)
  or_not_found (Dict.get s.bundles_by_id bundle_id)

unfoldable pub cursor_by_peer_and_link : MemoryStore → Text → Text → Result Error ReplicationCursor
cursor_by_peer_and_link s peer_id link_id =
    or_not_found (Dict.get s.cursors_by_key (pair_key peer_id link_id))
