-- ===== src/Federation/BundleReads.antt =====
-- BundlesAfter of internal/domain/federation/teststore/store.go.
use zvonilka.Base.{
  Text, [], ◌∷◌, List, Bool, ℕ, text_eq, if◌then◌else◌, ℤ, ◌&&◌, ◌==◌, is_positive, ltb, before,
  take, pos_part, keep,
}
use zvonilka.Base.Dict.{Dict}
use zvonilka.Federation.Models.{Bundle, BundleDirection}
use zvonilka.Federation.Store.{MemoryStore}
use zvonilka.Federation.Fragments.{direction_eq}
use zvonilka.Notification.Routing.{text_lt}

unfoldable pub bundles : Dict Bundle → List Bundle
bundles [] = []
bundles ((id, b) ∷ s) = b ∷ bundles s

abbrev pub is_after : Text → Text → BundleDirection → ℕ → Bundle → Bool
is_after peer_id link_id direction after_cursor b =
    text_eq b.peer_id peer_id
    && text_eq b.link_id link_id
    && direction_eq b.direction direction
    && ltb after_cursor b.cursor_to

-- The end of the bundle, then its creation, then its id.
unfoldable pub bundle_before : Bundle → Bundle → Bool
bundle_before a b =
    if a.cursor_to == b.cursor_to
    then (if a.created_at == b.created_at
        then text_lt a.id b.id
        else before a.created_at b.created_at)
    else ltb a.cursor_to b.cursor_to

unfoldable pub insert_bundle : Bundle → List Bundle → List Bundle
insert_bundle b [] = b ∷ []
insert_bundle b (c ∷ cs) =
    let rest = insert_bundle b cs in if bundle_before c b then c ∷ rest else b ∷ c ∷ cs

-- sort.Slice
unfoldable pub sort_bundles : List Bundle → List Bundle
sort_bundles [] = []
sort_bundles (b ∷ bs) = insert_bundle b (sort_bundles bs)

unfoldable pub bundles_after : MemoryStore → Text → Text → BundleDirection → ℕ → ℤ → List Bundle
bundles_after s peer_id link_id direction after_cursor limit =
    if is_positive limit
    then take (pos_part limit) (
        sort_bundles
          (keep (is_after peer_id link_id direction after_cursor) (bundles s.bundles_by_id)))
    else []
