-- ===== src/Federation/Links.antt =====
-- The links of internal/domain/federation: the store's writes of them (teststore/store.go), and the
-- operations of service.go on them.
use zvonilka.Base.{
  Text, Time, Option, none, some, ok, err, ◌>>=◌, ◌>>◌, Result, Bool, refuse_if, [], trim_space,
  trim_lower, not, if◌then◌else◌, is_empty, text_eq, ◌||◌,
}
use zvonilka.Base.Dict
use zvonilka.Base.Dict.{Dict}
use zvonilka.Federation.Models.{
  Error, invalid_input, not_found, conflict, forbidden, Link, LinkState,
}
use zvonilka.Federation.Store.{
  Saved, is_taken, is_found, drawn, given_or, map_or, MemoryStore, pair_key, link_by_id, peer_by_id,
}
use zvonilka.Federation.LinkForm.{normalize_link}
use zvonilka.Federation.Params.{CreateLinkParams, UpdateLinkParams}

-- `if previous, ok := …; ok { delete(index, previous's key) }`
abbrev pub without_previous : Option Link → Dict Text → Dict Text
without_previous none index = index
without_previous (some previous) index = Dict.remove index (pair_key previous.peer_id previous.name)

unfoldable pub save_link : MemoryStore → Time → Link → Saved Link
save_link s clock given = do
  link ← normalize_link given clock
  refuse_if (not (is_found (Dict.get s.peers_by_id link.peer_id))) not_found
  let key = pair_key link.peer_id link.name
  refuse_if (is_taken (Dict.get s.link_ids_by_peer_name key) link.id) conflict
  let index = without_previous (Dict.get s.links_by_id link.id) s.link_ids_by_peer_name
  ok (
    link,
    record s {
      links_by_id = Dict.put s.links_by_id link.id link;
      link_ids_by_peer_name = Dict.put index key link.id;
    },
  )

unfoldable pub authorize_link_for_peer : MemoryStore → Text → Text → Bool → Result Error Link
authorize_link_for_peer s peer_id link_id allow_paused = do
  link ← link_by_id s link_id
  refuse_if (not (text_eq link.peer_id peer_id)) forbidden
  elim link.state [
    | LinkState.active ↦ ok link
    | LinkState.degraded ↦ ok link
    | LinkState.paused ↦ if allow_paused then ok link else err forbidden
    | _ ↦ err forbidden
  ]

abbrev pub active_of_degraded : LinkState → LinkState
active_of_degraded LinkState.degraded = LinkState.active
active_of_degraded state = state

abbrev pub degraded_of_active : LinkState → LinkState
degraded_of_active LinkState.active = LinkState.degraded
degraded_of_active state = state

unfoldable pub mark_link_healthy : MemoryStore → Time → Text → Saved Link
mark_link_healthy s clock link_id = do
  link ← link_by_id s link_id
  save_link s clock (record link {
    last_healthy_at = clock;
    last_error = [];
    state = active_of_degraded link.state;
    updated_at = clock;
  })

-- `last_error` is the text of the error, where there is one.
unfoldable pub mark_link_failed : MemoryStore → Time → Text → Option Text → Saved Link
mark_link_failed s clock link_id last_error = do
  link ← link_by_id s link_id
  save_link s clock (record link {
    last_error = elim last_error [ none ↦ link.last_error | some e ↦ trim_space e ];
    state = degraded_of_active link.state;
    updated_at = clock;
  })

abbrev pub new_link : CreateLinkParams → Text → Text → Link
new_link params id base_url =
    let endpoint = trim_space params.endpoint in
    record {
      id = id;
      peer_id = trim_space params.peer_id;
      name = trim_lower params.name;
      endpoint = if is_empty endpoint then base_url else endpoint;
      transport_kind = params.transport_kind;
      delivery_class = params.delivery_class;
      discovery_mode = params.discovery_mode;
      media_policy = params.media_policy;
      state = LinkState.unspecified;
      max_bundle_bytes = params.max_bundle_bytes;
      max_fragment_bytes = params.max_fragment_bytes;
      allowed_conversation_kinds = params.allowed_conversation_kinds;
      allowed_event_families = params.allowed_event_families;
      allowed_message_kinds = params.allowed_message_kinds;
      created_at = 0;
      updated_at = 0;
      last_healthy_at = 0;
      last_error = [];
    }

unfoldable pub create_link : MemoryStore → Time → Option Text → CreateLinkParams → Saved Link
create_link s clock drawn_id params = do
  refuse_if (is_empty (trim_space params.peer_id) || is_empty (trim_lower params.name))
      invalid_input
  peer ← peer_by_id s (trim_space params.peer_id)
  id ← drawn drawn_id
  link ← normalize_link (new_link params id peer.base_url) clock
  save_link s clock link

unfoldable pub changed_link : UpdateLinkParams → Time → Link → Link
changed_link params clock link = record link {
  name = map_or trim_lower params.name link.name;
  endpoint = map_or trim_space params.endpoint link.endpoint;
  transport_kind = given_or params.transport_kind link.transport_kind;
  delivery_class = given_or params.delivery_class link.delivery_class;
  discovery_mode = given_or params.discovery_mode link.discovery_mode;
  media_policy = given_or params.media_policy link.media_policy;
  state = given_or params.state link.state;
  max_bundle_bytes = given_or params.max_bundle_bytes link.max_bundle_bytes;
  max_fragment_bytes = given_or params.max_fragment_bytes link.max_fragment_bytes;
  allowed_conversation_kinds =
      given_or params.allowed_conversation_kinds link.allowed_conversation_kinds;
  allowed_event_families = given_or params.allowed_event_families link.allowed_event_families;
  allowed_message_kinds = given_or params.allowed_message_kinds link.allowed_message_kinds;
  last_healthy_at = given_or params.last_healthy_at link.last_healthy_at;
  last_error = map_or trim_space params.last_error link.last_error;
  updated_at = clock;
}

unfoldable pub update_link : MemoryStore → Time → UpdateLinkParams → Saved Link
update_link s clock params = do
  refuse_if (is_empty (trim_space params.link_id)) invalid_input
  current ← link_by_id s (trim_space params.link_id)
  link ← normalize_link (changed_link params clock current) clock
  save_link s clock link

-- PauseLink, ResumeLink and DeleteLink.
abbrev pub only_state : Text → LinkState → UpdateLinkParams
only_state link_id state = record {
  link_id = link_id;
  name = none;
  endpoint = none;
  transport_kind = none;
  delivery_class = none;
  discovery_mode = none;
  media_policy = none;
  state = some state;
  max_bundle_bytes = none;
  max_fragment_bytes = none;
  allowed_conversation_kinds = none;
  allowed_event_families = none;
  allowed_message_kinds = none;
  last_healthy_at = none;
  last_error = none;
}

unfoldable pub pause_link : MemoryStore → Time → Text → Saved Link
pause_link s clock link_id = update_link s clock (only_state link_id LinkState.paused)

unfoldable pub resume_link : MemoryStore → Time → Text → Saved Link
resume_link s clock link_id = update_link s clock (only_state link_id LinkState.active)

unfoldable pub delete_link : MemoryStore → Time → Text → Saved Link
delete_link s clock link_id = update_link s clock (only_state link_id LinkState.deleted)
