-- ===== src/Notification/Deliveries.antt =====
-- Deliveries in the store: internal/domain/notification/service.go over teststore/store.go. The
-- service's checks come first, then what the store does.
pub mod Lifecycle
pub mod Leases
pub mod Claims
pub mod Rows
pub mod Retry
use zvonilka.Base.{
  ℕ, ◌+◌, Text, Time, Duration, pos_part, Bool, true, false, not, ◌&&◌, ◌||◌, if◌then◌else◌, Option,
  none, some, List, [], ◌∷◌, map, take, keep, is_empty, is_zero, is_positive, before, time_add,
  trim_space, text_eq, ltb, leb, ◌==◌, or_now, Result, ok, err, ◌>>=◌, ◌>>◌, refuse_if, ℤ, eqb_ℤ,
  ltb_ℤ,
}
use zvonilka.Base.Dict
use zvonilka.Base.Dict.{Dict}
use zvonilka.Notification.Models.{
  Error, invalid_input, not_found, conflict, internal, Delivery, DeliveryState, Settings,
  no_delivery,
}
use zvonilka.Notification.Routing.{text_lt}
use zvonilka.Notification.Backoff.{retry_backoff}

-- A worker's watermark.
pub record WorkerCursor : Type 0 where
  pub name : Text
  pub last_sequence : ℕ  -- uint64
  pub updated_at : Time

pub record DeliveryStore : Type 0 where
  pub deliveries_by_id : Dict Delivery
  pub delivery_ids_by_dedup : Dict Text
  pub worker_cursors_by_name : Dict WorkerCursor

abbrev pub Stored : Type 0 → Type 0
Stored A = Result Error (A × DeliveryStore)

abbrev pub is_queued : DeliveryState → Bool
is_queued DeliveryState.queued = true
is_queued _ = false

abbrev pub is_settled : DeliveryState → Bool
is_settled DeliveryState.delivered = true
is_settled DeliveryState.suppressed = true
is_settled _ = false

-- The rows that a claim at `now` may take.
unfoldable pub is_due : Time → Delivery → Bool
is_due now d =
    is_queued d.state
    && not (before now d.next_attempt_at)
    && not (not (is_zero d.lease_expires_at) && before now d.lease_expires_at)

-- The order of a claim: priority, then the times, then the id.
unfoldable pub goes_before : Delivery → Delivery → Bool
goes_before a b =
    if eqb_ℤ a.priority b.priority
    then (if a.next_attempt_at == b.next_attempt_at
        then (if a.created_at == b.created_at
            then text_lt a.id b.id
            else before a.created_at b.created_at)
        else before a.next_attempt_at b.next_attempt_at)
    else ltb_ℤ b.priority a.priority

unfoldable pub insert_due : Delivery → List Delivery → List Delivery
insert_due d [] = d ∷ []
insert_due d (e ∷ es) =
    let rest = insert_due d es in if goes_before e d then e ∷ rest else d ∷ e ∷ es

-- sort.Slice by that order.
unfoldable pub sort_due : List Delivery → List Delivery
sort_due [] = []
sort_due (d ∷ ds) = insert_due d (sort_due ds)

unfoldable pub rows : Dict Delivery → List Delivery
rows [] = []
rows ((k, d) ∷ m) = d ∷ rows m

pub record ClaimDeliveriesParams : Type 0 where
  pub before_time : Time
  pub limit : ℤ
  pub lease_token : Text
  pub lease_duration : Duration

unfoldable pub leased : Text → Time → Duration → Delivery → Delivery
leased token now duration d = record d {
  lease_token = token;
  lease_expires_at = time_add now duration;
  updated_at = now;
}

-- s.deliveriesByID[id], the zero value where there is no such row.
abbrev pub row_or_zero : Option Delivery → Delivery
row_or_zero none = no_delivery
row_or_zero (some row) = row

-- The last loop of ClaimDeliveries, which looks each row up again by its id.
unfoldable pub lease_each :
    Dict Delivery → Text → Time → Duration → List Delivery → List Delivery × Dict Delivery
lease_each m token now duration [] = ([], m)
lease_each m token now duration (d ∷ ds) =
    let row = leased token now duration (row_or_zero (Dict.get m d.id)) in
    let (claimed, t) = lease_each (Dict.put m row.id row) token now duration ds in
    (row ∷ claimed, t)

-- The store's ClaimDeliveries.
unfoldable pub store_claim : DeliveryStore → Time → ClaimDeliveriesParams → Stored (List Delivery)
store_claim s clock params = if not (is_positive params.limit) then ok ([], s) else do
  let now = or_now params.before_time clock
  refuse_if (is_empty params.lease_token || not (is_positive params.lease_duration)) invalid_input
  let due = take (pos_part params.limit) (sort_due (keep (is_due now) (rows s.deliveries_by_id)))
  let (claimed, leases) =
      lease_each s.deliveries_by_id params.lease_token now params.lease_duration due
  ok (claimed, record s { deliveries_by_id = leases })

-- The service's ClaimDeliveries; `drawn` is the id that `newID` makes, if it can.
unfoldable pub claim_deliveries :
    DeliveryStore → Settings → Time → Option Text → ClaimDeliveriesParams → Stored (List Delivery)
claim_deliveries s settings clock drawn params =
    if not (is_positive params.limit) then ok ([], s) else do
      let duration =
          if is_positive params.lease_duration
          then params.lease_duration
          else settings.delivery_lease_ttl
      refuse_if (not (is_positive duration)) invalid_input
      token ←
          (if is_empty (trim_space params.lease_token)
            then elim drawn [ none ↦ err internal | some id ↦ ok id ]
            else ok params.lease_token)
      store_claim s clock (record params {
        before_time = or_now params.before_time clock;
        lease_token = token;
        lease_duration = duration;
      })

-- lockedDeliveryForLeaseAt: a queued delivery whose lease the caller holds. An empty token is not
-- compared.
unfoldable pub leased_delivery : DeliveryStore → Text → Text → Time → Time → Result Error Delivery
leased_delivery s delivery_id token at clock = elim (Dict.get s.deliveries_by_id delivery_id) [
  | none ↦ err not_found
  | some d ↦ do
    refuse_if (not (is_queued d.state)) conflict
    refuse_if (not (is_empty token) && not (text_eq d.lease_token token)) conflict
    refuse_if
        (not (is_empty token)
          && (is_zero d.lease_expires_at || before d.lease_expires_at (or_now at clock)))
        conflict
    ok d
]

abbrev pub released : Delivery → Delivery
released d = record d { lease_token = []; lease_expires_at = 0 }

-- A delivery after an attempt at `now` that settled it.
unfoldable pub settle : DeliveryState → Text → Time → Delivery → Delivery
settle state last_error now d = record (released d) {
  attempts = d.attempts + 1;
  state = state;
  last_attempt_at = now;
  last_error = last_error;
  next_attempt_at = now;
  updated_at = now;
}

abbrev pub stored : DeliveryStore → Delivery → Delivery × DeliveryStore
stored s d = (d, record s { deliveries_by_id = Dict.put s.deliveries_by_id d.id d })

unfoldable pub mark_delivery_delivered : DeliveryStore → Time → Text → Text → Time → Stored Delivery
mark_delivery_delivered s clock delivery_id lease_token delivered_at = do
  let id = trim_space delivery_id
  let token = trim_space lease_token
  refuse_if (is_empty id || is_empty token) invalid_input
  let now = or_now delivered_at clock
  d ← leased_delivery s id token now clock
  ok (stored s (settle DeliveryState.delivered [] now d))

unfoldable pub fail_delivery : DeliveryStore → Time → Text → Text → Text → Time → Stored Delivery
fail_delivery s clock delivery_id lease_token last_error failed_at = do
  let id = trim_space delivery_id
  let token = trim_space lease_token
  let reason = trim_space last_error
  refuse_if (is_empty id || is_empty token || is_empty reason) invalid_input
  let now = or_now failed_at clock
  d ← leased_delivery s id token now clock
  ok (stored s (settle DeliveryState.failed reason now d))

pub record RetryDeliveryParams : Type 0 where
  pub delivery_id : Text
  pub lease_token : Text
  pub last_error : Text
  pub retry_at : Time
  pub max_attempts : ℤ
  pub attempted_at : Time

-- A delivery after an attempt that failed, back in the queue unless it has run out of attempts.
unfoldable pub requeue : RetryDeliveryParams → Time → Delivery → Delivery
requeue params now d =
    let next = if is_zero params.retry_at then now else params.retry_at in
    let tried = record (released d) {
      attempts = d.attempts + 1;
      last_error = params.last_error;
      last_attempt_at = now;
      updated_at = now;
    } in
    if is_positive params.max_attempts && leb (pos_part params.max_attempts) (d.attempts + 1)
    then record tried { state = DeliveryState.failed; next_attempt_at = now }
    else record tried { state = DeliveryState.queued; next_attempt_at = next }

-- The store's RetryDelivery.
unfoldable pub store_retry : DeliveryStore → Time → RetryDeliveryParams → Stored Delivery
store_retry s clock params = elim (Dict.get s.deliveries_by_id params.delivery_id) [
  | none ↦ err not_found
  | some found ↦ do
    d ←
        (if is_empty params.lease_token
          then ok found
          else leased_delivery s params.delivery_id params.lease_token params.attempted_at clock)
    refuse_if (is_settled d.state) conflict
    let r = requeue params (or_now params.attempted_at clock) d
    ok (
      r,
      record s {
        deliveries_by_id = Dict.put s.deliveries_by_id r.id r;
        delivery_ids_by_dedup = Dict.put s.delivery_ids_by_dedup r.dedup_key r.id;
      },
    )
]

-- The service's RetryDelivery.
unfoldable pub retry_delivery :
    DeliveryStore → Settings → Time → RetryDeliveryParams → Stored Delivery
retry_delivery s settings clock params = do
  let id = trim_space params.delivery_id
  let reason = trim_space params.last_error
  refuse_if (is_empty id || is_empty reason) invalid_input
  d ← elim (Dict.get s.deliveries_by_id id) [ none ↦ err not_found | some d ↦ ok d ]
  refuse_if (is_settled d.state) conflict
  let attempted_at = or_now params.attempted_at clock
  let retry_at =
      if is_zero params.retry_at
      then clock + retry_backoff settings (d.attempts + 1)
      else params.retry_at
  store_retry s clock (record {
    delivery_id = id;
    lease_token = trim_space params.lease_token;
    last_error = reason;
    retry_at = if before retry_at attempted_at then attempted_at else retry_at;
    max_attempts = settings.max_attempts;
    attempted_at = attempted_at;
  })

abbrev pub with_cursor : DeliveryStore → WorkerCursor → WorkerCursor × DeliveryStore
with_cursor s cursor = (
  cursor,
  record s { worker_cursors_by_name = Dict.put s.worker_cursors_by_name cursor.name cursor },
)

-- The store's SaveWorkerCursor, for a cursor that is normalized: a cursor never goes back.
unfoldable pub save_worker_cursor : DeliveryStore → WorkerCursor → WorkerCursor × DeliveryStore
save_worker_cursor s cursor = elim (Dict.get s.worker_cursors_by_name cursor.name) [
  | none ↦ with_cursor s cursor
  | some existing ↦
      if leb cursor.last_sequence existing.last_sequence
      then (existing, s)
      else with_cursor s cursor
]
