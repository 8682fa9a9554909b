-- ===== src/Notification/Deliveries/Retry.antt =====
-- A retry is a step of the life of a delivery, and never schedules the next attempt in the past.
use zvonilka.Base.{
  ◌+◌, Text, Time, false, some, trim_space, ok, arith, ◌≡◌, refl, or_now, Result-cases,
  Option-cases, inl, inr, before, is_zero, if◌then◌else◌, sym, ◌∙◌, ap, ◌&&◌, ltb,
}
use zvonilka.Base.Dict
use zvonilka.Notification.Backoff.{retry_backoff}
use zvonilka.Notification.Models.{Delivery, Settings}
use zvonilka.Notification.Deliveries.{
  DeliveryStore, is_settled, is_queued, leased_delivery, requeue, retry_delivery, store_retry,
  RetryDeliveryParams,
}
use zvonilka.Notification.Deliveries.Lifecycle.{Step, retry}

leased_delivery-row :
    (s : DeliveryStore) (id token : Text) (at clock : Time) (d : Delivery)
    → leased_delivery s id token at clock ≡ ok d
    → Dict.get s.deliveries_by_id id ≡ some d
unfolding leased_delivery
leased_delivery-row s id token at clock d h = elim (Option-cases (Dict.get s.deliveries_by_id id)) [
  | inl e ↦ ground arith
  | inr (row, e) ↦ ground arith
]

store_retry-requeue :
    (s t : DeliveryStore) (clock : Time) (params : RetryDeliveryParams) (e : Delivery)
    → store_retry s clock params ≡ ok (e, t)
    → (d : Delivery) × (Dict.get s.deliveries_by_id params.delivery_id ≡ some d)
      × (is_settled d.state ≡ false)
      × (e ≡ requeue params (or_now params.attempted_at clock) d)
unfolding store_retry
store_retry-requeue s t clock params e h =
    elim (Option-cases (Dict.get s.deliveries_by_id params.delivery_id)) [
      | inl q ↦ ground arith
      | inr (row, q) ↦
          elim (Result-cases
            (leased_delivery s params.delivery_id params.lease_token params.attempted_at clock)) [
              | inr (x, r) ↦ (row, q, ground arith, ground arith)
              | inl (d, r) ↦
                  let same : some row ≡ some d =
                    sym q
                    ∙ leased_delivery-row s params.delivery_id params.lease_token
                        params.attempted_at clock d r in
                  (row, q, ground arith, ground arith)
            ]
    ]

-- What the service asks of the store, for the row that it read.
abbrev scheduled : Settings → Time → RetryDeliveryParams → Delivery → RetryDeliveryParams
scheduled settings clock params d =
    let attempted_at = or_now params.attempted_at clock in
    let retry_at =
      if is_zero params.retry_at
      then clock + retry_backoff settings (d.attempts + 1)
      else params.retry_at in
    record {
      delivery_id = trim_space params.delivery_id;
      lease_token = trim_space params.lease_token;
      last_error = trim_space params.last_error;
      retry_at = if before retry_at attempted_at then attempted_at else retry_at;
      max_attempts = settings.max_attempts;
      attempted_at = attempted_at;
    }

requeue-later :
    (settings : Settings) (clock : Time) (params : RetryDeliveryParams) (d : Delivery) (now : Time)
    → now ≡ or_now (or_now params.attempted_at clock) clock
    → (is_queued (requeue (scheduled settings clock params d) now d).state
        && ltb
            (requeue (scheduled settings clock params d) now d).next_attempt_at
            (or_now params.attempted_at clock))
      ≡ false
unfolding requeue
requeue-later settings clock params d now n = ground arith

-- A retry that succeeds takes a step of the row that the store held under its trimmed id. Where it
-- leaves the delivery queued, the next attempt is not before the time of this one, which is the clock's
-- where the caller named none.
pub retry_delivery-Step :
    (s t : DeliveryStore) (settings : Settings) (clock : Time) (params : RetryDeliveryParams)
    (e : Delivery)
    → retry_delivery s settings clock params ≡ ok (e, t)
    → (d : Delivery) × (Dict.get s.deliveries_by_id (trim_space params.delivery_id) ≡ some d)
      × Step settings.max_attempts d e
      × ((is_queued e.state && ltb e.next_attempt_at (or_now params.attempted_at clock)) ≡ false)
unfolding retry_delivery
retry_delivery-Step s t settings clock params e h =
    elim (Option-cases (Dict.get s.deliveries_by_id (trim_space params.delivery_id))) [
      | inl q ↦ ground arith
      | inr (row, q) ↦
          let request = scheduled settings clock params row in
          let now = or_now request.attempted_at clock in
          let saved : store_retry s clock request ≡ ok (e, t) = ground arith in
          let (d, held, open_, same) = store_retry-requeue s t clock request e saved in
          let again : d ≡ row = ground arith in
          let to_row : e ≡ requeue request now row = same ∙ ap (requeue request now) again in
          let unsettled : is_settled row.state ≡ false = ground arith in
          (
            row,
            q,
            rw to_row (retry row request now unsettled refl),
            rw to_row (requeue-later settings clock params row now refl),
          )
    ]
