-- ===== src/Notification/Deliveries/Leases.antt =====
-- The operations on a delivery are steps of its life, and a leased one belongs to its holder.
use zvonilka.Base.{
  ◌≤◌, ◌<◌, Text, Time, true, false, some, [], is_empty, trim_space, ok, arith, ◌≡◌, or_now, ℤ,
  Result-cases, Option-cases, text_eq_iff, inl, inr, time_add, Duration, is_positive, not, ltb, err,
  ◌+◌, if◌then◌else◌, text_eq, ap, ◌∙◌, refl,
}
use zvonilka.Base.Dict
use zvonilka.Base.Dict.{get-put, get-put_self}
use zvonilka.Notification.Models.{Delivery, DeliveryState, conflict}
use zvonilka.Notification.Deliveries.{
  DeliveryStore, is_queued, leased_delivery, settle, mark_delivery_delivered, fail_delivery, leased,
  is_due,
}
use zvonilka.Notification.Deliveries.Lifecycle.{Step, deliver, fail}

-- The row of an id, whose lease the caller holds at `now`.
abbrev pub Held : DeliveryStore → Text → Text → Time → Delivery → Type 0
Held s id token now d =
    (Dict.get s.deliveries_by_id id ≡ some d)
    × (is_queued d.state ≡ true)
    × (d.lease_token ≡ token)
    × (0 < d.lease_expires_at)
    × (now ≤ d.lease_expires_at)

leased_delivery-Held :
    (s : DeliveryStore) (id token : Text) (at clock : Time) (d : Delivery)
    → is_empty token ≡ false
    → leased_delivery s id token at clock ≡ ok d
    → Held s id token (or_now at clock) d
unfolding leased_delivery
leased_delivery-Held s id token at clock d t h =
    elim (Option-cases (Dict.get s.deliveries_by_id id)) [
      | inl e ↦ ground arith
      | inr (row, e) ↦ ground (arith, text_eq_iff row.lease_token token)
    ]

-- The row under its id after it was settled.
settled-conflict :
    (s : DeliveryStore) (clock : Time) (id token : Text) (at : Time) (e : Delivery)
    → is_empty (trim_space id) ≡ false
    → is_empty (trim_space token) ≡ false
    → Dict.get s.deliveries_by_id (trim_space id) ≡ some e
    → is_queued e.state ≡ false
    → mark_delivery_delivered s clock id token at ≡ err conflict
unfolding mark_delivery_delivered leased_delivery
settled-conflict s clock id token at e i n found q =
    let refused : leased_delivery s (trim_space id) (trim_space token) (or_now at clock) clock
        ≡ err conflict =
      rw (leased_delivery, found, q) refl in
    rw (mark_delivery_delivered, i, n, refused) refl

-- A delivery that was marked delivered, in a store that has each delivery under its id: it was the
-- queued row of its id, whose lease the caller held by its token and which had not run out. The row of
-- that id has taken a step of a delivery's life: it is now delivered, with one attempt more, at the time given or else the clock's, without an
-- error and without a lease, and otherwise as it was; every other row is as it was; and whoever marks
-- it delivered again, with whatever token that is not empty, gets a conflict.
pub mark_delivery_delivered-Held :
    (limit : ℤ) (s t : DeliveryStore) (clock : Time) (id token : Text) (at : Time) (e : Delivery)
    → ((k : Text) (d : Delivery) → Dict.get s.deliveries_by_id k ≡ some d → d.id ≡ k)
    → mark_delivery_delivered s clock id token at ≡ ok (e, t)
    → (d : Delivery) × Held s (trim_space id) (trim_space token) (or_now (or_now at clock) clock) d
      × Step limit d e
      × (e ≡ record d {
        state = DeliveryState.delivered;
        attempts = d.attempts + 1;
        last_attempt_at = or_now at clock;
        last_error = [];
        next_attempt_at = or_now at clock;
        lease_token = [];
        lease_expires_at = 0;
        updated_at = or_now at clock;
      })
      × ((k : Text)
          → Dict.get t.deliveries_by_id k
            ≡ (if text_eq (trim_space id) k then some e else Dict.get s.deliveries_by_id k))
      × ((later : Time) (other : Text) (later_at : Time)
          → is_empty (trim_space other) ≡ false
          → mark_delivery_delivered t later id other later_at ≡ err conflict)
unfolding mark_delivery_delivered settle
mark_delivery_delivered-Held limit s t clock id token at e keyed h =
    let key = trim_space id in
    elim (Result-cases (leased_delivery s key (trim_space token) (or_now at clock) clock)) [
      | inr (x, q) ↦ ground arith
      | inl (d, q) ↦
          let same : e ≡ settle DeliveryState.delivered [] (or_now at clock) d = ground arith in
          let held =
            leased_delivery-Held s key (trim_space token) (or_now at clock) clock d (ground arith)
              q in
          let own : e.id ≡ key = ap (λ (x : Delivery). x.id) same ∙ keyed key d held.0 in
          let rows : t.deliveries_by_id ≡ Dict.put s.deliveries_by_id e.id e = ground arith in
          let found : Dict.get t.deliveries_by_id key ≡ some e =
            ap (λ m. Dict.get m key) rows
            ∙ ap (λ k. Dict.get (Dict.put s.deliveries_by_id k e) key) own
            ∙ get-put_self s.deliveries_by_id key e in
          (
            d,
            held,
            rw same (deliver d (or_now at clock) held.1),
            same,
            λ k.
                ap (λ m. Dict.get m k) rows
                ∙ ap (λ j. Dict.get (Dict.put s.deliveries_by_id j e) k) own
                ∙ get-put s.deliveries_by_id key k e,
            λ later other later_at n.
                settled-conflict t later id other later_at e (ground arith) n found
                  (ap (λ (x : Delivery). is_queued x.state) same),
          )
    ]

-- A delivery that was marked failed took the step of a delivery that fails for the trimmed reason,
-- from the queued row that the store held under its id, whose lease the caller held by its token and
-- which had not run out.
fail_delivery-Held :
    (limit : ℤ) (s t : DeliveryStore) (clock : Time) (id token reason : Text) (at : Time)
    (e : Delivery)
    → fail_delivery s clock id token reason at ≡ ok (e, t)
    → (d : Delivery) × Held s (trim_space id) (trim_space token) (or_now (or_now at clock) clock) d
      × Step limit d e
unfolding fail_delivery
fail_delivery-Held limit s t clock id token reason at e h =
    elim (Result-cases
      (leased_delivery s (trim_space id) (trim_space token) (or_now at clock) clock)) [
        | inr (x, q) ↦ ground arith
        | inl (d, q) ↦
            let same : e ≡ settle DeliveryState.failed (trim_space reason) (or_now at clock) d =
              ground arith in
            let held =
              leased_delivery-Held s (trim_space id) (trim_space token) (or_now at clock) clock d
                (ground arith) q in
            (d, held, rw same (fail d (trim_space reason) (or_now at clock) held.1))
      ]

-- What a claim leases for a positive duration is not due to any claim before the lease runs out, and
-- from then on it is due again if it was.
leased-is_due :
    (token : Text) (now : Time) (duration : Duration) (d : Delivery)
    → is_due now d ≡ true
    → is_positive duration ≡ true
    → (later : Time) → now ≤ later
    → is_due later (leased token now duration d) ≡ not (ltb later (time_add now duration))
unfolding leased is_due
leased-is_due token now duration d due p later l = ground arith
