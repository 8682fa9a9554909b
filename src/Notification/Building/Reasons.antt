-- ===== src/Notification/Building/Reasons.antt =====
-- What the deliveries of a message are: each has a reason that its account was reached for, and is
-- queued exactly where the account's settings let it through.
use zvonilka.Base.{
  All-append, Text, Time, ℕ, Bool, true, List, [], ◌∷◌, All, none, some, ◌≡◌, Bool-cases, inl, inr,
  Option-cases, if◌then◌else◌, refl, Option, ◌∙◌,
}
use mathlib.Core.Path.{subst, ap, sym}
use zvonilka.Base.Dict
use zvonilka.Conversation.Models.{ConversationMember}
use zvonilka.Notification.Models.{
  Delivery, DeliveryState, PresenceState, PushToken, DeliveryMode, no_override,
}
use zvonilka.Notification.Routing.{Route, route_decision, should_deliver, recipient_ids}
use zvonilka.Notification.Building.{
  Fanout, Recipients, preference_of, or_zero, membership_by_account_id, queue_all, queue_tokens,
  queued_delivery, suppressed_delivery, routed_deliveries, account_deliveries, each_account,
  build_deliveries, delivery_mode_for_presence,
}

module _ (local_minute : Text → Time → ℕ) (maps : Recipients) (members : List ConversationMember)
    (f : Fanout) where
  -- What the settings of an account say to a route.
  abbrev pub lets_through : Text → Route → Bool
  lets_through account_id route =
      should_deliver local_minute (preference_of maps.preferences account_id f.now)
        (or_zero no_override (Dict.get maps.overrides account_id))
        (membership_by_account_id members account_id) route.kind route.reason f.now

  -- A delivery of the message to an account, along the route that leads there.
  abbrev pub Along : Text → Route → Delivery → Type 0
  Along account_id route d =
      (d.account_id ≡ account_id)
      × (d.kind ≡ route.kind)
      × (d.reason ≡ route.reason)
      × (d.priority ≡ route.priority)
      × (d.state ≡ (
          if lets_through account_id route then DeliveryState.queued else DeliveryState.suppressed))

  queue_tokens-Along :
      (a : Text) (route : Route) (mode : DeliveryMode) (ts : List PushToken)
      → lets_through a route ≡ true
      → All (Along a route) (queue_tokens f a route mode ts)
  unfolding queue_tokens queued_delivery
  queue_tokens-Along a route mode [] h = tt
  queue_tokens-Along a route mode (t ∷ ts) h =
      ((refl, refl, refl, refl, rw h), queue_tokens-Along a route mode ts h)

  queue_all-Along :
      (a : Text) (route : Route) (mode : DeliveryMode) (ts : List PushToken)
      → lets_through a route ≡ true
      → All (Along a route) (queue_all f a route mode ts)
  unfolding queue_all queued_delivery
  queue_all-Along a route mode [] h = ((refl, refl, refl, refl, rw h), tt)
  queue_all-Along a route mode (t ∷ ts) h = queue_tokens-Along a route mode (t ∷ ts) h

  routed_deliveries-Along :
      (a : Text) (route : Route)
      → All (Along a route) (routed_deliveries local_minute maps members f a route)
  unfolding routed_deliveries suppressed_delivery
  routed_deliveries-Along a route =
      let tokens = or_zero [] (Dict.get maps.push_tokens a) in
      let presence = or_zero PresenceState.unspecified (Dict.get maps.presences a) in
      elim (Bool-cases (lets_through a route)) [
        | inl h ↦
            rw h (queue_all-Along a route (delivery_mode_for_presence presence tokens) tokens h)
        | inr h ↦ rw h ((refl, refl, refl, refl, rw h refl), tt)
      ]

  -- A delivery that has a reason: its account is a recipient, and the delivery goes along its route.
  abbrev pub Justified : Delivery → Type 0
  Justified d =
      (route : Route) × (route_decision f.conversation f.message d.account_id ≡ some route)
      × Along d.account_id route d

  justify :
      (a : Text) (route : Route) (ds : List Delivery)
      → route_decision f.conversation f.message a ≡ some route
      → All (Along a route) ds
      → All Justified ds
  justify a route [] r h = tt
  justify a route (d ∷ ds) r (along, hs) =
      let there = ap (route_decision f.conversation f.message) along.0 ∙ r in
      let state =
        along.4
        ∙ ap (λ x. if lets_through x route then DeliveryState.queued else DeliveryState.suppressed)
            (sym along.0) in
      ((route, there, (refl, along.1, along.2, along.3, state)), justify a route ds r hs)

  abbrev along_route : Text → Option Route → List Delivery
  along_route a none = []
  along_route a (some route) = routed_deliveries local_minute maps members f a route

  account_deliveries-Justified :
      (a : Text) → All Justified (account_deliveries local_minute maps members f a)
  unfolding account_deliveries
  account_deliveries-Justified a = elim (Option-cases (route_decision f.conversation f.message a)) [
    | inl n ↦ subst (λ o. All Justified (along_route a o)) (sym n) tt
    | inr (route, r) ↦
        subst (λ o. All Justified (along_route a o)) (sym r)
          (justify a route (routed_deliveries local_minute maps members f a route) r
            (routed_deliveries-Along a route))
  ]

  each_account-Justified :
      (ids : List Text) → All Justified (each_account local_minute maps members f ids)
  unfolding each_account
  each_account-Justified [] = tt
  each_account-Justified (a ∷ ids) =
      All-append Justified (account_deliveries local_minute maps members f a)
        (each_account local_minute maps members f ids) (account_deliveries-Justified a)
        (each_account-Justified ids)

  -- Each delivery that a message is fanned out into has the kind, the reason and the priority of the
  -- route that leads from the message to its account, and is queued where the preference, the override
  -- and the membership of that account let the route through, and suppressed where they do not.
  pub build_deliveries-Justified : All Justified (build_deliveries local_minute maps members f)
  unfolding build_deliveries
  build_deliveries-Justified =
      each_account-Justified (recipient_ids f.conversation f.message members)
