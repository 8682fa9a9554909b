-- ===== src/Notification/Deliveries/Rows.antt =====
-- The rows of the store, each under its id, and what the loop of a claim makes of them.
use mathlib.Core.Option
use zvonilka.Base.Dict
use zvonilka.Base.Dict.{Dict, get-put}
use zvonilka.Notification.Models.{Delivery}
use zvonilka.Notification.Deliveries.{rows, leased, lease_each, Bool, Text, row_or_zero}
use zvonilka.Base.{
  [], map, ◌≡◌, All, List, Time, keep, Duration, ◌∷◌, All-map, arith, text_eq_iff, Bool-cases, ap,
  if◌then◌else◌, inl, Option-cases, any, inr, text_eq, ◌∙◌, refl,
}
use mathlib.Core.Option.{none, some, Option}

abbrev pub IsKeyed : Dict Delivery → Type 0
IsKeyed [] = Unit
IsKeyed ((id, d) ∷ m) = (d.id ≡ id) × (Dict.get m id ≡ none) × IsKeyed m

rows-All :
    (P : Delivery → Type 0) (m : Dict Delivery)
    → IsKeyed m
    → ((d : Delivery) → Dict.get m d.id ≡ some d → P d)
    → All P (rows m)
unfolding rows Dict.get
rows-All P [] i p = tt
rows-All P ((j, e) ∷ m) (own, new, i) p = (
  p e (ground (arith, text_eq_iff j e.id)),
  rows-All P m i (λ d found. p d (ground (arith, text_eq_iff j d.id, new))),
)

pub rows-found : (m : Dict Delivery) → IsKeyed m → All (λ d. Dict.get m d.id ≡ some d) (rows m)
rows-found m i = rows-All (λ d. Dict.get m d.id ≡ some d) m i (λ d found. found)

pub All-kept {κ} :
    (P : Delivery → Type κ) (p : Delivery → Bool) (ds : List Delivery)
    → All P ds
    → All P (keep p ds)
All-kept P p [] ps = ps
All-kept P p (d ∷ ds) (q, qs) = elim (Bool-cases (p d)) [
  | inl h ↦ rw h (q, All-kept P p ds qs)
  | inr h ↦ rw h (All-kept P p ds qs)
]

module _ (token : Text) (now : Time) (duration : Duration) where
  abbrev renew : Option Delivery → Option Delivery
  renew row = Option.map (leased token now duration) row

  -- The lease of a row is the lease of `d`.
  abbrev Renews : Dict Delivery → Delivery → Type 0
  Renews m d = renew (Dict.get m d.id) ≡ some (leased token now duration d)

  pub found-renewed :
      (m : Dict Delivery) (ds : List Delivery)
      → All (λ d. Dict.get m d.id ≡ some d) ds
      → All (Renews m) ds
  found-renewed m ds found =
      All-map (λ d. Dict.get m d.id ≡ some d) (Renews m) (λ d f. ap renew f) ds found

  -- A lease that is written a second time changes nothing more.
  renew-put :
      (m : Dict Delivery) (d : Delivery) (k : Text)
      → Renews m d
      → renew (Dict.get (Dict.put m d.id (leased token now duration d)) k) ≡ renew (Dict.get m k)
  unfolding leased
  renew-put m d k r =
      ground (arith, r, get-put m d.id k (leased token now duration d), text_eq_iff d.id k)

  lease-found :
      (m : Dict Delivery) (d : Delivery)
      → Renews m d
      → leased token now duration (row_or_zero (Dict.get m d.id)) ≡ leased token now duration d
  lease-found m d r = elim (Option-cases (Dict.get m d.id)) [
    | inl e ↦ ground arith
    | inr (row, e) ↦ ground arith
  ]

  renewed_or_kept :
      (m : Dict Delivery) (d : Delivery) (ds : List Delivery) (k : Text)
      → Renews m d
      → (if any (λ e. text_eq e.id k) ds
          then renew (Dict.get (Dict.put m d.id (leased token now duration d)) k)
          else Dict.get (Dict.put m d.id (leased token now duration d)) k)
        ≡ (if any (λ e. text_eq e.id k) (d ∷ ds) then renew (Dict.get m k) else Dict.get m k)
  renewed_or_kept m d ds k r = ground (
    arith,
    r,
    renew-put m d k r,
    get-put m d.id k (leased token now duration d),
    text_eq_iff d.id k,
  )

  pub lease_each-rows :
      (m : Dict Delivery) (ds : List Delivery)
      → All (Renews m) ds
      → ((lease_each m token now duration ds).0 ≡ map (leased token now duration) ds)
        × ((k : Text)
            → Dict.get (lease_each m token now duration ds).1 k
              ≡ (if any (λ d. text_eq d.id k) ds then renew (Dict.get m k) else Dict.get m k))
  unfolding lease_each leased
  lease_each-rows m [] rs = (refl, λ k. refl)
  lease_each-rows m (d ∷ ds) (r, rs) =
      let row = leased token now duration d in
      let u = Dict.put m d.id row in
      let again : All (Renews u) ds =
        All-map (Renews m) (Renews u) (λ e q. renew-put m d e.id r ∙ q) ds rs in
      let (claimed, after) = lease_each-rows u ds again in
      let each = lease_each u token now duration ds in
      let begun : lease_each m token now duration (d ∷ ds) ≡ (row ∷ each.0, each.1) =
        ap
          (λ (x : Delivery).
            let rest = lease_each (Dict.put m x.id x) token now duration ds in (x ∷ rest.0, rest.1))
          (lease-found m d r) in
      (
        ap (λ p. p.0) begun ∙ ap (λ es. row ∷ es) claimed,
        λ k. ap (λ p. Dict.get p.1 k) begun ∙ after k ∙ renewed_or_kept m d ds k r,
      )
