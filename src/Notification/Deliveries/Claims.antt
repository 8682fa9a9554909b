-- ===== src/Notification/Deliveries/Claims.antt =====
-- What a claim takes: deliveries that are due, as many as the limit allows, those of the highest
-- priority first.
use Prim.Native.Nat.{min}
use zvonilka.Base.{
  ℕ, Bool, true, List, [], ◌∷◌, map, take, keep, length, All, arith, suc, zero, Bool-cases, ◌≡◌,
  inl, inr, drop, ◌++◌, if◌then◌else◌, Time, is_positive, ok, or_now, pos_part, take-append-drop,
  length-take, ◌∙◌, ap, leb_ℤ, ℤ, Text, any, text_eq,
}
use mathlib.Core.Option
use zvonilka.Base.Dict
use zvonilka.Notification.Deliveries.Rows.{
  IsKeyed, rows-found, All-kept, found-renewed, lease_each-rows,
}
use zvonilka.Notification.Models.{Delivery}
use zvonilka.Notification.Deliveries.{
  goes_before, insert_due, sort_due, DeliveryStore, store_claim, is_due, ClaimDeliveriesParams,
  rows, leased, lease_each,
}
use mathlib.Core.Option.{some}

module _ {κ} (P : Delivery → Type κ) where
  All-insert_due : (d : Delivery) (ds : List Delivery) → P d → All P ds → All P (insert_due d ds)
  unfolding insert_due
  All-insert_due d [] p ps = (p, ps)
  All-insert_due d (e ∷ es) p (q, qs) = elim (Bool-cases (goes_before e d)) [
    | inl h ↦ rw h (q, All-insert_due d es p qs)
    | inr h ↦ rw h (p, (q, qs))
  ]

  All-sort_due : (ds : List Delivery) → All P ds → All P (sort_due ds)
  unfolding sort_due
  All-sort_due [] ps = ps
  All-sort_due (d ∷ ds) (p, ps) = All-insert_due d (sort_due ds) p (All-sort_due ds ps)

  All-take : (n : ℕ) (ds : List Delivery) → All P ds → All P (take n ds)
  All-take zero ds ps = tt
  All-take (suc n) [] ps = ps
  All-take (suc n) (d ∷ ds) (p, ps) = (p, All-take n ds ps)

All-keep : (p : Delivery → Bool) (ds : List Delivery) → All (λ d. p d ≡ true) (keep p ds)
All-keep p [] = tt
All-keep p (d ∷ ds) = elim (Bool-cases (p d)) [
  | inl h ↦ rw h (h, All-keep p ds)
  | inr h ↦ rw h (All-keep p ds)
]

length-insert_due : (d : Delivery) (ds : List Delivery) → length (insert_due d ds) ≡ suc (length ds)
unfolding insert_due
length-insert_due d [] = omega arith
length-insert_due d (e ∷ es) = ground (arith, length-insert_due d es)

length-sort_due : (ds : List Delivery) → length (sort_due ds) ≡ length ds
unfolding sort_due
length-sort_due [] = omega arith
length-sort_due (d ∷ ds) = omega (arith, length-sort_due ds, length-insert_due d (sort_due ds))

length-map : (f : Delivery → Delivery) (ds : List Delivery) → length (map f ds) ≡ length ds
length-map f [] = omega arith
length-map f (d ∷ ds) = omega (arith, length-map f ds)

-- No later delivery has a higher priority.
abbrev pub Falling : List Delivery → Type 0
Falling [] = Unit
Falling (d ∷ ds) = All (λ e. leb_ℤ e.priority d.priority ≡ true) ds × Falling ds

All-below :
    (m n : ℤ) (ds : List Delivery)
    → leb_ℤ m n ≡ true
    → All (λ e. leb_ℤ e.priority m ≡ true) ds
    → All (λ e. leb_ℤ e.priority n ≡ true) ds
All-below m n [] l ps = tt
All-below m n (d ∷ ds) l (p, ps) = (ground arith, All-below m n ds l ps)

goes_before-priority :
    (a b : Delivery)
    → (if goes_before a b then leb_ℤ b.priority a.priority else leb_ℤ a.priority b.priority) ≡ true
unfolding goes_before
goes_before-priority a b = ground arith

Falling-insert_due : (d : Delivery) (ds : List Delivery) → Falling ds → Falling (insert_due d ds)
unfolding insert_due
Falling-insert_due d [] f = (tt, tt)
Falling-insert_due d (e ∷ es) (l, f) = elim (Bool-cases (goes_before e d)) [
  | inl h ↦
      let le : leb_ℤ d.priority e.priority ≡ true = ground (arith, goes_before-priority e d) in
      rw h (
        All-insert_due (λ x. leb_ℤ x.priority e.priority ≡ true) d es le l,
        Falling-insert_due d es f,
      )
  | inr h ↦
      let le : leb_ℤ e.priority d.priority ≡ true = ground (arith, goes_before-priority e d) in
      rw h ((le, All-below e.priority d.priority es le l), (l, f))
]

Falling-sort_due : (ds : List Delivery) → Falling (sort_due ds)
unfolding sort_due
Falling-sort_due [] = tt
Falling-sort_due (d ∷ ds) = Falling-insert_due d (sort_due ds) (Falling-sort_due ds)

All-drop {κ} : (P : Delivery → Type κ) (n : ℕ) (ds : List Delivery) → All P ds → All P (drop n ds)
All-drop P zero ds ps = ps
All-drop P (suc n) [] ps = ps
All-drop P (suc n) (d ∷ ds) (p, ps) = All-drop P n ds ps

-- Whatever is left has no higher priority than anything that is taken.
Falling-take :
    (n : ℕ) (ds : List Delivery)
    → Falling ds
    → All (λ d. All (λ e. leb_ℤ e.priority d.priority ≡ true) (drop n ds)) (take n ds)
Falling-take zero ds f = tt
Falling-take (suc n) [] f = tt
Falling-take (suc n) (d ∷ ds) (l, f) =
    (All-drop (λ e. leb_ℤ e.priority d.priority ≡ true) n ds l, Falling-take n ds f)

-- What a claim is made of: the deliveries that it takes and those that it leaves are together the due
-- ones, in order of priority.
pub record Claim (due : List Delivery) (limit : ℕ) : Type 0 where
  pub taken : List Delivery
  pub left : List Delivery
  pub together : taken ++ left ≡ sort_due due
  pub bound : length taken ≡ min limit (length due)
  pub first : All (λ d. All (λ e. leb_ℤ e.priority d.priority ≡ true) left) taken

abbrev pub due_at : DeliveryStore → Time → List Delivery
due_at s now = keep (is_due now) (rows s.deliveries_by_id)

-- A claim with a positive limit that succeeds, in a store that has each delivery under its id: it leases
-- deliveries that are due at its time, as many as the limit allows, or all of them where they are fewer,
-- and none of those it leaves has a higher priority than one that it takes. The store has the new lease
-- in the row of each delivery that was taken, the rest of that row as it was, and every other row as it
-- was.
pub store_claim-first :
    (s t : DeliveryStore) (clock : Time) (params : ClaimDeliveriesParams) (claimed : List Delivery)
    → IsKeyed s.deliveries_by_id
    → is_positive params.limit ≡ true
    → store_claim s clock params ≡ ok (claimed, t)
    → (c : Claim (due_at s (or_now params.before_time clock)) (pos_part params.limit)) × (claimed
        ≡ map
            (leased params.lease_token (or_now params.before_time clock) params.lease_duration)
            c.taken)
      × All (λ d. is_due (or_now params.before_time clock) d ≡ true) c.taken
      × ((k : Text)
          → Dict.get t.deliveries_by_id k ≡ (
              if any (λ d. text_eq d.id k) c.taken
              then Option.map
                  (leased params.lease_token
                    (or_now params.before_time clock)
                    params.lease_duration)
                  (Dict.get s.deliveries_by_id k)
              else Dict.get s.deliveries_by_id k))
unfolding store_claim
store_claim-first s t clock params claimed keyed p h =
    let now = or_now params.before_time clock in
    let n = pos_part params.limit in
    let due = due_at s now in
    let sorted = sort_due due in
    let found = λ (d : Delivery). Dict.get s.deliveries_by_id d.id ≡ some d in
    let each =
      lease_each s.deliveries_by_id params.lease_token now params.lease_duration (take n sorted) in
    let c : Claim due n = record {
      taken = take n sorted;
      left = drop n sorted;
      together = take-append-drop n sorted;
      bound = length-take n sorted ∙ ap (min n) (length-sort_due due);
      first = Falling-take n sorted (Falling-sort_due due);
    } in
    let stand : All found (take n sorted) = All-take found n sorted (
      All-sort_due found due (
        All-kept found (is_due now) (rows s.deliveries_by_id)
          (rows-found s.deliveries_by_id keyed))) in
    let (renewed, after) =
      lease_each-rows params.lease_token now params.lease_duration s.deliveries_by_id
        (take n sorted)
        (found-renewed params.lease_token now params.lease_duration s.deliveries_by_id
          (take n sorted) stand) in
    let first : claimed ≡ each.0 = ground arith in
    let second : t.deliveries_by_id ≡ each.1 = ground arith in
    (
      c,
      first ∙ renewed,
      All-take (λ d. is_due now d ≡ true) n sorted
          (All-sort_due (λ d. is_due now d ≡ true) due
            (All-keep (is_due now) (rows s.deliveries_by_id))),
      λ k. ap (λ m. Dict.get m k) second ∙ after k,
    )
