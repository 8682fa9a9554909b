-- ===== src/Notification/Deliveries/Lifecycle.antt =====
-- The life of a delivery: what its state, its lease and its attempts go through.
use zvonilka.Base.{
  Text, Time, Duration, pos_part, true, false, [], is_empty, arith, ◌≡◌, refl, is_positive, ℤ, ◌∙◌,
  not, ◌||◌, ltb,
}
use mathlib.Core.Path.{subst}
use zvonilka.Notification.Models.{Delivery, DeliveryState}
use zvonilka.Notification.Deliveries.{
  is_due, is_settled, is_queued, leased, settle, requeue, RetryDeliveryParams,
}

-- A delivery that is not queued holds no lease, and a lease that is held has an end.
pub record IsValid (d : Delivery) : Type 0 where
  pub unleased : (is_queued d.state || is_empty d.lease_token) ≡ true
  pub ends : (is_empty d.lease_token || ltb 0 d.lease_expires_at) ≡ true

-- Each step of the life of a delivery under a limit on its attempts: a claim leases one that is due,
-- and an attempt settles one that is queued, or puts back one that is not settled.
pub data Step (limit : ℤ) : Delivery → Delivery → Type 0 where
  claim :
      (d : Delivery) (token : Text) (now : Time) (duration : Duration)
      → is_due now d ≡ true
      → is_positive duration ≡ true
      → Step limit d (leased token now duration d)
  deliver :
      (d : Delivery) (now : Time)
      → is_queued d.state ≡ true
      → Step limit d (settle DeliveryState.delivered [] now d)
  fail :
      (d : Delivery) (reason : Text) (now : Time)
      → is_queued d.state ≡ true
      → Step limit d (settle DeliveryState.failed reason now d)
  retry :
      (d : Delivery) (params : RetryDeliveryParams) (now : Time)
      → is_settled d.state ≡ false
      → params.max_attempts ≡ limit
      → Step limit d (requeue params now d)

pub data Steps (limit : ℤ) (d : Delivery) : Delivery → Type 0 where
  here : Steps limit d d
  next : {e f : Delivery} → Steps limit d e → Step limit e f → Steps limit d f

Step-IsValid : {limit : ℤ} {d e : Delivery} → Step limit d e → IsValid d → IsValid e
unfolding leased settle requeue is_due
Step-IsValid (claim d token now duration due p) v = ground arith
Step-IsValid (deliver d now q) v = ground arith
Step-IsValid (fail d reason now q) v = ground arith
Step-IsValid (retry d params now q m) v = ground arith

-- A queued delivery has attempts left.
abbrev pub HasAttempts : ℤ → Delivery → Type 0
HasAttempts limit d = (not (is_queued d.state) || ltb d.attempts (pos_part limit)) ≡ true

Step-HasAttempts :
    {limit : ℤ} {d e : Delivery}
    → is_positive limit ≡ true
    → Step limit d e
    → HasAttempts limit d
    → HasAttempts limit e
unfolding leased settle requeue is_due
Step-HasAttempts p (claim d token now duration due l) v = ground arith
Step-HasAttempts p (deliver d now q) v = ground arith
Step-HasAttempts p (fail d reason now q) v = ground arith
Step-HasAttempts p (retry d params now q m) v = ground arith

-- Whatever steps a delivery takes under a positive limit: if it begins valid and with attempts left
-- while queued, it stays so. A valid one holds a lease only while it is queued, and each lease that it
-- holds has an end.
pub Steps-IsValid :
    {limit : ℤ} {d e : Delivery}
    → is_positive limit ≡ true
    → Steps limit d e
    → IsValid d
    → HasAttempts limit d
    → IsValid e × HasAttempts limit e
Steps-IsValid p here v a = (v, a)
Steps-IsValid p (next steps step) v a =
    let (w, b) = Steps-IsValid p steps v a in (Step-IsValid step w, Step-HasAttempts p step b)

settled_stays : {limit : ℤ} {d e : Delivery} → Step limit d e → is_settled d.state ≡ true → d ≡ e
unfolding is_due
settled_stays (claim d token now duration due l) h = ground arith
settled_stays (deliver d now q) h = ground arith
settled_stays (fail d reason now q) h = ground arith
settled_stays (retry d params now q m) h = ground arith

-- A delivered or suppressed delivery takes no step: whatever steps begin at it, it is the same at
-- their end.
Steps-settled : {limit : ℤ} {d e : Delivery} → Steps limit d e → is_settled d.state ≡ true → d ≡ e
Steps-settled here h = refl
Steps-settled (next steps step) h =
    let same = Steps-settled steps h in
    same ∙ settled_stays step (subst (λ x. is_settled x.state ≡ true) same h)
