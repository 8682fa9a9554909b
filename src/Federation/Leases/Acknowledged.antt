-- ===== src/Federation/Leases/Acknowledged.antt =====
-- An acknowledgement counts once.
use zvonilka.Base.{[], ◌∷◌, arith, ◌≡◌, refl}
use zvonilka.Base.Dict.{Dict}
use zvonilka.Federation.Models.{BundleFragment}
use zvonilka.Federation.Leases.{
  AcknowledgeFragmentsParams, is_selected, acknowledged_by, acknowledge_each, acknowledge_fragments,
  sort_by,
}

acknowledge_each-again :
    (params : AcknowledgeFragmentsParams) (s : Dict BundleFragment)
    → acknowledge_each params (acknowledge_each params s).1 ≡ ([], (acknowledge_each params s).1)
unfolding acknowledge_each is_selected acknowledged_by
acknowledge_each-again params [] = refl
acknowledge_each-again params ((id, f) ∷ s) = ground (arith, acknowledge_each-again params s)

-- An acknowledgement that is made a second time, with the same lease, ids and time, updates nothing.
pub acknowledge_fragments-again :
    (params : AcknowledgeFragmentsParams) (s : Dict BundleFragment)
    → acknowledge_fragments (acknowledge_fragments s params).1 params
      ≡ ([], (acknowledge_fragments s params).1)
unfolding acknowledge_fragments sort_by
acknowledge_fragments-again params s = ground (arith, acknowledge_each-again params s)
