-- ===== src/Controller/ServiceRefManager/Laws.antt =====
-- Claiming services while the controller is being deleted.
use caffe2_operator.Prelude.{
  ◌≡◌, refl, Bool, true, false, ◌&&◌, none, some, List, [], ◌∷◌, keep, arith,
}
use text.Mathlib.Text.{◌==◌}
use caffe2_operator.Kube.{Service}
use caffe2_operator.Controller.Cluster.{Cluster}
use caffe2_operator.Controller.RefManager.{Manager, Session, is_some, claim_object}
use caffe2_operator.Controller.ServiceRefManager.{
  matches_service, claim_service, gather, claim_each_service, claim_services,
}

module _ (k : Cluster) (m : Manager) (filters : List (Service → Bool)) where
  -- The service's controller reference names the manager's controller.
  abbrev pub is_own : Service → Bool
  is_own service = elim (k.controller_of service.meta.owner_references) [
    | none ↦ false
    | some ref ↦ ref.uid == m.controller.uid
  ]

  claim_service_deleting :
      (service : Service) (s : Session)
      → is_some m.controller.deletion_timestamp ≡ true
      → claim_service k m filters service s
        ≡ (is_own service && matches_service k m filters service, none, s)
  claim_service_deleting service s h = unfold claim_service claim_object in ground arith

  claim_each_service_deleting :
      (services : List Service) (s : Session)
      → is_some m.controller.deletion_timestamp ≡ true
      → claim_each_service k m filters services s
        ≡ (keep (λ service. is_own service && matches_service k m filters service) services, [], s)
  unfolding claim_each_service gather
  claim_each_service_deleting [] s h = refl
  claim_each_service_deleting (service ∷ services) s h =
      rw (claim_service_deleting service s h) (rw (claim_each_service_deleting services s h))

  -- A controller that is being deleted adopts and releases no service: `ClaimServices` makes no call
  -- and returns exactly the services that it controls and that match, in their order.
  pub claim_services_deleting :
      (services : List Service) (s : Session)
      → is_some m.controller.deletion_timestamp ≡ true
      → claim_services k m filters services s ≡ (
        keep (λ service. is_own service && matches_service k m filters service) services,
        k.new_aggregate [],
        s,
      )
  unfolding claim_services
  claim_services_deleting services s h = rw (claim_each_service_deleting services s h)
