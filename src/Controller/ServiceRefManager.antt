-- ===== src/Controller/ServiceRefManager.antt =====
-- pkg/controller/controller_ref_manager.go: claiming, adopting and releasing services. A
-- `ServiceControllerRefManager` has the fields of a `Manager`. No code of the controller calls it.
pub mod Laws
pub mod Claimed
use caffe2_operator.Prelude.{
  String, Bool, true, ◌&&◌, Option, none, some, List, [], ◌∷◌, if◌then◌else◌,
}
use caffe2_operator.Prelude.Text.{◌<>◌}
use caffe2_operator.Go.{Error, message, error_text, is_not_found, is_invalid}
use caffe2_operator.Kube.{Service}
use caffe2_operator.Controller.Cluster.{Cluster}
use caffe2_operator.Controller.RefManager.{Manager, Session, can_adopt, claim_object}
use caffe2_operator.Controller.ServiceControl.{patch_service_data}

module _ (k : Cluster) (m : Manager) where
  -- `ReleaseService` and `AdoptService` send a patch through the service control.
  send_patch : Service → String → Session → Option Error × Session
  unfolding patch_service_data
  send_patch service text s =
      let (e, w) = patch_service_data k service.meta.namespace service.meta.name text s.world in
      (e, record s { world = w })

  adopt_service_patch : Service → String
  adopt_service_patch service =
      "{\"metadata\":{\"ownerReferences\":[{\"apiVersion\":\"" <> m.group_version
      <> "\",\"kind\":\"" <> m.kind <> "\",\"name\":\"" <> m.controller.name <> "\",\"uid\":\""
      <> m.controller.uid <> "\",\"controller\":true,\"blockOwnerDeletion\":true}],\"uid\":\""
      <> service.meta.uid <> "\"}}"

  release_service_patch : Service → String
  release_service_patch service =
      "{\"metadata\":{\"ownerReferences\":[{\"$patch\":\"delete\",\"uid\":\"" <> m.controller.uid
      <> "\"}],\"uid\":\"" <> service.meta.uid <> "\"}}"

  -- What follows `CanAdopt`.
  adopt_checked : Service → Option Error × Session → Option Error × Session
  unfolding send_patch adopt_service_patch
  adopt_checked service (some e, s) = (
    some (
        message (
          "can't adopt Service "
          <> service.meta.namespace
          <> "/"
          <> service.meta.name
          <> " ("
          <> service.meta.uid
          <> "): "
          <> error_text e)),
    s,
  )
  adopt_checked service (none, s) = send_patch service (adopt_service_patch service) s

  -- `AdoptService`
  unfoldable pub adopt_service : Service → Session → Option Error × Session
  unfolding adopt_checked
  adopt_service service s = adopt_checked service (can_adopt m s)

  -- The errors of a release that mean that the service is gone or not owned.
  ignore_gone : Option Error → Option Error
  ignore_gone none = none
  ignore_gone (some e) = if is_not_found e then none else if is_invalid e then none else some e

  -- `ReleaseService`
  unfoldable pub release_service : Service → Session → Option Error × Session
  unfolding send_patch release_service_patch ignore_gone
  release_service service s =
      let (e, s') = send_patch service (release_service_patch service) s in (ignore_gone e, s')

  passes : List (Service → Bool) → Service → Bool
  passes [] service = true
  passes (f ∷ fs) service = f service && passes fs service

  -- The `match` of `ClaimServices`.
  unfoldable pub matches_service : List (Service → Bool) → Service → Bool
  unfolding passes
  matches_service filters service = m.selector service.meta.labels && passes filters service

  -- One round of `ClaimServices`.
  unfoldable pub claim_service :
      List (Service → Bool) → Service → Session → Bool × Option Error × Session
  unfolding matches_service adopt_service release_service
  claim_service filters service s =
      claim_object k m service.meta (matches_service filters service) (adopt_service service)
        (release_service service) s

  gather :
      Service
      → Bool
      → Option Error
      → List Service × List Error × Session
      → List Service × List Error × Session
  gather service taken (some e) (claimed, errlist, s) = (claimed, e ∷ errlist, s)
  gather service taken none (claimed, errlist, s) =
      (if taken then service ∷ claimed else claimed, errlist, s)

  -- The loop of `ClaimServices`.
  unfoldable pub claim_each_service :
      List (Service → Bool) → List Service → Session → List Service × List Error × Session
  unfolding claim_service gather
  claim_each_service filters [] s = ([], [], s)
  claim_each_service filters (service ∷ services) s =
      let (taken, e, s') = claim_service filters service s in
      gather service taken e (claim_each_service filters services s')

  -- `ClaimServices`
  unfoldable pub claim_services :
      List (Service → Bool) → List Service → Session → List Service × Option Error × Session
  unfolding claim_each_service
  claim_services filters services s =
      let (claimed, errlist, s') = claim_each_service filters services s in
      (claimed, k.new_aggregate errlist, s')
