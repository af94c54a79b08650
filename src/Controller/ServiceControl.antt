-- ===== src/Controller/ServiceControl.antt =====
-- pkg/controller/controller_utils.go: creating services. No code of the controller calls it.
pub mod Laws
pub mod Fake
use caffe2_operator.Prelude.{String, Option, none, some, if◌then◌else◌}
use caffe2_operator.Prelude.Text.{◌<>◌}
use caffe2_operator.Go.{Error, message, error_text, Result, ok, err}
use caffe2_operator.Kube.{OwnerReference, Service}
use caffe2_operator.Controller.Cluster.{
  World, Cluster, record_event, called, create_service_on_server, patch_service_on_server,
}
use caffe2_operator.Controller.PodControl.{Object, validate_controller_ref}

module _ (k : Cluster) where
  -- The events and the result after `Create`.
  after_create_service : Object → Result Service × World → Option Error × World
  after_create_service object (err e, w) = (
    some (message ("unable to create services: " <> error_text e)),
    called (record_event "Warning" "FailedCreateService" ("Error creating: " <> error_text e)) w,
  )
  after_create_service none (ok service, w) = (none, w)
  after_create_service (some meta) (ok service, w) = (
    none,
    called
        (record_event "Normal" "SuccessfulCreateService" ("Created service: " <> service.meta.name))
        w,
  )

  -- `RealServiceControl.createServices`, which does not use its controller reference.
  unfoldable pub create_services :
      String → Service → Object → Option OwnerReference → World → Option Error × World
  unfolding after_create_service
  create_services namespace service object controller_ref w =
      if k.selects_everything service.meta.labels
      then (some (message "unable to create Services, no labels"), w)
      else after_create_service object (create_service_on_server k namespace service w)

  -- `RealServiceControl.CreateServices`
  unfoldable pub create_services_plain : String → Service → Object → World → Option Error × World
  unfolding create_services
  create_services_plain namespace service object w = create_services namespace service object none w

  -- `RealServiceControl.CreateServicesWithControllerRef`
  unfoldable pub create_services_with_controller_ref :
      String → Service → Object → Option OwnerReference → World → Option Error × World
  unfolding validate_controller_ref create_services
  create_services_with_controller_ref namespace service object controller_ref w =
      elim (validate_controller_ref controller_ref) [
        | some e ↦ (some e, w)
        | none ↦ create_services namespace service object controller_ref w
      ]

  -- `RealServiceControl.PatchService`
  unfoldable pub patch_service_data : String → String → String → World → Option Error × World
  patch_service_data namespace name data_ w = patch_service_on_server k namespace name data_ w
