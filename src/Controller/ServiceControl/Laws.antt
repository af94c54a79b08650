-- ===== src/Controller/ServiceControl/Laws.antt =====
-- What creating a service with a controller reference sends.
use caffe2_operator.Prelude.{String, ◌≡◌, refl, Option, none}
use caffe2_operator.Kube.{OwnerReference, Service}
use caffe2_operator.Controller.Cluster.{World, Cluster}
use caffe2_operator.Controller.PodControl.{Object, validate_controller_ref}
use caffe2_operator.Controller.ServiceControl.{
  create_services, create_services_plain, create_services_with_controller_ref,
}

-- With a valid controller reference `CreateServicesWithControllerRef` does what `CreateServices` does
-- without one: the reference does not reach the service that is sent.
pub controller_ref_unused :
    (k : Cluster) (namespace : String) (service : Service) (object : Object)
    (ref : Option OwnerReference) (w : World)
    → validate_controller_ref ref ≡ none
    → create_services_with_controller_ref k namespace service object ref w
      ≡ create_services_plain k namespace service object w
unfolding create_services_with_controller_ref create_services_plain create_services
controller_ref_unused k namespace service object ref w h =
    rw (h, create_services_with_controller_ref) refl
