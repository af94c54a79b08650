-- ===== src/Controller/PodControl.antt =====
-- pkg/controller/controller_utils.go: creating and deleting pods.
pub mod Submission
use caffe2_operator.Prelude.{
  String, Bool, true, false, not, Option, none, some, List, [], ◌∷◌, if◌then◌else◌,
}
use caffe2_operator.Prelude.Dict.{Dict, insert_all}
use caffe2_operator.Prelude.Text.{◌<>◌, is_empty}
use caffe2_operator.Go.{Error, message, error_text, Result, ok, err}
use caffe2_operator.Kube.{Labels, OwnerReference, ObjectMeta, Pod, unset, PodTemplateSpec, no_meta}
use caffe2_operator.Controller.Cluster.{
  World, Cluster, record_event, called, create_pod_on_server, delete_pod_on_server,
  patch_pod_on_server,
}

-- A `runtime.Object`: `none` has no ObjectMeta, and `meta.Accessor` fails on it.
abbrev pub Object : Type 0
Object = Option ObjectMeta

abbrev accessor : Object → Result ObjectMeta
accessor none = err (message "object does not implement the Object interfaces")
accessor (some meta) = ok meta

-- `*p` where p is not nil and true
abbrev is_true : Option Bool → Bool
is_true none = false
is_true (some b) = b

-- `validateControllerRef`
unfoldable pub validate_controller_ref : Option OwnerReference → Option Error
validate_controller_ref none = some (message "controllerRef is nil")
validate_controller_ref (some ref) =
    if is_empty ref.api_version
    then some (message "controllerRef has empty APIVersion")
    else if is_empty ref.kind
    then some (message "controllerRef has empty Kind")
    else if not (is_true ref.controller)
    then some (message "controllerRef.Controller is not set to true")
    else if not (is_true ref.block_owner_deletion)
    then some (message "controllerRef.BlockOwnerDeletion is not set")
    else none

-- `getPodsLabelSet` and `getPodsAnnotationSet` copy a map into a new one.
unfoldable pub copy_map : Labels → Dict String
copy_map none = []
copy_map (some m) = insert_all m []

unfoldable pub get_pods_label_set : PodTemplateSpec → Dict String
unfolding copy_map
get_pods_label_set template = copy_map template.meta.labels

unfoldable pub get_pods_annotation_set : PodTemplateSpec → Dict String
unfolding copy_map
get_pods_annotation_set template = copy_map template.meta.annotations

unfoldable pub get_pods_finalizers : PodTemplateSpec → List String
get_pods_finalizers template = template.meta.finalizers

-- `pod.OwnerReferences = append(pod.OwnerReferences, *controllerRef)`
unfoldable pub owners : Option OwnerReference → List OwnerReference
owners none = []
owners (some ref) = ref ∷ []

module _ (k : Cluster) where
  unfoldable pub validate_pod_name : String → Bool → List String
  validate_pod_name name prefix = k.name_is_dns_subdomain name prefix

  unfoldable pub get_pods_prefix : String → String
  unfolding validate_pod_name
  get_pods_prefix controller_name =
      let prefix = controller_name <> "-" in
      elim (validate_pod_name prefix true) [ [] ↦ prefix | e ∷ es ↦ controller_name ]

  -- `GetPodFromTemplate`
  unfoldable pub get_pod_from_template :
      PodTemplateSpec → Object → Option OwnerReference → Result Pod
  unfolding get_pods_label_set get_pods_annotation_set get_pods_finalizers get_pods_prefix owners
  get_pod_from_template template parent controller_ref = elim (accessor parent) [
    | err e ↦ err (message ("parentObject does not have ObjectMeta, " <> error_text e))
    | ok meta ↦ ok (record {
      meta = record no_meta {
        labels = some (get_pods_label_set template);
        annotations = some (get_pods_annotation_set template);
        generate_name = get_pods_prefix meta.name;
        finalizers = get_pods_finalizers template;
        owner_references = owners controller_ref;
      };
      spec = template.spec;
      phase = unset;
    })
  ]

  -- The events and the result after `Create`.
  unfoldable pub after_create : Object → Result Pod × World → Option Error × World
  after_create object (err e, w) = (
    some e,
    called (record_event "Warning" "FailedCreate" ("Error creating: " <> error_text e)) w,
  )
  after_create none (ok pod, w) = (none, w)
  after_create (some meta) (ok pod, w) =
      (none, called (record_event "Normal" "SuccessfulCreate" ("Created pod: " <> pod.meta.name)) w)

  -- `pod.Spec.NodeName = nodeName` where it is not empty
  on_node : String → Pod → Pod
  on_node node_name pod =
      if is_empty node_name
      then pod
      else record pod { spec = record pod.spec { node_name = node_name } }

  unfoldable pub submit : String → Object → Pod → World → Option Error × World
  unfolding after_create
  submit namespace object pod w =
      if k.selects_everything pod.meta.labels
      then (some (message "unable to create pods, no labels"), w)
      else after_create object (create_pod_on_server k namespace pod w)

  -- `RealPodControl.createPods`
  unfoldable pub create_pods :
      String
      → String
      → PodTemplateSpec
      → Object
      → Option OwnerReference
      → World
      → Option Error × World
  unfolding get_pod_from_template on_node submit
  create_pods node_name namespace template object controller_ref w =
      elim (get_pod_from_template template object controller_ref) [
        | err e ↦ (some e, w)
        | ok pod ↦ submit namespace object (on_node node_name pod) w
      ]

  -- `RealPodControl.CreatePods`
  unfoldable pub create_pods_plain :
      String → PodTemplateSpec → Object → World → Option Error × World
  unfolding create_pods
  create_pods_plain namespace template object w = create_pods "" namespace template object none w

  -- `RealPodControl.CreatePodsOnNode`
  unfoldable pub create_pods_on_node :
      String
      → String
      → PodTemplateSpec
      → Object
      → Option OwnerReference
      → World
      → Option Error × World
  unfolding validate_controller_ref create_pods
  create_pods_on_node node_name namespace template object controller_ref w =
      elim (validate_controller_ref controller_ref) [
        | some e ↦ (some e, w)
        | none ↦ create_pods node_name namespace template object controller_ref w
      ]

  -- `RealPodControl.CreatePodsWithControllerRef`
  unfoldable pub create_pods_with_controller_ref :
      String → PodTemplateSpec → Object → Option OwnerReference → World → Option Error × World
  unfolding validate_controller_ref create_pods
  create_pods_with_controller_ref namespace template object controller_ref w =
      elim (validate_controller_ref controller_ref) [
        | some e ↦ (some e, w)
        | none ↦ create_pods "" namespace template object controller_ref w
      ]

  after_delete : String → Option Error × World → Option Error × World
  after_delete pod_id (some e, w) = (
    some (message ("unable to delete pods: " <> error_text e)),
    called (record_event "Warning" "FailedDelete" ("Error deleting: " <> error_text e)) w,
  )
  after_delete pod_id (none, w) =
      (none, called (record_event "Normal" "SuccessfulDelete" ("Deleted pod: " <> pod_id)) w)

  -- `RealPodControl.DeletePod`
  unfoldable pub delete_pod : String → String → Object → World → Option Error × World
  unfolding after_delete
  delete_pod namespace pod_id object w = elim (accessor object) [
    | err e ↦ (some (message ("object does not have ObjectMeta, " <> error_text e)), w)
    | ok meta ↦ after_delete pod_id (delete_pod_on_server k namespace pod_id w)
  ]

  -- `RealPodControl.PatchPod`
  unfoldable pub patch_pod : String → String → String → World → Option Error × World
  patch_pod namespace name patch w = patch_pod_on_server k namespace name patch w
