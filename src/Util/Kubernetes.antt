-- ===== src/Util/Kubernetes.antt =====
-- The helpers of pkg/util/k8sutil/k8sutil.go and pkg/apis/caffe2/helper/helpers.go on Kubernetes objects.
pub mod Laws
use caffe2_operator.Prelude.{
  String, Bool, true, false, Option, none, some, List, [], ◌∷◌, ◌++◌, if◌then◌else◌,
}
use caffe2_operator.Prelude.Dict.{Dict, lookup, insert}
use caffe2_operator.Prelude.Int.{ℤ}
use caffe2_operator.Prelude.Text.{◌<>◌}
use caffe2_operator.Prelude.Decimal.{itoa_int}
use caffe2_operator.Go.{
  Error, status, already_exists, Outcome, returns, panics, ◌>>=◌, is_not_found, nil_map,
}
use caffe2_operator.Kube.{Labels, OwnerReference, ObjectMeta, ListOptions, DeleteOptions}
use caffe2_operator.Api.Types.{Caffe2Job, app_label, group_name, caffe2_job_resource_kind}
use caffe2_operator.Controller.Labels.{api_version}

-- `AsOwner`
unfoldable pub as_owner : Caffe2Job → OwnerReference
as_owner job = record {
  api_version = api_version;
  kind = caffe2_job_resource_kind;
  name = job.meta.name;
  uid = job.meta.uid;
  controller = some true;
  block_owner_deletion = some true;
}

-- `scalingReason`
unfoldable pub scaling_reason : (from to : ℤ) → String
scaling_reason from to =
    "Current cluster size: " <> itoa_int from <> ", desired cluster size: " <> itoa_int to

-- `addOwnerRefToObject`
unfoldable pub add_owner_ref_to_object : ObjectMeta → OwnerReference → ObjectMeta
add_owner_ref_to_object o r = record o { owner_references = o.owner_references ++ r ∷ [] }

-- `IsKubernetesResourceAlreadyExistError`
unfoldable pub is_kubernetes_resource_already_exist_error : Error → Bool
is_kubernetes_resource_already_exist_error (status already_exists s) = true
is_kubernetes_resource_already_exist_error _ = false

-- `IsKubernetesResourceNotFoundError`
unfoldable pub is_kubernetes_resource_not_found_error : Error → Bool
is_kubernetes_resource_not_found_error e = is_not_found e

-- `LabelsForJob`
unfoldable pub labels_for_job : String → Dict String
labels_for_job job_name = ("caffe2_job", job_name) ∷ ("app", app_label) ∷ []

-- `JobListOpt`, with `labels.SelectorFromSet(…).String()` as `selector_text`
unfoldable pub job_list_opt : (selector_text : Dict String → String) → String → ListOptions
unfolding labels_for_job
job_list_opt selector_text cluster_name = record {
  label_selector = selector_text (labels_for_job cluster_name);
  field_selector = "";
  watch = false;
}

-- `CascadeDeleteOptions`
unfoldable pub cascade_delete_options : ℤ → DeleteOptions
cascade_delete_options grace_period_seconds = record {
  grace_period_seconds = some grace_period_seconds;
  propagation_policy = some "Foreground";
}

-- One round of the loop of `mergeLabels`: a write to a nil map panics.
unfoldable pub merge_label : String → String → Labels → Outcome Labels
merge_label key value none = panics nil_map
merge_label key value (some l1) = elim (lookup key l1) [
  | some old ↦ returns (some l1)
  | none ↦ returns (some (insert key value l1))
]

-- `mergeLabels`: what the first map is then.
unfoldable pub merge_labels : Labels → Dict String → Outcome Labels
unfolding merge_label
merge_labels l1 [] = returns l1
merge_labels l1 ((key, value) ∷ l2) = merge_label key value l1 >>= λ l. merge_labels l l2
