-- ===== src/Controller/Labels.antt =====
-- The labels, names and owner references that the controller gives: parts of
-- pkg/controller/controller.go, controller_pod.go and config.go.
use caffe2_operator.Prelude.{String, true, some, [], ◌∷◌}
use caffe2_operator.Prelude.Dict.{Dict}
use caffe2_operator.Prelude.Text.{◌<>◌, replace_slashes}
use caffe2_operator.Kube.{OwnerReference}
use caffe2_operator.Api.Types.{Caffe2Job, group_name, group_version, caffe2_job_resource_kind}

abbrev pub caffe2_replica_type_label : String
caffe2_replica_type_label = "caffe2_replica_type"

abbrev pub caffe2_replica_index_label : String
caffe2_replica_index_label = "caffe2_replica_index"

-- `genLabels`
unfoldable pub gen_labels : String → String → Dict String
gen_labels id job_key =
    ("group_name", group_name)
    ∷ ("caffe2_job_key", replace_slashes job_key)
    ∷ ("runtime_id", id)
    ∷ []

-- `groupVersionKind.GroupVersion().String()`
abbrev pub api_version : String
api_version = group_name <> "/" <> group_version

-- `genOwnerReference`
unfoldable pub gen_owner_reference : Caffe2Job → OwnerReference
gen_owner_reference job = record {
  api_version = api_version;
  kind = caffe2_job_resource_kind;
  name = job.meta.name;
  uid = job.meta.uid;
  controller = some true;
  block_owner_deletion = some true;
}

-- `genGeneralName`
unfoldable pub gen_general_name : String → String → String → String
gen_general_name job_key rtype index = replace_slashes (job_key <> "-" <> rtype <> "-" <> index)
