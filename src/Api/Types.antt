-- ===== src/Api/Types.antt =====
-- pkg/apis/caffe2/v1alpha1/types.go and register.go. `TypeMeta` is left out: nothing reads it. An
-- `int32` is an integer whose range is an invariant; `uint` is a natural number.
use caffe2_operator.Prelude.{ℕ, String, Option, List}
use caffe2_operator.Prelude.Int.{ℤ}
use caffe2_operator.Kube.{Time, ObjectMeta, PodTemplateSpec}

abbrev pub group_name : String
group_name = "kubeflow.org"

abbrev pub caffe2_job_resource_kind : String
caffe2_job_resource_kind = "Caffe2Job"

abbrev pub group_version : String
group_version = "v1alpha1"

abbrev pub caffe2_port : ℕ
caffe2_port = 2222

abbrev pub app_label : String
app_label = "caffe2-job"

-- `BackendType` is a string type with these constants.
abbrev pub none_backend_type : String
none_backend_type = "none"

abbrev pub redis_backend_type : String
redis_backend_type = "redis"

abbrev pub nfs_backend_type : String
nfs_backend_type = "nfs"

pub record Caffe2BackendSpec : Type 0 where
  pub type : String
  pub nfs_path : String
  pub redis_host : String
  pub redis_port : ℕ

pub record ChiefSpec : Type 0 where
  pub replica_name : String
  pub replica_index : ℤ

pub record TerminationPolicySpec : Type 0 where
  pub chief : Option ChiefSpec

pub record Caffe2ReplicaSpec : Type 0 where
  pub replicas : Option ℤ
  pub template : Option PodTemplateSpec

pub record Caffe2JobSpec : Type 0 where
  pub runtime_id : String
  pub backend : Option Caffe2BackendSpec
  pub replica_specs : Option Caffe2ReplicaSpec
  pub termination_policy : Option TerminationPolicySpec

-- `Caffe2JobConditionType` is a string type with these constants.
abbrev pub caffe2_job_created : String
caffe2_job_created = "Created"

abbrev pub caffe2_job_running : String
caffe2_job_running = "Running"

abbrev pub caffe2_job_succeeded : String
caffe2_job_succeeded = "Succeeded"

abbrev pub caffe2_job_failed : String
caffe2_job_failed = "Failed"

pub record Caffe2JobCondition : Type 0 where
  pub type : String
  pub status : String
  pub reason : String
  pub message : String
  pub last_update_time : Time
  pub last_transition_time : Time

pub record Caffe2ReplicaStatus : Type 0 where
  pub active : ℤ
  pub succeeded : ℤ
  pub failed : ℤ

pub record Caffe2JobStatus : Type 0 where
  pub conditions : List Caffe2JobCondition
  pub replica_statuses : Option Caffe2ReplicaStatus
  pub start_time : Option Time
  pub completion_time : Option Time
  pub last_reconcile_time : Option Time

pub record Caffe2Job : Type 0 where
  pub meta : ObjectMeta
  pub spec : Caffe2JobSpec
  pub status : Caffe2JobStatus

-- The metadata of a list is left out: nothing reads it.
pub record Caffe2JobList : Type 0 where
  pub items : List Caffe2Job
