-- ===== src/Api/Defaults.antt =====
-- pkg/apis/caffe2/v1alpha1/defaults.go and zz_generated.defaults.go.
use caffe2_operator.Prelude.{String, Option, none, some, List, [], ◌∷◌, if◌then◌else◌}
use caffe2_operator.Prelude.Int.{ℤ, pos, int_eq}
use caffe2_operator.Prelude.Text.{is_empty}
use caffe2_operator.Prelude.Decimal.{itoa_int}
use caffe2_operator.Go.{Outcome, returns, ◌>>=◌, deref}
use caffe2_operator.Kube.{PodTemplateSpec}
use caffe2_operator.Api.Types.{
  Caffe2BackendSpec, TerminationPolicySpec, Caffe2JobSpec, Caffe2Job, none_backend_type,
  redis_backend_type,
}

-- The restart policy of a template that is there.
unfoldable pub default_template : Option PodTemplateSpec → Option PodTemplateSpec
default_template none = none
default_template (some t) =
    if is_empty t.spec.restart_policy
    then some (record t { spec = record t.spec { restart_policy = "Never" } })
    else some t

unfoldable pub default_replicas : Option ℤ → ℤ
default_replicas none = pos 1
default_replicas (some n) = n

abbrev pub backend_of_type : String → Caffe2BackendSpec
backend_of_type t = record { type = t; nfs_path = ""; redis_host = ""; redis_port = 0 }

unfoldable pub default_backend : ℤ → Option Caffe2BackendSpec → Caffe2BackendSpec
default_backend replicas none =
    backend_of_type (if int_eq replicas (pos 1) then none_backend_type else redis_backend_type)
default_backend replicas (some b) = b

abbrev pub chief_worker : TerminationPolicySpec
chief_worker = record { chief = some (record { replica_name = "WORKER"; replica_index = pos 0 }) }

unfoldable pub default_policy : Option TerminationPolicySpec → TerminationPolicySpec
default_policy none = chief_worker
default_policy (some p) = p

-- `SetDefaults_Caffe2Job` on the spec; `now` is `time.Now().Unix()`, which is read only where the
-- runtime id is empty. `c.ReplicaSpecs` is dereferenced whether or not it is nil.
unfoldable pub set_defaults : ℤ → Caffe2JobSpec → Outcome Caffe2JobSpec
unfolding default_template default_replicas default_backend default_policy
set_defaults now c = do
  r ← deref c.replica_specs
  let replicas = default_replicas r.replicas
  returns (record {
    runtime_id = if is_empty c.runtime_id then itoa_int now else c.runtime_id;
    backend = some (default_backend replicas c.backend);
    replica_specs =
        some (record { replicas = some replicas; template = default_template r.template });
    termination_policy = some (default_policy c.termination_policy);
  })

-- `SetObjectDefaults_Caffe2Job`
unfoldable pub set_object_defaults : ℤ → Caffe2Job → Outcome Caffe2Job
set_object_defaults now job = do
  spec ← set_defaults now job.spec
  returns (record job { spec = spec })

-- `SetObjectDefaults_Caffe2JobList`, with one reading of the clock for each item.
unfoldable pub set_object_defaults_list : List (ℤ × Caffe2Job) → Outcome (List Caffe2Job)
set_object_defaults_list [] = returns []
set_object_defaults_list ((now, job) ∷ jobs) =
    set_object_defaults now job >>= λ j. set_object_defaults_list jobs >>= λ js. returns (j ∷ js)
