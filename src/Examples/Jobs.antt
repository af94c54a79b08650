-- ===== src/Examples/Jobs.antt =====
-- The theorems on events, conditions, slices, defaults and validation, applied.
use caffe2_operator.Controller.Events.Waking.{Wakes, add_pod_exactly}
use caffe2_operator.Prelude.Dict.{lookup}
use caffe2_operator.Prelude.{
  true, String, ◌≡◌, ◌≢◌, ◌↔◌, refl, ◌⊎◌, inr, none, some, [], ◌∷◌, if◌then◌else◌, keep,
}
use text.Mathlib.Text.{◌==◌}
use caffe2_operator.Prelude.Int.{pos}
use caffe2_operator.Go.{returns, Runs}
use caffe2_operator.Api.Types.{Caffe2JobCondition, Caffe2JobSpec}
use caffe2_operator.Api.Defaults.{
  set_defaults, default_replicas, default_backend, default_template, default_policy,
  backend_of_type, chief_worker,
}
use caffe2_operator.Controller.Cluster.{added}
use caffe2_operator.Controller.Sync.{queued}
use caffe2_operator.Api.Validation.{validate}
use caffe2_operator.Api.Validation.Laws.{Valid, validate_iff, defaulted_backend_invalid}
use caffe2_operator.Controller.Conditions.{get_condition, set_condition}
use caffe2_operator.Controller.Conditions.Laws.{updated, get-set_condition}
use caffe2_operator.Controller.Events.{add_caffe2_job, add_pod}
use caffe2_operator.Controller.Events.Laws.{Submittable, Added, add_caffe2_job-Added}
use caffe2_operator.Controller.Slices.{get_pod_slices}
use caffe2_operator.Controller.Slices.Laws.{table, has_index, get_pod_slices-table}
use caffe2_operator.Examples.{worker, job, no_status, template, replica, cluster, controller}

pub job-Submittable : Submittable job.spec
unfolding job replica
job-Submittable = record {
  spec = replica;
  template = template;
  count = inr (2, refl);
  has_spec = refl;
  has_template = refl;
}

add_caffe2_job-Added_example :
    Runs
      (Added (cluster []) true job controller job "ns/job")
      (add_caffe2_job (cluster []) true job controller)
unfolding cluster job lookup
add_caffe2_job-Added_example =
    add_caffe2_job-Added (cluster []) job controller job "ns/job" refl job-Submittable refl

validate_iff_example : (validate job.spec ≡ returns none) ↔ Valid job.spec
validate_iff_example = validate_iff job.spec

abbrev created : Caffe2JobCondition
created = record {
  type = "Created";
  status = "True";
  reason = "r";
  message = "m";
  last_update_time = 1;
  last_transition_time = 1;
}

abbrev running : Caffe2JobCondition
running = record created { type = "Running" }

get-set_condition_example :
    get_condition (set_condition (record no_status { conditions = created ∷ [] }) running) "Created"
    ≡ (if "Running" == "Created"
        then some (
            updated
              (get_condition (record no_status { conditions = created ∷ [] }) "Running")
              running)
        else get_condition (record no_status { conditions = created ∷ [] }) "Created")
get-set_condition_example =
    get-set_condition (record no_status { conditions = created ∷ [] }) running "Created"

abbrev alone : Caffe2JobSpec
alone = record {
  runtime_id = "1";
  backend = none;
  replica_specs = some replica;
  termination_policy = none;
}

defaulted_backend_invalid_example :
    validate (record {
      runtime_id = "1";
      backend = some (backend_of_type "redis");
      replica_specs = some (record { replicas = some (pos 2); template = some template });
      termination_policy = some chief_worker;
    })
    ≢ returns none
unfolding set_defaults default_replicas default_backend default_template default_policy replica
    template
defaulted_backend_invalid_example =
    defaulted_backend_invalid (pos 7) (pos 2) alone
      (record {
        runtime_id = "1";
        backend = some (backend_of_type "redis");
        replica_specs = some (record { replicas = some (pos 2); template = some template });
        termination_policy = some chief_worker;
      })
      replica refl refl refl refl refl

get_pod_slices-table_example :
    get_pod_slices (worker ∷ []) (pos 2)
    ≡ returns (table 0 2 (λ i. keep (has_index i) (worker ∷ [])))
get_pod_slices-table_example = get_pod_slices-table (worker ∷ []) 2

add_pod_exactly_example :
    ((add_pod (cluster []) worker controller ≡ controller)
      × ((job_key : String) → ¬ Wakes (cluster []) worker controller job_key))
    ⊎ ((job_key : String) × Wakes (cluster []) worker controller job_key
        × (add_pod (cluster []) worker controller ≡ queued (added job_key) controller))
add_pod_exactly_example = add_pod_exactly (cluster []) worker controller
