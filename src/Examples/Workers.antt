-- ===== src/Examples/Workers.antt =====
-- The theorems on syncing and on reconciling, applied.
use caffe2_operator.Controller.RefManager.Effects.{Made}
use caffe2_operator.Prelude.{◌≡◌, ◌≤◌, refl, Option, none, some, [], ◌∷◌, arith}
use caffe2_operator.Prelude.Int.{pos}
use caffe2_operator.Prelude.Decimal.{itoa, atoi}
use caffe2_operator.Go.{Error, Outcome, returns, panics, Ends, Runs}
use caffe2_operator.Api.Types.{Caffe2ReplicaSpec, Caffe2ReplicaStatus}
use caffe2_operator.Prelude.Dict.{lookup}
use caffe2_operator.Controller.Slices.{
  append_at, index_of, place_all, get_pod_slices, filter_pods_for_caffe2_replica_type,
}
use caffe2_operator.Controller.Pods.{
  create_new_pod, reconcile_slice, next, reconcile_slices, finish, reconcile_pods,
}
use caffe2_operator.Controller.Pods.Creation.{Creates, create_new_pod_calls}
use caffe2_operator.Controller.Pods.Effects.{Creation, workers_at, reconcile_pods_creates}
use caffe2_operator.Controller.Pods.Reports.{counted, reconcile_pods_bounds}
use caffe2_operator.Controller.Pods.Tally.{Tally, status_of}
use caffe2_operator.Controller.Status.{
  Stage, with_statuses, initialize_replica_statuses, update_phase, update_replica_statuses,
  update_conditions, set_start_time, set_completion_time, leave_running, leave_succeeded,
  leave_failed, status_steps, update_status,
}
use caffe2_operator.Controller.Status.Times.{Timed, update_status_effects}
use caffe2_operator.Controller.Status.Laws.{Reported}
use caffe2_operator.Controller.Sync.{sync_caffe2_job, process_next_work_item, run_worker}
use caffe2_operator.Controller.Sync.Total.{AllReady, Synced, sync_caffe2_job-Runs}
use caffe2_operator.Controller.Sync.Worker.{
  Settled, process_next_work_item-Settled, run_worker-Runs,
}
use caffe2_operator.Examples.{
  worker, job, cluster, replica, job-Ready, start, controller, controller-AllReady,
}

run_worker-Runs_example : Runs (λ c'. AllReady c'.jobs) (run_worker (cluster []) 3 controller)
run_worker-Runs_example = run_worker-Runs (cluster []) 3 controller controller-AllReady

process_next_work_item-Settled_example :
    Runs (Settled (cluster []) "ns/job" controller) (process_next_work_item (cluster []) controller)
unfolding cluster
process_next_work_item-Settled_example =
    process_next_work_item-Settled (cluster []) "ns/job" controller controller-AllReady refl

sync_caffe2_job-Runs_example :
    Runs (Synced controller) (sync_caffe2_job (cluster []) "ns/job" controller)
sync_caffe2_job-Runs_example =
    sync_caffe2_job-Runs (cluster []) "ns/job" controller controller-AllReady

reconcile_pods_creates_example :
    Runs
      (λ x. Made (Creation job "ns/job" 2 (workers_at (cluster []) [])) start x.1.1)
      (reconcile_pods (cluster []) job [] job.spec.replica_specs start)
unfolding cluster job job-Ready
reconcile_pods_creates_example =
    reconcile_pods_creates (cluster []) job "ns/job" [] job-Ready start refl (omega arith)

create_new_pod_calls_example :
    Ends
      (Creates (cluster []) job "ns/job" 1 start)
      (create_new_pod (cluster []) job "worker" "1" replica start)
unfolding cluster job itoa
create_new_pod_calls_example =
    create_new_pod_calls (cluster []) job "ns/job" 1 (omega arith) replica start refl

abbrev counters : Caffe2ReplicaStatus
counters = record { active = pos 1; succeeded = pos 0; failed = pos 1 }

update_status_effects_example :
    Runs
      (λ x.
        ((x.0 ≡ none) × Reported counters (pos 2) (with_statuses job counters, start) x.1.0)
        × Timed (cluster []) counters (pos 2) (with_statuses job counters, start) x.1.0)
      (update_status (cluster []) (pos 2) (with_statuses job counters, start))
update_status_effects_example =
    update_status_effects (cluster []) (with_statuses job counters) start (pos 2) counters refl

abbrev single : Caffe2ReplicaSpec
single = record { replicas = some (pos 1); template = none }

-- The only pod has succeeded.
unfoldable ran : Outcome (Option Error × Stage)
ran = reconcile_pods (cluster (worker ∷ [])) job (worker ∷ []) (some single) start

left : Outcome (Option Error × Stage) → Stage
left (returns x) = x.1
left (panics p) = (job, start)

ran-returns : ran ≡ returns (none, left ran)
unfolding ran left reconcile_pods get_pod_slices place_all append_at
    filter_pods_for_caffe2_replica_type cluster lookup worker index_of atoi reconcile_slices
    reconcile_slice next update_replica_statuses update_phase initialize_replica_statuses finish
    update_status status_steps set_start_time leave_running leave_succeeded leave_failed
    set_completion_time update_conditions job
ran-returns = refl

reconcile_pods_bounds_example :
    (t : Tally) × ((left ran).0.status.replica_statuses ≡ some (status_of t)) × (counted t ≤ 1)
unfolding ran
reconcile_pods_bounds_example =
    reconcile_pods_bounds (cluster (worker ∷ [])) job (worker ∷ []) 1 single start (left ran) refl
      (omega arith) ran-returns
