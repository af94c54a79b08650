-- ===== src/Examples/Filled.antt =====
-- The theorem on what a sync has asked for, applied.
use caffe2_operator.Prelude.{◌≡◌, refl, Option, none, [], arith, Bool, true}
use caffe2_operator.Prelude.Dict.{lookup}
use caffe2_operator.Prelude.Decimal.{itoa, itoa_int, atoi, parse_int}
use caffe2_operator.Prelude.Text.{replace_slashes}
use caffe2_operator.Go.{Error, Outcome, returns, panics}
use caffe2_operator.Controller.Labels.{gen_labels, gen_owner_reference, gen_general_name}
use caffe2_operator.Controller.Config.{
  marshal, json_string, json_strings, json_members, json_cluster, join, escape_all, escape,
  escape_byte, hex_digit, hosts, replica_names, cluster_of, gen_cluster_spec,
  gen_caffe2_config_json_str,
}
use caffe2_operator.Controller.PodControl.{
  create_pods_with_controller_ref, create_pods, submit, after_create, owners, get_pod_from_template,
  get_pods_label_set, get_pods_annotation_set, get_pods_finalizers, validate_controller_ref,
  copy_map,
}
use caffe2_operator.Controller.Slices.{
  append_at, index_of, place_all, get_pod_slices, filter_pods_for_caffe2_replica_type,
}
use caffe2_operator.Controller.Pods.{
  create_new_pod, create_for_key, create_configured, after_creation, add_backend_env,
  add_config_env, backend_env, forgive_timeout, worker_labels, reconcile_slice, next,
  reconcile_slices, finish, reconcile_pods,
}
use caffe2_operator.Controller.Pods.Requests.{Requested}
use caffe2_operator.Controller.Status.{
  initialize_replica_statuses, update_phase, update_replica_statuses, increase_active,
  update_conditions, set_start_time, set_completion_time, leave_running, leave_succeeded,
  leave_failed, status_steps, update_status,
}
use caffe2_operator.Controller.RefManager.{claim_pods}
use caffe2_operator.Controller.Sync.{
  Controller, sync_caffe2_job, sync_named, sync_found, reconcile_found, reconcile_claimed,
  claim_selected, claim_listed, lister_get, reconcile_caffe2_jobs, get_pods_for_caffe2_job,
  update_caffe2_job_status, pod_manager,
}
use caffe2_operator.Controller.Sync.Fills.{sync_caffe2_job_fills}
use caffe2_operator.Examples.{
  controller, job, cluster, replica, template, backend, job-Ready, start,
}

-- There is no pod yet, and two are wanted.
unfoldable synced : Outcome (Bool × Option Error × Controller)
synced = sync_caffe2_job (cluster []) "ns/job" controller

reached : Outcome (Bool × Option Error × Controller) → Controller
reached (returns x) = x.2
reached (panics p) = controller

synced-returns : synced ≡ returns (true, none, reached synced)
unfolding synced reached sync_caffe2_job sync_named sync_found reconcile_found reconcile_claimed
    claim_selected claim_listed lister_get reconcile_caffe2_jobs get_pods_for_caffe2_job
    update_caffe2_job_status claim_pods pod_manager reconcile_pods get_pod_slices place_all
    append_at filter_pods_for_caffe2_replica_type cluster lookup index_of atoi reconcile_slices
    reconcile_slice next update_replica_statuses update_phase initialize_replica_statuses finish
    update_status status_steps set_start_time leave_running leave_succeeded leave_failed
    set_completion_time update_conditions job replica template backend create_new_pod create_for_key
    create_configured after_creation add_backend_env increase_active add_config_env backend_env
    forgive_timeout worker_labels gen_caffe2_config_json_str gen_cluster_spec marshal json_string
    json_strings json_members json_cluster join escape_all escape escape_byte hex_digit hosts
    replica_names cluster_of parse_int itoa create_pods_with_controller_ref create_pods submit
    after_create owners get_pod_from_template get_pods_label_set get_pods_annotation_set
    get_pods_finalizers validate_controller_ref copy_map gen_labels gen_owner_reference
    gen_general_name replace_slashes itoa_int
synced-returns = refl

sync_caffe2_job_fills_example :
    Requested job "ns/job"
      (get_pods_for_caffe2_job (cluster []) job start).2
      1
      (reached synced).world
unfolding synced cluster job job-Ready filter_pods_for_caffe2_replica_type lister_get lookup
    get_pods_for_caffe2_job claim_selected claim_listed claim_pods gen_labels
sync_caffe2_job_fills_example =
    sync_caffe2_job_fills (cluster []) "ns/job" "ns" "job" "ns/job" job job-Ready controller
      (reached synced) true 1 refl refl refl refl refl (omega arith) synced-returns (omega arith)
      refl
