-- ===== src/Examples/System.antt =====
-- The theorems on the running controller and on jobs without defaults, applied.
use caffe2_operator.Prelude.{inl, true, some, inr, if◌then◌else◌, ◌≡◌, refl, none, [], ◌∷◌, List}
use caffe2_operator.Examples.{
  Outcome, returns, Controller, worker, job, cluster, template, replica, job-Ready, start,
  controller, controller-AllReady,
}
use caffe2_operator.Go.{Runs, panics, nil_dereference}
use caffe2_operator.Api.Types.{Caffe2Job}
use caffe2_operator.Controller.Slices.{filter_pods_for_caffe2_replica_type}
use caffe2_operator.Controller.Pods.{reconcile_pods}
use caffe2_operator.Controller.Pods.Undefaulted.{Undefaulted, reconcile_pods_panics}
use caffe2_operator.Controller.New.{FilteringHandler, tombstone, new}
use caffe2_operator.Controller.New.Laws.{
  Notice, appeared, changed, vanished, Delivers, notify_all, new-run_events,
}
use caffe2_operator.Controller.System.{
  Event, job_cached, job_dropped, job_added, job_updated, job_deleted, pod_added, pod_deleted,
  worker_round, run_events,
}
use caffe2_operator.Controller.System.Invariant.{Orderly, Sound, AllAdmissible, run_events-Sound}
use caffe2_operator.Controller.Events.Laws.{Submittable}

-- The first version of the job has no number of replicas and no backend.
abbrev submitted : Caffe2Job
submitted = record job {
  spec = record job.spec {
    backend = none;
    replica_specs = some (record { replicas = none; template = some template });
  };
}

submitted-Submittable : Submittable submitted.spec
submitted-Submittable = record {
  spec = record { replicas = none; template = some template };
  template = template;
  count = inl refl;
  has_spec = refl;
  has_template = refl;
}

abbrev events : List Event
events =
    job_cached submitted
    ∷ job_added true submitted
    ∷ worker_round
    ∷ job_cached job
    ∷ pod_added worker
    ∷ worker_round
    ∷ job_updated submitted job
    ∷ pod_deleted worker
    ∷ job_dropped job
    ∷ worker_round
    ∷ job_deleted job
    ∷ []

events-AllAdmissible : AllAdmissible (cluster []) events
unfolding cluster job
events-AllAdmissible = (
  inr (refl, submitted-Submittable),
  (submitted-Submittable, (tt, (inl job-Ready, (tt, (tt, (tt, (tt, (tt, (tt, (tt, tt)))))))))),
)

run_events-Sound_example : Runs Sound (run_events (cluster []) events controller)
run_events-Sound_example =
    run_events-Sound (cluster []) events controller events-AllAdmissible
      (record { all_ready = controller-AllReady; orderly = Orderly.untouched })

-- The job of the examples, without its backend.
abbrev bare : Caffe2Job
bare = record job { spec = record job.spec { backend = none } }

bare-Undefaulted : Undefaulted (cluster []) bare replica
unfolding cluster job replica template
bare-Undefaulted = record {
  job_key = "ns/job";
  template = template;
  container = record { name = "c"; env = [] };
  containers = [];
  key = refl;
  has_template = refl;
  has_container = refl;
  no_backend = refl;
}

reconcile_pods_undefaulted_example :
    reconcile_pods (cluster []) bare [] bare.spec.replica_specs start ≡ panics nil_dereference
unfolding cluster job replica filter_pods_for_caffe2_replica_type
reconcile_pods_undefaulted_example =
    reconcile_pods_panics (cluster []) bare replica 1 [] start bare-Undefaulted refl refl refl

-- How client-go's handler does it.
deliver_by : FilteringHandler → Notice → Controller → Outcome Controller
deliver_by h (appeared obj) c = if h.filter_func obj then h.add_func obj c else returns c
deliver_by h (changed old cur) c =
    if h.filter_func cur
    then (if h.filter_func old then h.update_func old cur c else h.add_func cur c)
    else (if h.filter_func old then h.delete_func old c else returns c)
deliver_by h (vanished obj) c = if h.filter_func obj then h.delete_func obj c else returns c

deliver_by-Delivers : Delivers deliver_by
unfolding deliver_by
deliver_by-Delivers = record {
  on_add = λ h obj c p. rw p refl;
  on_add_filtered = λ h obj c p. rw p refl;
  on_update = λ h old cur c p q. rw (p, q) refl;
  on_update_begins = λ h old cur c p q. rw (p, q) refl;
  on_update_ends = λ h old cur c p q. rw (p, q) refl;
  on_update_filtered = λ h old cur c p q. rw (p, q) refl;
  on_delete = λ h obj c p. rw p refl;
  on_delete_filtered = λ h obj c p. rw p refl;
}

new-run_events_example :
    (notify_all (cluster []) deliver_by events controller
      ≡ run_events (cluster []) events controller)
    × (deliver_by (new (cluster [])).job_handler (vanished (tombstone "ns/job")) controller
        ≡ returns controller)
    × (deliver_by (new (cluster [])).pod_handler (vanished (tombstone "ns/job")) controller
        ≡ returns controller)
new-run_events_example =
    new-run_events (cluster []) deliver_by deliver_by-Delivers events "ns/job" controller
