-- ===== src/Controller/New.antt =====
-- `New` of pkg/controller/controller.go: the handlers that it gives to the informers, and the names and
-- periods that it chooses. The delivery of events to a handler is that of k8s.io/client-go/tools/cache.
pub mod Laws
use caffe2_operator.Prelude.{ℕ, String, Bool, true, false, Option, none, some, List, [], ◌∷◌}
use caffe2_operator.Prelude.Dict.{Dict, insert, remove}
use caffe2_operator.Go.{Error, Outcome, returns, panics, wrong_type, ◌>>=◌}
use caffe2_operator.Kube.{Pod}
use caffe2_operator.Api.Types.{Caffe2Job}
use caffe2_operator.Controller.Cluster.{added, Cluster}
use caffe2_operator.Controller.Status.{Stage}
use caffe2_operator.Controller.Sync.{
  Controller, queued, sync_caffe2_job, update_caffe2_job_status, process_next_work_item,
}
use caffe2_operator.Controller.Events.{
  pod_filter, enqueue_controller, add_caffe2_job, update_caffe2_job, add_pod, update_pod,
  delete_pod,
}
use caffe2_operator.Controller.System.{
  Event, job_added, job_updated, job_deleted, pod_added, pod_updated, pod_deleted, worker_round,
  job_key,
}

-- An `interface{}` that an informer hands to a handler.
pub data Object : Type 0 where
  -- a `*api.Caffe2Job`; whether the cache holds what it points to
  job_object : (held : Bool) → Caffe2Job → Object
  pod_object : Pod → Object
  -- `cache.DeletedFinalStateUnknown`, by its key
  tombstone : String → Object

-- `cache.FilteringResourceEventHandler` with a `cache.ResourceEventHandlerFuncs`
pub record FilteringHandler : Type 0 where
  pub filter_func : Object → Bool
  pub add_func : Object → Controller → Outcome Controller
  pub update_func : (old cur : Object) → Controller → Outcome Controller
  pub delete_func : Object → Controller → Outcome Controller

-- `obj.(*api.Caffe2Job)` and `obj.(*v1.Pod)`
abbrev pub to_job : Object → Outcome (Bool × Caffe2Job)
to_job (job_object held job) = returns (held, job)
to_job (pod_object pod) = panics wrong_type
to_job (tombstone key) = panics wrong_type

abbrev pub to_pod : Object → Outcome Pod
to_pod (pod_object pod) = returns pod
to_pod (job_object held job) = panics wrong_type
to_pod (tombstone key) = panics wrong_type

-- What `New` makes, apart from the clients that it is given.
pub record Made : Type 0 where
  -- the components of the event recorders of the controller and of the two controls
  pub recorder : String
  pub pod_control_recorder : String
  pub service_control_recorder : String
  pub work_queue : String
  -- the resync periods of the two informer factories, in seconds
  pub job_resync : ℕ
  pub pod_resync : ℕ
  pub job_handler : FilteringHandler
  pub pod_handler : FilteringHandler
  pub sync_handler : String → Controller → Outcome (Bool × Option Error × Controller)
  pub update_status_handler : Stage → Option Error × Stage

module _ (k : Cluster) where
  -- `enqueueController` on any object: the key function reads tombstones too.
  unfoldable pub enqueue_object : Object → Controller → Controller
  enqueue_object (job_object held job) c = enqueue_controller k job.meta c
  enqueue_object (pod_object pod) c = enqueue_controller k pod.meta c
  enqueue_object (tombstone key) c = queued (added key) c

  -- The `FilterFunc` for jobs.
  abbrev pub is_job : Object → Bool
  is_job (job_object held job) = true
  is_job (pod_object pod) = false
  is_job (tombstone key) = false

  -- The `FilterFunc` for pods.
  abbrev pub is_started_pod : Object → Bool
  is_started_pod (pod_object pod) = pod_filter pod
  is_started_pod (job_object held job) = false
  is_started_pod (tombstone key) = false

  abbrev pub job_handler_of : FilteringHandler
  job_handler_of = record {
    filter_func = is_job;
    add_func = λ obj c. to_job obj >>= λ p. add_caffe2_job k p.0 p.1 c;
    update_func = λ old cur c. to_job old >>= λ p. returns (enqueue_object cur c);
    delete_func = λ obj c. returns (enqueue_object obj c);
  }

  abbrev pub pod_handler_of : FilteringHandler
  pod_handler_of = record {
    filter_func = is_started_pod;
    add_func = λ obj c. to_pod obj >>= λ pod. returns (add_pod k pod c);
    update_func = λ old cur c. returns c;
    delete_func = λ obj c. returns c;
  }

  -- `New`, which returns no error
  unfoldable pub new : Made
  unfolding enqueue_object
  new = record {
    recorder = "caffe2-operator";
    pod_control_recorder = "caffe2job-controller";
    service_control_recorder = "caffe2job-controller";
    work_queue = "Caffe2jobs";
    job_resync = 30;
    pod_resync = 30;
    job_handler = job_handler_of;
    pod_handler = pod_handler_of;
    sync_handler = λ key c. sync_caffe2_job k key c;
    update_status_handler = λ st. update_caffe2_job_status k st;
  }
