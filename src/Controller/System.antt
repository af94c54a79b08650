-- ===== src/Controller/System.antt =====
-- The controller as it runs: the writes of the job informer to its cache, the notifications that the
-- handlers get, and the rounds of the workers, one after the other in any order. The informer writes to
-- its cache first, and notifies the handlers in another goroutine (k8s.io/client-go/tools/cache), so
-- other steps may come between. The notification of a new job hands over a pointer to the object that
-- was put into the cache; the event says whether the cache still holds that object. Of a filtered handler
-- an update calls `AddFunc` where only the new object passes, and `DeleteFunc` where only the old one
-- does.
pub mod Handlers
pub mod Invariant
use caffe2_operator.Prelude.{String, Bool, true, false, List, [], ◌∷◌, if◌then◌else◌}
use caffe2_operator.Prelude.Dict.{Dict, insert, remove}
use caffe2_operator.Go.{Outcome, returns, panics, ◌>>=◌}
use caffe2_operator.Kube.{Pod}
use caffe2_operator.Api.Types.{Caffe2Job}
use caffe2_operator.Controller.Cluster.{Cluster}
use caffe2_operator.Controller.Sync.{Controller, store_key, process_next_work_item}
use caffe2_operator.Controller.Events.{
  pod_filter, enqueue_controller, add_caffe2_job, update_caffe2_job, add_pod, update_pod,
  delete_pod,
}

pub data Event : Type 0 where
  -- the informer's cache takes a job in, new or changed, or drops it
  job_cached : Caffe2Job → Event
  job_dropped : Caffe2Job → Event
  -- the notifications, and whether the cache still holds the object of the first
  job_added : (held : Bool) → Caffe2Job → Event
  job_updated : (old cur : Caffe2Job) → Event
  job_deleted : Caffe2Job → Event
  pod_added : Pod → Event
  pod_updated : (old cur : Pod) → Event
  pod_deleted : Pod → Event
  -- one round of a worker
  worker_round : Event

abbrev pub job_key : Caffe2Job → String
job_key job = store_key job.meta.namespace job.meta.name

module _ (k : Cluster) where
  -- The handlers of the pod informer, behind their filter.
  unfoldable pub pod_changed : (passed passes : Bool) → (old cur : Pod) → Controller → Controller
  pod_changed true true old cur c = update_pod k old cur c
  pod_changed true false old cur c = delete_pod k old c
  pod_changed false true old cur c = add_pod k cur c
  pod_changed false false old cur c = c

  -- The writes to the cache are the informer's own; the others are what `New` registers, and a round.
  unfoldable pub handle : Event → Controller → Outcome Controller
  handle (job_cached job) c = returns (record c { jobs = insert (job_key job) job c.jobs })
  handle (job_dropped job) c = returns (record c { jobs = remove (job_key job) c.jobs })
  handle (job_added held job) c = add_caffe2_job k held job c
  handle (job_updated old cur) c = returns (update_caffe2_job k old cur c)
  handle (job_deleted job) c = returns (enqueue_controller k job.meta c)
  handle (pod_added pod) c = returns (if pod_filter pod then add_pod k pod c else c)
  handle (pod_updated old cur) c = returns (pod_changed (pod_filter old) (pod_filter cur) old cur c)
  handle (pod_deleted pod) c = returns (if pod_filter pod then delete_pod k pod c else c)
  handle worker_round c = process_next_work_item k c >>= λ r. returns r.1

  unfoldable pub run_events : List Event → Controller → Outcome Controller
  run_events [] c = returns c
  run_events (e ∷ es) c = handle e c >>= λ c'. run_events es c'
