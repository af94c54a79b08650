-- ===== src/Controller/Sync.antt =====
-- Syncing a job: the rest of pkg/controller/controller.go and controller_pod.go, with the lister of
-- pkg/client/listers/kubeflow/v1alpha1/caffe2job.go. The jobs in the informer's cache are shared
-- objects: what the controller writes to a job that it took from the lister, it writes to the cache.
pub mod Total
pub mod Worker
pub mod Claiming
pub mod Fills
use caffe2_operator.Prelude.{
  ℕ, zero, suc, String, Bool, true, false, not, ◌||◌, Option, none, some, List, [], ◌∷◌, ◌++◌,
  if◌then◌else◌,
}
use caffe2_operator.Prelude.Dict.{Dict, lookup, insert}
use caffe2_operator.Prelude.Text.{◌<>◌, is_empty}
use text.Mathlib.Text.{◌==◌}
use caffe2_operator.Go.{
  Error, status, not_found, message, error_text, is_not_found, Result, ok, err, Outcome, returns,
  panics, ◌>>=◌,
}
use caffe2_operator.Kube.{OwnerReference, ObjectMeta, PodPhase, Pod, get_label}
use caffe2_operator.Api.Types.{
  Caffe2Job, caffe2_job_created, group_name, group_version, caffe2_job_resource_kind,
}
use caffe2_operator.Api.Defaults.{set_object_defaults}
use caffe2_operator.Controller.Cluster.{
  QueueOp, took, added, forgot, done, World, Cluster, get_job_from_server, update_job_on_server,
}
use caffe2_operator.Controller.RefManager.{
  Manager, Session, is_some, recheck_deletion_timestamp, claim_pods,
}
use caffe2_operator.Controller.Labels.{caffe2_replica_type_label, gen_labels, api_version}
use caffe2_operator.Controller.Status.{Stage, update_conditions, caffe2_job_created_reason}
use caffe2_operator.Controller.Pods.{reconcile_pods}

module _ (k : Cluster) where
  -- The check of the fresh job in `getPodsForCaffe2Job`.
  same_job : Caffe2Job → Result Caffe2Job → Result ObjectMeta
  same_job job (err e) = err e
  same_job job (ok fresh) =
      if fresh.meta.uid == job.meta.uid
      then ok fresh.meta
      else err (
          message (
            "original Caffe2Job " <> job.meta.namespace <> "/" <> job.meta.name
            <> " is gone: got uid " <> fresh.meta.uid <> ", wanted " <> job.meta.uid))

  fresh_job : Caffe2Job → World → Result ObjectMeta × World
  unfolding same_job
  fresh_job job w =
      let (r, w') = get_job_from_server k job.meta.namespace job.meta.name w in (same_job job r, w')

  -- The manager that `NewPodControllerRefManager` makes.
  unfoldable pub pod_manager :
      Caffe2Job → (selector : Option (List (String × String)) → Bool) → Manager
  unfolding fresh_job
  pod_manager job selector = record {
    controller = job.meta;
    selector = selector;
    can_adopt_func = some (recheck_deletion_timestamp k.time_text (fresh_job job));
    group_version = api_version;
    kind = caffe2_job_resource_kind;
  }

  unfoldable pub claim_listed :
      Caffe2Job
      → (Option (List (String × String)) → Bool)
      → Result (List Pod)
      → World
      → List Pod × Option Error × World
  unfolding pod_manager
  claim_listed job selector (err e) w = ([], some e, w)
  claim_listed job selector (ok pods) w =
      let (claimed, e, s) =
        claim_pods k (pod_manager job selector) [] pods (record { world = w; once = none }) in
      (claimed, e, s.world)

  unfoldable pub claim_selected :
      Caffe2Job
      → Result (Option (List (String × String)) → Bool)
      → World
      → List Pod × Option Error × World
  unfolding claim_listed
  claim_selected job (err e) w =
      ([], some (message ("couldn't convert Job selector: " <> error_text e)), w)
  claim_selected job (ok selector) w =
      claim_listed job selector (k.list_pods w.calls job.meta.namespace) w

  -- `getPodsForCaffe2Job`
  unfoldable pub get_pods_for_caffe2_job : Caffe2Job → World → List Pod × Option Error × World
  unfolding claim_selected
  get_pods_for_caffe2_job job w = elim (k.key_func job.meta) [
    | err e ↦ ([], some e, w)
    | ok job_key ↦ claim_selected job (k.selector (gen_labels job.spec.runtime_id job_key)) w
  ]

  -- `updateCaffe2JobStatus`, which `updateStatusHandler` is.
  unfoldable pub update_caffe2_job_status : Stage → Option Error × Stage
  update_caffe2_job_status (job, w) = let (e, w') = update_job_on_server k job w in (e, (job, w'))

  -- `reconcileCaffe2Jobs` after the pods are known.
  unfoldable pub reconcile_claimed :
      Caffe2Job → List Pod × Option Error × World → Outcome (Option Error × Stage)
  unfolding update_caffe2_job_status
  reconcile_claimed job (pods, some e, w) = returns (some e, (job, w))
  reconcile_claimed job (pods, none, w) =
      elim (reconcile_pods k job pods job.spec.replica_specs w) [
        | panics p ↦ panics p
        | returns (some e, st) ↦ returns (some e, st)
        | returns (none, st) ↦ returns (update_caffe2_job_status st)
      ]

  -- `reconcileCaffe2Jobs`: the error, and the job as it is then in memory.
  unfoldable pub reconcile_caffe2_jobs : Caffe2Job → World → Outcome (Option Error × Stage)
  unfolding reconcile_claimed
  reconcile_caffe2_jobs job w = reconcile_claimed job (get_pods_for_caffe2_job job w)

-- The key under which the job informer's indexer has a job.
abbrev pub store_key : String → String → String
store_key ns name = ns <> "/" <> name

-- `Caffe2JobLister.Caffe2Jobs(ns).Get(name)`
unfoldable pub lister_get : Dict Caffe2Job → String → String → Result Caffe2Job
lister_get jobs ns name = elim (lookup (store_key ns name) jobs) [
  | none ↦ err (status not_found ("caffe2job.kubeflow.org \"" <> name <> "\" not found"))
  | some job ↦ ok job
]

-- What a controller keeps: the jobs of the informer's cache, and what it has done with its work
-- queue, the newest operation first.
pub record Controller : Type 0 where
  pub world : World
  pub jobs : Dict Caffe2Job
  pub queue : List QueueOp

-- The job of the cache, as the controller has changed it.
abbrev pub stored : String → String → Stage → Controller → Controller
stored ns name (job, w) c = record c { world = w; jobs = insert (store_key ns name) job c.jobs }

-- `job.DeletionTimestamp == nil`, and then `reconcileCaffe2Jobs`.
unfoldable pub reconcile_found :
    Cluster → String → String → Caffe2Job → Controller → Outcome (Bool × Option Error × Controller)
reconcile_found k ns name job c = elim (job.meta.deletion_timestamp) [
  | some t ↦ returns (true, none, c)
  | none ↦ elim (reconcile_caffe2_jobs k job c.world) [
    | panics p ↦ panics p
    | returns (some e, st) ↦ returns (false, some e, stored ns name st c)
    | returns (none, st) ↦ returns (true, none, stored ns name st c)
  ]
]

unfoldable pub sync_found :
    Cluster
    → String
    → String
    → Result Caffe2Job
    → Controller
    → Outcome (Bool × Option Error × Controller)
unfolding reconcile_found
sync_found k ns name (err e) c =
    returns (if is_not_found e then (true, none, c) else (false, some e, c))
sync_found k ns name (ok job) c = reconcile_found k ns name job c

unfoldable pub sync_named :
    Cluster
    → String
    → Result (String × String)
    → Controller
    → Outcome (Bool × Option Error × Controller)
unfolding sync_found lister_get
sync_named k key (err e) c = returns (false, some e, c)
sync_named k key (ok (ns, name)) c =
    if is_empty ns || is_empty name
    then returns (
      false,
      some (message ("invalid job key \"" <> key <> "\": either namespace or name is missing")),
      c,
    )
    else sync_found k ns name (lister_get c.jobs ns name) c

-- `syncCaffe2Job`: whether the key may be forgotten, and the error.
unfoldable pub sync_caffe2_job :
    Cluster → String → Controller → Outcome (Bool × Option Error × Controller)
unfolding sync_named
sync_caffe2_job k key c = sync_named k key (k.split_key key) c

abbrev pub queued : QueueOp → Controller → Controller
queued op c = record c { queue = op ∷ c.queue }

-- What `processNextWorkItem` does with the result, the deferred `Done` last.
requeue : String → Bool × Option Error × Controller → Controller
requeue key (drop, none, c) = queued (done key) (if drop then queued (forgot key) c else c)
requeue key (drop, some e, c) = queued (done key) (queued (added key) c)

-- `processNextWorkItem`: false where the queue shuts down.
unfoldable pub process_next_work_item : Cluster → Controller → Outcome (Bool × Controller)
unfolding requeue
process_next_work_item k c = elim (k.next_item c.queue) [
  | none ↦ returns (false, c)
  | some key ↦ sync_caffe2_job k key (queued (took key) c) >>= λ r. returns (true, requeue key r)
]

-- `runWorker`, for at most `fuel` items.
unfoldable pub run_worker : Cluster → ℕ → Controller → Outcome Controller
run_worker k zero c = returns c
run_worker k (suc fuel) c = elim (process_next_work_item k c) [
  | panics p ↦ panics p
  | returns (false, c') ↦ returns c'
  | returns (true, c') ↦ run_worker k fuel c'
]
