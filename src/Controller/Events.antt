-- ===== src/Controller/Events.antt =====
-- The event handlers that `New` registers: `addCaffe2Job`, `updateCaffe2Job`, `enqueueController` and
-- `resolveControllerRef` of pkg/controller/controller.go, and `addPod`, `updatePod` and `deletePod` of
-- controller_pod.go, with the two filters of `New`.
pub mod Laws
pub mod Waking
use caffe2_operator.Prelude.{
  suc, String, Bool, true, false, not, ◌&&◌, Option, none, some, ◌∷◌, if◌then◌else◌,
}
use caffe2_operator.Prelude.Dict.{lookup, insert}
use caffe2_operator.Prelude.Int.{ℤ}
use caffe2_operator.Prelude.Text.{◌<>◌, is_empty}
use text.Mathlib.Text.{◌==◌}
use caffe2_operator.Go.{Error, Result, ok, err, Outcome, returns, panics, ◌>>=◌}
use caffe2_operator.Kube.{OwnerReference, ObjectMeta, PodPhase, Pod, get_label}
use caffe2_operator.Api.Types.{Caffe2Job, caffe2_job_created, caffe2_job_resource_kind}
use caffe2_operator.Api.Defaults.{set_object_defaults}
use caffe2_operator.Controller.Cluster.{added, World, Cluster, now}
use caffe2_operator.Controller.RefManager.{is_some}
use caffe2_operator.Controller.Labels.{caffe2_replica_type_label}
use caffe2_operator.Controller.Status.{Stage, update_conditions, caffe2_job_created_reason}
use caffe2_operator.Controller.Sync.{Controller, store_key, lister_get, queued}

-- The phases that the filter of the pod informer lets through.
started : PodPhase → Bool
started PodPhase.running = true
started PodPhase.succeeded = true
started PodPhase.failed = true
started _ = false

-- The `FilterFunc` of the pod informer.
unfoldable pub pod_filter : Pod → Bool
unfolding started
pod_filter pod = is_some (get_label "caffe2_job_key" pod.meta.labels) && started pod.phase

-- A pointer to a job: to the object that the informer's cache holds under the key, where `held`, and
-- otherwise to one that has left the cache since.
unfoldable pub object_at : (held : Bool) → Caffe2Job → Controller → Caffe2Job
object_at false job c = job
object_at true job c = elim (lookup (store_key job.meta.namespace job.meta.name) c.jobs) [
  | none ↦ job
  | some cached ↦ cached
]

-- What a handler writes to the object is seen in the cache where the cache holds it.
unfoldable pub write_object : (held : Bool) → Caffe2Job → Stage → Controller → Controller
write_object false obj (job, w) c = record c { world = w }
write_object true obj (job, w) c =
    elim (lookup (store_key obj.meta.namespace obj.meta.name) c.jobs) [
      | none ↦ record c { world = w }
      | some cached ↦ record c {
        world = w;
        jobs = insert (store_key obj.meta.namespace obj.meta.name) job c.jobs;
      }
    ]

module _ (k : Cluster) where
  enqueue_key : Result String → Controller → Controller
  enqueue_key (err e) c = c
  enqueue_key (ok key) c = queued (added key) c

  -- `enqueueController`, and with it `updateCaffe2Job`, which enqueues the new object.
  unfoldable pub enqueue_controller : ObjectMeta → Controller → Controller
  unfolding enqueue_key
  enqueue_controller meta c = enqueue_key (k.key_func meta) c

  -- The time that the defaults read: the clock is read only for an empty runtime id.
  default_time : Caffe2Job → World → ℤ × World
  default_time job w =
      let (t, w') = now k w in
      if is_empty job.spec.runtime_id then (k.unix t, w') else (k.unix t, w)

  -- `addCaffe2Job` on the object that the pointer denotes; the defaults and the condition are written
  -- to it.
  unfoldable pub add_caffe2_job : Bool → Caffe2Job → Controller → Outcome Controller
  unfolding default_time enqueue_controller write_object object_at
  add_caffe2_job held obj c =
      let job = object_at held obj c in
      let (t, w) = default_time job c.world in
      set_object_defaults t job >>= λ job'.
      let (e, st) =
        update_conditions k caffe2_job_created caffe2_job_created_reason
          ("Caffe2Job " <> job.meta.name <> " is created.") (job', w) in
      let c' = write_object held obj st c in
      returns (elim e [ some e' ↦ c' | none ↦ enqueue_controller job.meta c' ])

  -- `updateCaffe2Job`
  unfoldable pub update_caffe2_job : (old cur : Caffe2Job) → Controller → Controller
  unfolding enqueue_controller
  update_caffe2_job old cur c = enqueue_controller cur.meta c

  same_uid : OwnerReference → Result Caffe2Job → Option Caffe2Job
  same_uid ref (err e) = none
  same_uid ref (ok job) = if not (job.meta.uid == ref.uid) then none else some job

  -- `resolveControllerRef`
  unfoldable pub resolve_controller_ref : String → OwnerReference → Controller → Option Caffe2Job
  unfolding same_uid lister_get
  resolve_controller_ref namespace ref c =
      if not (ref.kind == caffe2_job_resource_kind)
      then none
      else same_uid ref (lister_get c.jobs namespace ref.name)

  add_resolved : Pod → Option Caffe2Job → Controller → Controller
  unfolding enqueue_controller
  add_resolved pod none c = c
  add_resolved pod (some job) c =
      if is_some (get_label caffe2_replica_type_label pod.meta.labels)
      then enqueue_controller job.meta c
      else c

  add_controlled : Pod → Option OwnerReference → Controller → Controller
  unfolding add_resolved resolve_controller_ref
  add_controlled pod none c = c
  add_controlled pod (some ref) c =
      add_resolved pod (resolve_controller_ref pod.meta.namespace ref c) c

  -- `addPod`
  unfoldable pub add_pod : Pod → Controller → Controller
  unfolding add_controlled
  add_pod pod c =
      if is_some pod.meta.deletion_timestamp
      then c
      else add_controlled pod (k.controller_of pod.meta.owner_references) c

  -- `updatePod` and `deletePod` do nothing.
  unfoldable pub update_pod : (old cur : Pod) → Controller → Controller
  update_pod old cur c = c

  unfoldable pub delete_pod : Pod → Controller → Controller
  delete_pod pod c = c
