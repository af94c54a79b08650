-- ===== src/Controller/System/Handlers.antt =====
-- What the informers and their handlers do to the cache and to the work queue.
use caffe2_operator.Controller.Events.Waking.{add_pod_only}
use text.Mathlib.TextPositions.{eq_refl}
use caffe2_operator.Prelude.Dict.{
  lookup-insert, insert-insert, lookup, Dict, insert, remove, lookup-remove,
}
use caffe2_operator.Prelude.{
  Option-cases, String, ◌≡◌, refl, ◌⊎◌, inl, inr, Bool, true, false, none, some, List, ◌∷◌,
  Bool-cases,
}
use caffe2_operator.Controller.Cluster.{World, QueueOp, added, Cluster}
use text.Mathlib.Text.{◌==◌}
use caffe2_operator.Go.{Runs, Result-cases}
use caffe2_operator.Kube.{ObjectMeta, Pod}
use caffe2_operator.Api.Types.{Caffe2Job}
use caffe2_operator.Controller.Pods.Ready.{Ready}
use caffe2_operator.Controller.Sync.{Controller}
use caffe2_operator.Controller.Sync.Total.{AllReady, insert-AllReady}
use caffe2_operator.Controller.Events.{
  pod_filter, object_at, write_object, enqueue_controller, add_caffe2_job, update_caffe2_job,
  add_pod, update_pod, delete_pod,
}
use caffe2_operator.Controller.Events.Laws.{Submittable, Ready-Submittable, add_caffe2_job-Written}
use caffe2_operator.Controller.System.{
  Event, job_cached, job_dropped, job_added, job_updated, job_deleted, pod_added, pod_updated,
  pod_deleted, worker_round, job_key, pod_changed, handle,
}

remove-AllReady :
    (key : String) (jobs : Dict Caffe2Job) → AllReady jobs → AllReady (remove key jobs)
remove-AllReady key jobs all asked job h = elim (Bool-cases (key == asked)) [
  | inl same ↦ absurd (no_job job (rw (lookup-remove, same) at h))
  | inr other ↦ all asked job (rw (lookup-remove, other) at h)
]
  where
    no_job : (job : Caffe2Job) → none ≡ some job → ⊥
    no_job job e = cc

-- At most one key is added to the queue, and the jobs of the cache have what is dereferenced.
pub record Informed (ops : List QueueOp) (c : Controller) : Type 0 where
  pub all_ready : AllReady c.jobs
  pub queue : (c.queue ≡ ops) ⊎ ((key : String) × (c.queue ≡ added key ∷ ops))

Informed-from :
    (ops ops' : List QueueOp) (c : Controller) → ops ≡ ops' → Informed ops c → Informed ops' c
Informed-from ops ops' c e h = rw e at h

-- Not a round of a worker.
abbrev pub IsInformed : Event → Type 0
IsInformed worker_round = ⊥
IsInformed _ = Unit

module _ (k : Cluster) where
  -- What a step may bring: into the cache, a job that has what the controller dereferences; to
  -- `addCaffe2Job`, a job with replica specs and a template, and without a negative number of replicas.
  abbrev pub Admissible : Event → Type 0
  Admissible (job_cached job) = Ready job.spec
  Admissible (job_added held job) = Submittable job.spec
  Admissible _ = Unit

  enqueue_controller-Informed :
      (meta : ObjectMeta) (c : Controller)
      → AllReady c.jobs
      → Informed c.queue (enqueue_controller k meta c)
  unfolding enqueue_controller
  enqueue_controller-Informed meta c all = elim (Result-cases (k.key_func meta)) [
    | inl (x, e) ↦ rw (e, enqueue_controller) (record { all_ready = all; queue = inl refl })
    | inr (key, e) ↦
        rw (e, enqueue_controller) (record { all_ready = all; queue = inr (key, refl) })
  ]

  add_pod-Informed :
      (pod : Pod) (c : Controller) → AllReady c.jobs → Informed c.queue (add_pod k pod c)
  add_pod-Informed pod c all = elim (add_pod_only k pod c) [
    | inl e ↦ rw e (record { all_ready = all; queue = inl refl })
    | inr (key, w, e) ↦ rw e (record { all_ready = all; queue = inr (key, refl) })
  ]

  pod_changed-Informed :
      (passed passes : Bool) (old cur : Pod) (c : Controller)
      → AllReady c.jobs
      → Informed c.queue (pod_changed k passed passes old cur c)
  unfolding pod_changed update_pod delete_pod
  pod_changed-Informed true true old cur c all = record { all_ready = all; queue = inl refl }
  pod_changed-Informed true false old cur c all = record { all_ready = all; queue = inl refl }
  pod_changed-Informed false true old cur c all = add_pod-Informed cur c all
  pod_changed-Informed false false old cur c all = record { all_ready = all; queue = inl refl }

  -- The object is in the cache, or is what the notification brought.
  object_at-Submittable :
      (held : Bool) (obj : Caffe2Job) (c : Controller)
      → Submittable obj.spec
      → AllReady c.jobs
      → Submittable (object_at held obj c).spec
  unfolding object_at
  object_at-Submittable false obj c u all = u
  object_at-Submittable true obj c u all = elim (Option-cases (lookup (job_key obj) c.jobs)) [
    | inl gone ↦ rw (gone, object_at) u
    | inr (job, h) ↦ rw (h, object_at) (Ready-Submittable job.spec (all (job_key obj) job h))
  ]

  write_object-Informed :
      (held : Bool) (obj job : Caffe2Job) (w : World) (c : Controller)
      → Ready job.spec
      → AllReady c.jobs
      → AllReady (write_object held obj (job, w) c).jobs
        × ((write_object held obj (job, w) c).queue ≡ c.queue)
  unfolding write_object
  write_object-Informed false obj job w c r all = (all, refl)
  write_object-Informed true obj job w c r all = elim (Option-cases (lookup (job_key obj) c.jobs)) [
    | inl gone ↦ rw (gone, write_object) (all, refl)
    | inr (old, h) ↦ rw (h, write_object) (insert-AllReady (job_key obj) job c.jobs r all, refl)
  ]

  written-queue :
      (obj job : Caffe2Job) (w : World) (c : Controller)
      → lookup (job_key obj) c.jobs ≡ some obj
      → (write_object true obj (job, w) c).queue ≡ c.queue
  unfolding write_object
  written-queue obj job w c there = rw (there, write_object) refl

  add_caffe2_job-Informed :
      (held : Bool) (obj : Caffe2Job) (c : Controller)
      → Submittable obj.spec
      → AllReady c.jobs
      → Runs (Informed c.queue) (add_caffe2_job k held obj c)
  add_caffe2_job-Informed held obj c u all =
      let (job, w, h, e) =
        add_caffe2_job-Written k held obj c (object_at held obj c) refl
          (object_at-Submittable held obj c u all) in
      let (all', q) = write_object-Informed held obj job w c h.defaulted.ready all in
      rw e (
        Informed-from _ _ _ q (
          enqueue_controller-Informed (object_at held obj c).meta (write_object held obj (job, w) c)
            all'))

  -- A job that has just come into the cache, and gets its defaults there.
  pub cached_and_added-Informed :
      (job : Caffe2Job) (c : Controller)
      → Submittable job.spec
      → AllReady c.jobs
      → Runs
          (Informed c.queue)
          (add_caffe2_job k true job (record c { jobs = insert (job_key job) job c.jobs }))
  unfolding object_at write_object
  cached_and_added-Informed job c u all =
      let c1 : Controller = record c { jobs = insert (job_key job) job c.jobs } in
      let there : lookup (job_key job) c1.jobs ≡ some job = rw (lookup-insert, eq_refl) refl in
      let (job', w, h, e) =
        add_caffe2_job-Written k true job c1 job (rw (there, object_at) refl) u in
      rw e (
        Informed-from _ _ _ (written-queue job job' w c1 there) (
          enqueue_controller-Informed job.meta (write_object true job (job', w) c1) (
            rw (there, write_object, insert-insert)
              (insert-AllReady (job_key job) job' c.jobs h.defaulted.ready all))))

  -- A step of the informers or of a handler, on what it may bring.
  pub handle-Informed :
      (e : Event) (c : Controller)
      → IsInformed e
      → Admissible e
      → AllReady c.jobs
      → Runs (Informed c.queue) (handle k e c)
  unfolding handle update_caffe2_job update_pod delete_pod
  handle-Informed (job_cached job) c i r all = record {
    all_ready = insert-AllReady (job_key job) job c.jobs r all;
    queue = inl refl;
  }
  handle-Informed (job_dropped job) c i u all = record {
    all_ready = remove-AllReady (job_key job) c.jobs all;
    queue = inl refl;
  }
  handle-Informed (job_added held job) c i u all = add_caffe2_job-Informed held job c u all
  handle-Informed (job_updated old cur) c i u all = enqueue_controller-Informed cur.meta c all
  handle-Informed (job_deleted job) c i u all = enqueue_controller-Informed job.meta c all
  handle-Informed (pod_added pod) c i u all = elim (Bool-cases (pod_filter pod)) [
    | inl e ↦ rw e (add_pod-Informed pod c all)
    | inr e ↦ rw e (record { all_ready = all; queue = inl refl })
  ]
  handle-Informed (pod_updated old cur) c i u all =
      pod_changed-Informed (pod_filter old) (pod_filter cur) old cur c all
  handle-Informed (pod_deleted pod) c i u all = elim (Bool-cases (pod_filter pod)) [
    | inl e ↦ rw e (record { all_ready = all; queue = inl refl })
    | inr e ↦ rw e (record { all_ready = all; queue = inl refl })
  ]
  handle-Informed worker_round c i u all = absurd i
