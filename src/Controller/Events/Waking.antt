-- ===== src/Controller/Events/Waking.antt =====
-- When `addPod` wakes a job.
use caffe2_operator.Go.{ok, Result-cases}
use caffe2_operator.Controller.Events.{
  enqueue_key, enqueue_controller, same_uid, resolve_controller_ref, add_resolved, add_controlled,
  add_pod,
}
use caffe2_operator.Controller.Cluster.{added, Cluster, QueueOp}
use caffe2_operator.Prelude.{
  ◌∙◌, sym, String, ◌≡◌, ◌⊎◌, inl, inr, true, none, some, Bool-cases, Option-cases, arith, ap,
  length,
}
use caffe2_operator.Api.Types.{Caffe2Job, caffe2_job_resource_kind}
use text.Mathlib.Text.{◌==◌}
use text.Mathlib.TextPositions.{eq_refl}
use text.Mathlib.TextEquality.{eq_iff}
use caffe2_operator.Kube.{OwnerReference, Pod, get_label}
use caffe2_operator.Controller.RefManager.{is_some}
use caffe2_operator.Controller.Labels.{caffe2_replica_type_label}
use caffe2_operator.Controller.Sync.{Controller, lister_get, queued}

module _ (k : Cluster) (pod : Pod) (c : Controller) where
  -- A pod that wakes its job: not being deleted, of a replica type, and controlled by a job of the
  -- cache that has the UID of the reference.
  pub record Wakes (job_key : String) : Type 0 where
    pub ref : OwnerReference
    pub job : Caffe2Job
    pub live : pod.meta.deletion_timestamp ≡ none
    pub replica : is_some (get_label caffe2_replica_type_label pod.meta.labels) ≡ true
    pub controlled : k.controller_of pod.meta.owner_references ≡ some ref
    pub of_kind : ref.kind ≡ caffe2_job_resource_kind
    pub cached : lister_get c.jobs pod.meta.namespace ref.name ≡ ok job
    pub same_uid_ : job.meta.uid ≡ ref.uid
    pub key : k.key_func job.meta ≡ ok job_key

  -- `addPod` adds the key of the job to the queue where the pod wakes a job.
  pub add_pod-Wakes :
      (job_key : String) → Wakes job_key → add_pod k pod c ≡ queued (added job_key) c
  unfolding add_pod add_controlled add_resolved resolve_controller_ref same_uid enqueue_controller
      enqueue_key
  add_pod-Wakes job_key h = ground (
    arith,
    h.live,
    h.replica,
    h.controlled,
    h.of_kind,
    h.cached,
    h.same_uid_,
    h.key,
    eq_refl caffe2_job_resource_kind,
    eq_iff h.ref.kind caffe2_job_resource_kind,
    eq_iff h.job.meta.uid h.ref.uid,
  )

  -- `addPod` leaves the controller as it was, or the pod wakes a job and its key is added to the queue.
  pub add_pod_only :
      (add_pod k pod c ≡ c)
      ⊎ ((job_key : String) × Wakes job_key × (add_pod k pod c ≡ queued (added job_key) c))
  unfolding add_pod add_controlled add_resolved resolve_controller_ref same_uid enqueue_controller
      enqueue_key
  add_pod_only = elim (Option-cases pod.meta.deletion_timestamp) [
    | inr (t, e) ↦ inl (ground arith)
    | inl live ↦ elim (Option-cases (k.controller_of pod.meta.owner_references)) [
      | inl e ↦ inl (ground arith)
      | inr (ref, controlled) ↦ elim (Bool-cases (ref.kind == caffe2_job_resource_kind)) [
        | inr e ↦ inl (ground arith)
        | inl of_kind ↦ elim (Result-cases (lister_get c.jobs pod.meta.namespace ref.name)) [
          | inl (x, e) ↦ inl (ground arith)
          | inr (job, cached) ↦ elim (Bool-cases (job.meta.uid == ref.uid)) [
            | inr e ↦ inl (ground arith)
            | inl same ↦
                elim (Bool-cases (is_some (get_label caffe2_replica_type_label pod.meta.labels))) [
                  | inr e ↦ inl (ground arith)
                  | inl replica ↦ elim (Result-cases (k.key_func job.meta)) [
                    | inl (x, e) ↦ inl (ground arith)
                    | inr (job_key, key) ↦
                        let h : Wakes job_key = record {
                          ref = ref;
                          job = job;
                          live = live;
                          replica = replica;
                          controlled = controlled;
                          of_kind = (eq_iff ref.kind caffe2_job_resource_kind).0 of_kind;
                          cached = cached;
                          same_uid_ = (eq_iff job.meta.uid ref.uid).0 same;
                          key = key;
                        } in
                        inr (job_key, h, add_pod-Wakes job_key h)
                  ]
                ]
          ]
        ]
      ]
    ]
  ]

queued_ne : (op : QueueOp) (c : Controller) → ¬ (c ≡ queued op c)
queued_ne op c e = omega (arith, ap (λ (d : Controller). length d.queue) e)

-- Exactly where the pod is live, of a replica type, and controlled by a job of the cache that has the
-- UID of its reference and has a key, `addPod` adds that key to the queue; else it changes nothing.
pub add_pod_exactly :
    (k : Cluster) (pod : Pod) (c : Controller)
    → ((add_pod k pod c ≡ c) × ((job_key : String) → ¬ Wakes k pod c job_key))
      ⊎ ((job_key : String) × Wakes k pod c job_key × (add_pod k pod c ≡ queued (added job_key) c))
add_pod_exactly k pod c = elim (add_pod_only k pod c) [
  | inr w ↦ inr w
  | inl same ↦
      inl (
        same,
        λ job_key w. queued_ne (added job_key) c (sym same ∙ add_pod-Wakes k pod c job_key w),
      )
]
