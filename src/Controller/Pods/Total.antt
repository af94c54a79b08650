-- ===== src/Controller/Pods/Total.antt =====
-- Reconciling the pods of a job does not panic.
use caffe2_operator.Controller.Pods.Ready.{Ready, Anything, create_new_pod-Runs}
use caffe2_operator.Controller.Status.{
  counts, Stage, initialize_replica_statuses, update_phase, update_replica_statuses,
  increase_active, update_status,
}
use caffe2_operator.Prelude.{
  ℕ, ◌+◌, String, ◌≡◌, refl, Option, none, some, List, [], ◌∷◌, inl, inr, Bool-cases,
}
use caffe2_operator.Prelude.Int.{pos}
use caffe2_operator.Prelude.Decimal.{itoa}
use caffe2_operator.Go.{Error, Runs, Runs-then, Runs-deref}
use caffe2_operator.Kube.{PodPhase, Pod}
use caffe2_operator.Api.Types.{Caffe2ReplicaStatus, Caffe2JobSpec, Caffe2Job}
use caffe2_operator.Controller.Cluster.{World, Cluster}
use caffe2_operator.Controller.Slices.{get_pod_slices, filter_pods_for_caffe2_replica_type}
use caffe2_operator.Controller.Status.Untouched.{status_steps-spec}
use caffe2_operator.Controller.Pods.{
  create_new_pod, after_creation, reconcile_slice, next, reconcile_slices, finish, reconcile_pods,
}

-- A job in memory with the spec `s`, and with replica statuses.
record Live (s : Caffe2JobSpec) (job : Caffe2Job) : Type 0 where
  same_spec : job.spec ≡ s
  statuses : Caffe2ReplicaStatus
  has_statuses : job.status.replica_statuses ≡ some statuses

module _ (s : Caffe2JobSpec) where
  LiveEnd : Option Error × Stage → Type 0
  LiveEnd x = Live s x.1.0

  increase_active-Runs : (job : Caffe2Job) → Live s job → Runs (Live s) (increase_active job)
  unfolding increase_active
  increase_active-Runs job l =
      Runs-deref (Live s) job.status.replica_statuses l.statuses _ l.has_statuses
        (record { same_spec = l.same_spec; statuses = _; has_statuses = refl })

  update_phase-Runs :
      (phase : PodPhase) (job : Caffe2Job) → Live s job → Runs (Live s) (update_phase phase job)
  unfolding update_phase
  update_phase-Runs phase job l = elim (Bool-cases (counts phase)) [
    | inl counted ↦
        rw (counted, update_phase)
          (Runs-deref (Live s) job.status.replica_statuses l.statuses _ l.has_statuses
            (record { same_spec = l.same_spec; statuses = _; has_statuses = refl }))
    | inr other ↦ rw (other, update_phase) l
  ]

  module _ (k : Cluster) (ready : Ready s) where
    after_creation-Runs :
        (x : Option Error × World) (job : Caffe2Job)
        → Live s job
        → Runs LiveEnd (after_creation k x job)
    unfolding after_creation LiveEnd
    after_creation-Runs (some e, w) job l = l
    after_creation-Runs (none, w) job l =
        Runs-then (Live s) LiveEnd (increase_active job) _ (increase_active-Runs job l)
          (λ job' l'. l')

    new_pod-Runs :
        (index : String) (job : Caffe2Job) (w : World)
        → Live s job
        → Runs Anything (create_new_pod k job "worker" index ready.spec w)
    new_pod-Runs index job w l =
        create_new_pod-Runs job
          (record {
            spec = ready.spec;
            replicas = ready.replicas;
            template = ready.template;
            backend = ready.backend;
            has_spec = rw l.same_spec ready.has_spec;
            has_replicas = ready.has_replicas;
            has_template = ready.has_template;
            has_backend = rw l.same_spec ready.has_backend;
          })
          k "worker" index w

    reconcile_slice-Runs :
        (i : ℕ) (pods : List Pod) (job : Caffe2Job) (w : World)
        → Live s job
        → Runs LiveEnd (reconcile_slice k ready.spec i pods (job, w))
    unfolding reconcile_slice
    reconcile_slice-Runs i [] job w l =
        Runs-then Anything LiveEnd (create_new_pod k job "worker" (itoa i) ready.spec w) _
          (new_pod-Runs (itoa i) job w l) (λ x h. after_creation-Runs x job l)
    reconcile_slice-Runs i (pod ∷ []) job w l =
        unfold update_replica_statuses LiveEnd in
        Runs-then (Live s) LiveEnd (update_phase pod.phase job) _
          (update_phase-Runs pod.phase job l) (λ job' l'. l')
    reconcile_slice-Runs i (pod ∷ pod' ∷ pods) job w l = unfold LiveEnd in l

    next-Runs :
        (i : ℕ) (slices : List (List Pod)) (x : Option Error × Stage)
        → LiveEnd x
        → ((job : Caffe2Job) (w : World)
            → Live s job
            → Runs LiveEnd (reconcile_slices k ready.spec i slices (job, w)))
        → Runs LiveEnd (next k (reconcile_slices k ready.spec i slices) x)
    unfolding next LiveEnd
    next-Runs i slices (some e, st) h rest = h
    next-Runs i slices (none, (job', w')) h rest = rest job' w' h

    reconcile_slices-Runs :
        (i : ℕ) (slices : List (List Pod)) (job : Caffe2Job) (w : World)
        → Live s job
        → Runs LiveEnd (reconcile_slices k ready.spec i slices (job, w))
    unfolding reconcile_slices
    reconcile_slices-Runs i [] job w l = unfold LiveEnd in l
    reconcile_slices-Runs i (pods ∷ slices) job w l =
        Runs-then LiveEnd LiveEnd (reconcile_slice k ready.spec i pods (job, w)) _
          (reconcile_slice-Runs i pods job w l)
          (λ x h. next-Runs (i + 1) slices x h (reconcile_slices-Runs (i + 1) slices))

    SameSpec : Option Error × Stage → Type 0
    SameSpec x = x.1.0.spec ≡ s

    finish-Runs :
        (x : Option Error × Stage) → LiveEnd x → Runs SameSpec (finish k (pos ready.replicas) x)
    unfolding finish SameSpec LiveEnd update_status
    finish-Runs (some e, st) h = h.same_spec
    finish-Runs (none, (job, w)) h =
        Runs-deref SameSpec job.status.replica_statuses h.statuses _ h.has_statuses
          (rw status_steps-spec h.same_spec)

-- On a job whose pointers are there and whose number of replicas is not negative, `reconcilePods`
-- returns, whatever the pods and the answers of the API server are, and it leaves the job's spec.
pub reconcile_pods-Runs :
    (k : Cluster) (job : Caffe2Job) (pods : List Pod) (w : World)
    → Ready job.spec
    → Runs (λ x. x.1.0.spec ≡ job.spec) (reconcile_pods k job pods job.spec.replica_specs w)
unfolding reconcile_pods SameSpec initialize_replica_statuses
reconcile_pods-Runs k job pods w ready =
    Runs-deref (SameSpec job.spec k ready) job.spec.replica_specs ready.spec _ ready.has_spec (
      Runs-deref (SameSpec job.spec k ready) ready.spec.replicas (pos ready.replicas) _
        ready.has_replicas
        (Runs-then Anything (SameSpec job.spec k ready)
          (get_pod_slices (filter_pods_for_caffe2_replica_type k pods "worker")
            (pos ready.replicas))
          _ (unfold get_pod_slices Anything in tt)
          (λ slices h.
            Runs-then (LiveEnd job.spec) (SameSpec job.spec k ready)
              (reconcile_slices k ready.spec 0 slices (initialize_replica_statuses job, w))
              (finish k (pos ready.replicas))
              (reconcile_slices-Runs job.spec k ready 0 slices (initialize_replica_statuses job) w
                (record { same_spec = refl; statuses = _; has_statuses = refl }))
              (finish-Runs job.spec k ready))))
