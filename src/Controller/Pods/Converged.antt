-- ===== src/Controller/Pods/Converged.antt =====
-- Reconciling a job that has its pods leaves the cluster alone.
use caffe2_operator.Prelude.{
  ℕ, zero, suc, ◌+◌, ◌≤◌, ◌<◌, ◌≡◌, refl, ap, ◌∙◌, Option, none, some, List, [], ◌∷◌, arith,
}
use caffe2_operator.Prelude.Int.{ℤ, pos}
use caffe2_operator.Go.{Error, deref, Ends, Ends-bind, Ends-then, Ends-deref, Runs, Runs-Ends}
use caffe2_operator.Kube.{Pod}
use caffe2_operator.Api.Types.{Caffe2ReplicaSpec, Caffe2Job}
use caffe2_operator.Controller.Cluster.{World, Cluster}
use caffe2_operator.Controller.Slices.Laws.{table, get_pod_slices-table}
use caffe2_operator.Controller.Status.{
  Stage, initialize_replica_statuses, update_phase, update_replica_statuses, update_status,
}
use caffe2_operator.Controller.Status.Untouched.{status_steps-calls}
use caffe2_operator.Controller.Pods.Effects.{workers_at}
use caffe2_operator.Controller.Pods.Ready.{Ready}
use caffe2_operator.Controller.Pods.Total.{reconcile_pods-Runs}
use caffe2_operator.Controller.Pods.{
  reconcile_slice, next, reconcile_slices, finish, reconcile_pods,
}

-- There is a pod in the list.
abbrev pub Occupied : List Pod → Type 0
Occupied pods = (pod : Pod) × (rest : List Pod) × (pods ≡ pod ∷ rest)

still_one_more : (i : ℕ) → i + 1 ≡ suc i
still_one_more i = omega arith

-- The world is the one that it was.
Still : World → Option Error × Stage → Type 0
Still w x = x.1.1 ≡ w

module _ (k : Cluster) (spec : Caffe2ReplicaSpec) where
  reconcile_slice-Still :
      (i : ℕ) (pod : Pod) (pods : List Pod) (job : Caffe2Job) (w : World)
      → Ends (Still w) (reconcile_slice k spec i (pod ∷ pods) (job, w))
  unfolding reconcile_slice Still update_replica_statuses
  reconcile_slice-Still i pod [] job w =
      Ends-bind (Still w) (update_phase pod.phase job) _ (λ job'. refl)
  reconcile_slice-Still i pod (pod' ∷ pods) job w = refl

  next-Still :
      (i : ℕ) (slices : List (List Pod)) (w : World) (x : Option Error × Stage)
      → Still w x
      → ((job : Caffe2Job) → Ends (Still w) (reconcile_slices k spec i slices (job, w)))
      → Ends (Still w) (next k (reconcile_slices k spec i slices) x)
  unfolding next Still
  next-Still i slices w (some e, st) h rest = h
  next-Still i slices w (none, (job, w')) h rest = rw h (rest job)

  reconcile_slices-Still :
      (i count n : ℕ) (f : ℕ → List Pod) (job : Caffe2Job) (w : World)
      → i + count ≤ n
      → ((j : ℕ) → j < n → Occupied (f j))
      → Ends (Still w) (reconcile_slices k spec i (table i count f) (job, w))
  unfolding reconcile_slices
  reconcile_slices-Still i zero n f job w le full = unfold Still in refl
  reconcile_slices-Still i (suc count) n f job w le full =
      let (pod, pods, e) = full i (omega arith) in
      Ends-then (Still w) (Still w) (reconcile_slice k spec i (f i) (job, w))
        (next k (reconcile_slices k spec (i + 1) (table (suc i) count f)))
        (rw e (reconcile_slice-Still i pod pods job w))
        (λ x h. next-Still (i + 1) (table (suc i) count f) w x h (λ job'.
          rw (still_one_more i)
            (reconcile_slices-Still (suc i) count n f job' w (omega arith) full)))

  finish-Still :
      (replicas : ℤ) (w : World) (x : Option Error × Stage)
      → Still w x
      → Ends (λ y. y.1.1.calls ≡ w.calls) (finish k replicas x)
  unfolding finish Still update_status
  finish-Still replicas w (some e, st) h = ap (λ (v : World). v.calls) h
  finish-Still replicas w (none, (job, w')) h =
      Ends-bind (λ y. y.1.1.calls ≡ w.calls) (deref job.status.replica_statuses) _
        (λ s.
          status_steps-calls k s replicas job.meta.name (job, w') ∙ ap (λ (v : World). v.calls) h)

reconcile_pods-Still :
    (k : Cluster) (job : Caffe2Job) (pods : List Pod) (o : Option Caffe2ReplicaSpec)
    (spec : Caffe2ReplicaSpec) (n : ℕ) (w : World)
    → o ≡ some spec
    → spec.replicas ≡ some (pos n)
    → ((i : ℕ) → i < n → Occupied (workers_at k pods i))
    → Ends (λ y. y.1.1.calls ≡ w.calls) (reconcile_pods k job pods o w)
unfolding reconcile_pods
reconcile_pods-Still k job pods o spec n w here h full =
    Ends-deref (λ y. y.1.1.calls ≡ w.calls) o spec _ here
      (Ends-deref (λ y. y.1.1.calls ≡ w.calls) spec.replicas (pos n) _ h
        (rw get_pod_slices-table (
          Ends-then (Still w) (λ y. y.1.1.calls ≡ w.calls)
            (reconcile_slices k spec 0 (table 0 n (workers_at k pods))
              (initialize_replica_statuses job, w))
            (finish k (pos n))
            (reconcile_slices-Still k spec 0 n n (workers_at k pods)
              (initialize_replica_statuses job) w (omega arith) full)
            (finish-Still k spec (pos n) w))))

-- On a job whose pointers are there and whose number of replicas is not negative, and which has a
-- worker pod at every index, whatever its phase, `reconcilePods` returns and makes no call.
pub reconcile_pods_converged :
    (k : Cluster) (job : Caffe2Job) (pods : List Pod) (ready : Ready job.spec) (w : World)
    → ((i : ℕ) → i < ready.replicas → Occupied (workers_at k pods i))
    → Runs (λ x. x.1.1.calls ≡ w.calls) (reconcile_pods k job pods job.spec.replica_specs w)
reconcile_pods_converged k job pods ready w full =
    Runs-Ends (λ x. x.1.0.spec ≡ job.spec) _ (reconcile_pods k job pods job.spec.replica_specs w)
      (reconcile_pods-Runs k job pods w ready)
      (reconcile_pods-Still k job pods job.spec.replica_specs ready.spec ready.replicas w
        ready.has_spec ready.has_replicas full)
