-- ===== src/Controller/Pods/Effects.antt =====
-- Which calls `reconcile_pods` makes.
use caffe2_operator.Controller.RefManager.Effects.{Made}
use caffe2_operator.Controller.Pods.Made.{
  Made-same, Made-trans, SameJob, SameJob-trans, IsWorker-same, increase_active-same,
  update_phase-same,
}
use caffe2_operator.Prelude.{
  ℕ, zero, suc, ◌+◌, ◌^◌, ◌≤◌, ◌<◌, String, ◌≡◌, refl, ap, inl, inr, Option, none, some, List, [],
  ◌∷◌, keep, arith,
}
use caffe2_operator.Prelude.Int.{ℤ, pos}
use caffe2_operator.Prelude.Decimal.{itoa}
use caffe2_operator.Go.{
  Error, ok, Ends, Ends-bind, Ends-then, Ends-deref, Ends-map, deref, Runs, Runs-Ends,
}
use caffe2_operator.Kube.{Pod}
use caffe2_operator.Api.Types.{Caffe2ReplicaSpec, Caffe2Job}
use caffe2_operator.Controller.Cluster.{Call, create_pod, record_event, World, Cluster}
use caffe2_operator.Controller.Slices.{filter_pods_for_caffe2_replica_type}
use caffe2_operator.Controller.Slices.Laws.{has_index, table, get_pod_slices-table}
use caffe2_operator.Controller.Status.{
  Stage, initialize_replica_statuses, update_phase, update_replica_statuses, increase_active,
  update_status,
}
use caffe2_operator.Controller.Status.Untouched.{status_steps-calls}
use caffe2_operator.Controller.Pods.Creation.{IsWorker, Creates, create_new_pod_calls}
use caffe2_operator.Controller.Pods.Ready.{Ready}
use caffe2_operator.Controller.Pods.Total.{reconcile_pods-Runs}
use caffe2_operator.Controller.Pods.{
  create_new_pod, after_creation, reconcile_slice, next, reconcile_slices, finish, reconcile_pods,
}

pub one_more : (i : ℕ) → i + 1 ≡ suc i
one_more i = omega arith

-- The creation of a worker for an index below `n` whose slice is empty, or an event.
pub data Creation (job : Caffe2Job) (job_key : String) (n : ℕ) (f : ℕ → List Pod) (c : Call)
    : Type 0 where
  worker :
      (i : ℕ) (pod : Pod)
      → i < n
      → f i ≡ []
      → IsWorker job job_key i pod
      → c ≡ create_pod job.meta.namespace pod
      → Creation job job_key n f c
  event :
      (type reason text : String) → c ≡ record_event type reason text → Creation job job_key n f c

module _ (k : Cluster) (job : Caffe2Job) (job_key : String) (n : ℕ) (f : ℕ → List Pod) where
  -- What a round that started in the world `w` leaves.
  unfoldable pub Round : World → Option Error × Stage → Type 0
  Round w x = SameJob job x.1.0 × Made (Creation job job_key n f) w x.1.1

  module _ (spec : Caffe2ReplicaSpec) (key : k.key_func job.meta ≡ ok job_key)
      (in_range : n < 2 ^ 63) where
    created-Made :
        (i : ℕ) (job' : Caffe2Job) (w : World) (r : Option Error × World)
        → i < n
        → f i ≡ []
        → SameJob job job'
        → Creates k job' job_key i w r
        → Made (Creation job job_key n f) w r.1
    unfolding Creates SameJob
    created-Made i job' w r lt e s (inl same) = Made-same _ w r.1 (ap (λ (v : World). v.calls) same)
    created-Made i job' w r lt e s (inr (pod, is, sub)) = record {
      calls =
          record_event sub.event_type sub.reason sub.text ∷ create_pod job'.meta.namespace pod ∷ [];
      made = sub.made;
      each = (
        event sub.event_type sub.reason sub.text refl,
        (worker i pod lt e (IsWorker-same job job' job_key i pod s is) (rw s.0 refl), tt),
      );
    }

    after_creation-Round :
        (job' : Caffe2Job) (w : World) (r : Option Error × World)
        → SameJob job job'
        → Made (Creation job job_key n f) w r.1
        → Ends (Round w) (after_creation k r job')
    unfolding after_creation Round
    after_creation-Round job' w (some e, w') s m = (s, m)
    after_creation-Round job' w (none, w') s m =
        Ends-then (SameJob job') (Round w) (increase_active job') _ (increase_active-same job')
          (λ job'' t. (SameJob-trans job job' job'' s t, m))

    pub meta_same : (job' : Caffe2Job) → SameJob job job' → job'.meta ≡ job.meta
    unfolding SameJob
    meta_same job' s = s.0

    pub reconcile_slice-Round :
        (i : ℕ) (pods : List Pod) (job' : Caffe2Job) (w : World)
        → i < n
        → f i ≡ pods
        → SameJob job job'
        → Ends (Round w) (reconcile_slice k spec i pods (job', w))
    unfolding reconcile_slice Round update_replica_statuses
    reconcile_slice-Round i [] job' w lt e s =
        Ends-then (Creates k job' job_key i w) (Round w)
          (create_new_pod k job' "worker" (itoa i) spec w) _
          (create_new_pod_calls k job' job_key i (omega arith) spec w (rw (meta_same job' s) key))
          (λ r c. after_creation-Round job' w r s (created-Made i job' w r lt e s c))
    reconcile_slice-Round i (pod ∷ []) job' w lt e s =
        Ends-then (SameJob job') (Round w) (update_phase pod.phase job') _
          (update_phase-same pod.phase job')
          (λ job'' t. (SameJob-trans job job' job'' s t, Made-same _ w w refl))
    reconcile_slice-Round i (pod ∷ pod' ∷ pods) job' w lt e s = (s, Made-same _ w w refl)

    next-Round :
        (i : ℕ) (slices : List (List Pod)) (w : World) (x : Option Error × Stage)
        → Round w x
        → ((job' : Caffe2Job) (w' : World)
            → SameJob job job'
            → Ends (Round w') (reconcile_slices k spec i slices (job', w')))
        → Ends (Round w) (next k (reconcile_slices k spec i slices) x)
    unfolding next Round
    next-Round i slices w (some e, st) r rest = r
    next-Round i slices w (none, (job', w')) r rest =
        Ends-map (Round w') (Round w) (reconcile_slices k spec i slices (job', w'))
          (λ y q. (q.0, Made-trans _ w w' y.1.1 r.1 q.1)) (rest job' w' r.0)

    pub reconcile_slices-Round :
        (i count : ℕ) (job' : Caffe2Job) (w : World)
        → i + count ≤ n
        → SameJob job job'
        → Ends (Round w) (reconcile_slices k spec i (table i count f) (job', w))
    unfolding reconcile_slices
    reconcile_slices-Round i zero job' w le s = unfold Round in (s, Made-same _ w w refl)
    reconcile_slices-Round i (suc count) job' w le s =
        Ends-then (Round w) (Round w) (reconcile_slice k spec i (f i) (job', w))
          (next k (reconcile_slices k spec (i + 1) (table (suc i) count f)))
          (reconcile_slice-Round i (f i) job' w (omega arith) refl s)
          (λ x r. next-Round (i + 1) (table (suc i) count f) w x r (λ job'' w' t.
            rw (one_more i) (reconcile_slices-Round (suc i) count job'' w' (omega arith) t)))

    finish-Made :
        (replicas : ℤ) (w : World) (x : Option Error × Stage)
        → Round w x
        → Ends (λ y. Made (Creation job job_key n f) w y.1.1) (finish k replicas x)
    unfolding finish Round update_status
    finish-Made replicas w (some e, st) r = r.1
    finish-Made replicas w (none, (job', w')) r =
        Ends-bind (λ y. Made (Creation job job_key n f) w y.1.1)
          (deref job'.status.replica_statuses) _
          (λ s.
            Made-trans _ w w' _ r.1
              (Made-same _ w' _ (status_steps-calls k s replicas job'.meta.name (job', w'))))

module _ (k : Cluster) (pods : List Pod) where
  -- The worker pods of an index.
  abbrev pub workers_at : ℕ → List Pod
  workers_at i = keep (has_index i) (filter_pods_for_caffe2_replica_type k pods "worker")

module _ (k : Cluster) (job : Caffe2Job) (job_key : String) (pods : List Pod) (n : ℕ) where
  reconcile_pods-Made :
      (o : Option Caffe2ReplicaSpec) (spec : Caffe2ReplicaSpec) (w : World)
      → o ≡ some spec
      → k.key_func job.meta ≡ ok job_key
      → n < 2 ^ 63
      → spec.replicas ≡ some (pos n)
      → Ends
          (λ x. Made (Creation job job_key n (workers_at k pods)) w x.1.1)
          (reconcile_pods k job pods o w)
  unfolding reconcile_pods initialize_replica_statuses
  reconcile_pods-Made o spec w here key in_range h =
      Ends-deref (λ x. Made (Creation job job_key n (workers_at k pods)) w x.1.1) o spec _ here
        (Ends-deref (λ x. Made (Creation job job_key n (workers_at k pods)) w x.1.1) spec.replicas
          (pos n) _ h
          (rw get_pod_slices-table (
            Ends-then (Round k job job_key n (workers_at k pods) w)
              (λ x. Made (Creation job job_key n (workers_at k pods)) w x.1.1)
              (reconcile_slices k spec 0 (table 0 n (workers_at k pods))
                (initialize_replica_statuses job, w))
              (finish k (pos n))
              (reconcile_slices-Round k job job_key n (workers_at k pods) spec key in_range 0 n
                (initialize_replica_statuses job) w (omega arith) (unfold SameJob in (refl, refl)))
              (finish-Made k job job_key n (workers_at k pods) spec key in_range (pos n) w))))

-- On a job whose pointers are there, that has a key, and whose number of replicas is not negative and
-- below 2 ^ 63, `reconcilePods` returns, and each call that it has made is an event, or the creation in
-- the job's namespace of a worker pod of the job for an index below the number of replicas at which
-- there was no worker pod.
pub reconcile_pods_creates :
    (k : Cluster) (job : Caffe2Job) (job_key : String) (pods : List Pod) (ready : Ready job.spec)
    (w : World)
    → k.key_func job.meta ≡ ok job_key
    → ready.replicas < 2 ^ 63
    → Runs
        (λ x. Made (Creation job job_key ready.replicas (workers_at k pods)) w x.1.1)
        (reconcile_pods k job pods job.spec.replica_specs w)
reconcile_pods_creates k job job_key pods ready w key in_range =
    Runs-Ends (λ x. x.1.0.spec ≡ job.spec) _ (reconcile_pods k job pods job.spec.replica_specs w)
      (reconcile_pods-Runs k job pods w ready)
      (reconcile_pods-Made k job job_key pods ready.replicas job.spec.replica_specs ready.spec w
        ready.has_spec key in_range ready.has_replicas)
