-- ===== src/Controller/Pods/Filled.antt =====
-- A reconciliation without an error has asked for every missing pod.
use caffe2_operator.Controller.Pods.Made.{Made-same, SameJob, IsWorker-same}
use caffe2_operator.Controller.Cluster.{record_event, create_pod, World, Cluster}
use mathlib.Core.List.{Memᴰ}
use native.Mathlib.Decide.{ℕ_discrete}
use caffe2_operator.Prelude.{
  ℕ, zero, suc, ◌+◌, ◌^◌, ◌≤◌, ◌<◌, String, ◌≡◌, refl, sym, inl, inr, Option, none, some, List, [],
  ◌∷◌, arith,
}
use caffe2_operator.Prelude.Int.{ℤ, pos}
use caffe2_operator.Prelude.Decimal.{itoa}
use caffe2_operator.Go.{
  Error, ok, returns, deref, Ends, Ends-bind, Ends-then, Ends-deref, Ends-map, Ends-both, Ends-all,
  Ends-at,
}
use caffe2_operator.Kube.{Pod}
use caffe2_operator.Api.Types.{Caffe2ReplicaSpec, Caffe2Job}
use caffe2_operator.Controller.Pods.Effects.{
  Creation, Round, workers_at, one_more, meta_same, reconcile_slice-Round, reconcile_slices-Round,
}
use caffe2_operator.Controller.Slices.Laws.{table, get_pod_slices-table}
use caffe2_operator.Controller.Status.{
  Stage, initialize_replica_statuses, increase_active, update_status,
}
use caffe2_operator.Controller.Status.Untouched.{status_steps-calls}
use caffe2_operator.Controller.Pods.Ready.{Ready}
use caffe2_operator.Controller.Pods.Creation.{Fills}
use caffe2_operator.Controller.Pods.{
  create_new_pod, after_creation, reconcile_slice, next, reconcile_slices, finish, reconcile_pods,
}
use caffe2_operator.Controller.Pods.Requests.{
  create_new_pod-Fills, Requested, Requested-later, Requested-earlier,
}

module _ (k : Cluster) (job : Caffe2Job) (job_key : String) (n : ℕ) (f : ℕ → List Pod) where
  -- What a round that returns nil has asked for, for the indexes from `i` on.
  Filled : World → ℕ → ℕ → Option Error × Stage → Type 0
  Filled w i count x =
      x.0 ≡ none → (j : ℕ) → i ≤ j → j < i + count → f j ≡ [] → Requested job job_key w j x.1.1

  module _ (spec : Caffe2ReplicaSpec) (key : k.key_func job.meta ≡ ok job_key)
      (bound : n < 2 ^ 31) where
    requested :
        (i : ℕ) (job' : Caffe2Job) (w : World) (r : Option Error × World)
        → SameJob job job'
        → Fills k job' job_key i w r
        → r.0 ≡ none
        → Requested job job_key w i r.1
    unfolding Fills SameJob
    requested i job' w r s (inl (e, h)) ok_ = absurd (cc (h, ok_))
    requested i job' w r s (inr (pod, is, sub)) ok_ = record {
      pod = pod;
      worker = IsWorker-same job job' job_key i pod s is;
      calls =
          record_event sub.event_type sub.reason sub.text ∷ create_pod job'.meta.namespace pod ∷ [];
      made = sub.made;
      sent = Memᴰ.tail (Memᴰ.head (rw s.0 refl));
    }

    SliceFilled : World → ℕ → Option Error × Stage → Type 0
    SliceFilled w i x = x.0 ≡ none → f i ≡ [] → Requested job job_key w i x.1.1

    after_creation-Filled :
        (w₀ : World) (i : ℕ) (job' : Caffe2Job) (r : Option Error × World)
        → (r.0 ≡ none → Requested job job_key w₀ i r.1)
        → Ends (SliceFilled w₀ i) (after_creation k r job')
    unfolding after_creation SliceFilled
    after_creation-Filled w₀ i job' (some e, w) h = λ x y. absurd (cc x)
    after_creation-Filled w₀ i job' (none, w) h =
        Ends-bind (SliceFilled w₀ i) (increase_active job') _ (λ job'' x y. h refl)

    reconcile_slice-Filled :
        (i : ℕ) (pods : List Pod) (job' : Caffe2Job) (w : World)
        → i < n
        → f i ≡ pods
        → SameJob job job'
        → Ends (SliceFilled w i) (reconcile_slice k spec i pods (job', w))
    unfolding reconcile_slice
    reconcile_slice-Filled i [] job' w lt e s =
        Ends-then (Fills k job' job_key i w) (SliceFilled w i)
          (create_new_pod k job' "worker" (itoa i) spec w) _
          (create_new_pod-Fills k job' job_key i (omega arith) spec w
            (rw (meta_same k job job_key n f spec key (omega arith) job' s) key))
          (λ r c. after_creation-Filled w i job' r (requested i job' w r s c))
    reconcile_slice-Filled i (pod ∷ pods) job' w lt e s =
        Ends-all (SliceFilled w i) (reconcile_slice k spec i (pod ∷ pods) (job', w))
          (λ x. unfold SliceFilled in λ y empty. absurd (cc (e, empty)))

    next-Filled :
        (i count : ℕ) (slices : List (List Pod)) (w : World) (x : Option Error × Stage)
        → Round k job job_key n f w x × SliceFilled w i x
        → ((job' : Caffe2Job) (w' : World)
            → SameJob job job'
            → Ends
                (λ y. Round k job job_key n f w' y × Filled w' (suc i) count y)
                (reconcile_slices k spec (suc i) slices (job', w')))
        → Ends (Filled w i (suc count)) (next k (reconcile_slices k spec (suc i) slices) x)
    unfolding next Filled SliceFilled Round
    next-Filled i count slices w (some e, st) h rest = λ x j lo hi. absurd (cc x)
    next-Filled i count slices w (none, (job', w')) (r, s) rest =
        Ends-map (λ y. Round k job job_key n f w' y × Filled w' (suc i) count y)
          (Filled w i (suc count)) (reconcile_slices k spec (suc i) slices (job', w'))
          (λ y (q, g) done j lo hi empty. elim (ℕ_discrete i j) [
            | yes same ↦ rw (sym same) (
                Requested-later job job_key (Creation job job_key n f) w i w' y.1.1 q.1
                  (s refl (rw same empty)))
            | no other ↦
                Requested-earlier job job_key (Creation job job_key n f) w w' j y.1.1 r.1
                  (g done j (omega arith) (omega arith) empty)
          ])
          (rest job' w' r.0)

    reconcile_slices-Filled :
        (i count : ℕ) (job' : Caffe2Job) (w : World)
        → i + count ≤ n
        → SameJob job job'
        → Ends (Filled w i count) (reconcile_slices k spec i (table i count f) (job', w))
    unfolding reconcile_slices
    reconcile_slices-Filled i zero job' w le s =
        unfold Filled in λ done j lo hi. absurd (omega arith)
    reconcile_slices-Filled i (suc count) job' w le s = rw (one_more i) (
        Ends-then (λ x. Round k job job_key n f w x × SliceFilled w i x) (Filled w i (suc count))
          (reconcile_slice k spec i (f i) (job', w))
          (next k (reconcile_slices k spec (suc i) (table (suc i) count f)))
          (Ends-both (Round k job job_key n f w) (SliceFilled w i)
            (reconcile_slice k spec i (f i) (job', w))
            (reconcile_slice-Round k job job_key n f spec key (omega arith) i (f i) job' w
              (omega arith) refl s)
            (reconcile_slice-Filled i (f i) job' w (omega arith) refl s))
          (λ x h. next-Filled i count (table (suc i) count f) w x h (λ job'' w' t.
            Ends-both (Round k job job_key n f w') (Filled w' (suc i) count)
              (reconcile_slices k spec (suc i) (table (suc i) count f) (job'', w'))
              (reconcile_slices-Round k job job_key n f spec key (omega arith) (suc i) count job''
                w' (omega arith) t)
              (reconcile_slices-Filled (suc i) count job'' w' (omega arith) t))))

    finish-Filled :
        (w₀ : World) (replicas : ℤ) (x : Option Error × Stage)
        → Filled w₀ 0 n x
        → Ends (Filled w₀ 0 n) (finish k replicas x)
    unfolding finish update_status Filled
    finish-Filled w₀ replicas (some e, st) h = h
    finish-Filled w₀ replicas (none, (job', w)) h =
        Ends-bind (Filled w₀ 0 n) (deref job'.status.replica_statuses) _ (λ r done j lo hi empty.
          Requested-later job job_key (λ c. Unit) w₀ j w _
            (Made-same (λ c. Unit) w _ (status_steps-calls k r replicas job'.meta.name (job', w)))
            (h refl j lo hi empty))

reconcile_pods-Filled :
    (k : Cluster) (job : Caffe2Job) (job_key : String) (pods : List Pod)
    (o : Option Caffe2ReplicaSpec) (spec : Caffe2ReplicaSpec) (n : ℕ) (w : World)
    → o ≡ some spec
    → spec.replicas ≡ some (pos n)
    → k.key_func job.meta ≡ ok job_key
    → n < 2 ^ 31
    → Ends (Filled k job job_key n (workers_at k pods) w 0 n) (reconcile_pods k job pods o w)
unfolding reconcile_pods initialize_replica_statuses SameJob
reconcile_pods-Filled k job job_key pods o spec n w here h key bound =
    Ends-deref (Filled k job job_key n (workers_at k pods) w 0 n) o spec _ here (
      Ends-deref (Filled k job job_key n (workers_at k pods) w 0 n) spec.replicas (pos n) _ h (
        rw get_pod_slices-table (
          Ends-then (Filled k job job_key n (workers_at k pods) w 0 n)
            (Filled k job job_key n (workers_at k pods) w 0 n)
            (reconcile_slices k spec 0 (table 0 n (workers_at k pods))
              (initialize_replica_statuses job, w))
            (finish k (pos n))
            (reconcile_slices-Filled k job job_key n (workers_at k pods) spec key bound 0 n
              (initialize_replica_statuses job) w (omega arith) (refl, refl))
            (finish-Filled k job job_key n (workers_at k pods) spec key bound w (pos n)))))

-- Where `reconcilePods` returns nil on a job that has a key and fewer than 2 ^ 31 replicas, the server
-- has then been asked, for every index at which there was no worker pod, for a worker pod of that index.
pub reconcile_pods_fills :
    (k : Cluster) (job : Caffe2Job) (job_key : String) (pods : List Pod) (ready : Ready job.spec)
    (w : World) (st : Stage) (i : ℕ)
    → k.key_func job.meta ≡ ok job_key
    → ready.replicas < 2 ^ 31
    → reconcile_pods k job pods job.spec.replica_specs w ≡ returns (none, st)
    → i < ready.replicas
    → workers_at k pods i ≡ []
    → Requested job job_key w i st.1
unfolding Filled
reconcile_pods_fills k job job_key pods ready w st i key bound run lt empty =
    Ends-at (Filled k job job_key ready.replicas (workers_at k pods) w 0 ready.replicas)
      (reconcile_pods k job pods job.spec.replica_specs w) (none, st)
      (reconcile_pods-Filled k job job_key pods job.spec.replica_specs ready.spec ready.replicas w
        ready.has_spec ready.has_replicas key bound)
      run refl i (omega arith) (omega arith) empty
