-- ===== src/Controller/Pods/Tally.antt =====
-- The counters of the replica statuses are exact.
use caffe2_operator.Prelude.{
  ℕ, suc, ◌+◌, ◌^◌, ◌<◌, ◌≡◌, refl, ap, Option, none, some, List, [], ◌∷◌, length, arith,
}
use caffe2_operator.Prelude.Int.{pos, inc32}
use caffe2_operator.Prelude.Decimal.{itoa}
use caffe2_operator.Go.{Error, returns, Ends, Ends-bind, Ends-then}
use caffe2_operator.Kube.{PodPhase, Pod}
use caffe2_operator.Api.Types.{Caffe2ReplicaSpec, Caffe2ReplicaStatus, Caffe2Job}
use caffe2_operator.Controller.Cluster.{World, Cluster}
use caffe2_operator.Controller.Status.{
  Stage, with_statuses, update_phase, update_replica_statuses, increase_active,
}
use caffe2_operator.Controller.Pods.{
  create_new_pod, after_creation, reconcile_slice, next, reconcile_slices,
}

-- How many replicas are active, succeeded and failed. A slice with no pod gets a new one, which counts
-- as active; a slice with one pod counts by its phase; a slice with more pods counts nowhere.
pub record Tally : Type 0 where
  pub active : ℕ
  pub succeeded : ℕ
  pub failed : ℕ

abbrev pub tally_phase : PodPhase → Tally → Tally
tally_phase PodPhase.running t = record t { active = suc t.active }
tally_phase PodPhase.pending t = record t { active = suc t.active }
tally_phase PodPhase.succeeded t = record t { succeeded = suc t.succeeded }
tally_phase PodPhase.failed t = record t { failed = suc t.failed }
tally_phase PodPhase.unknown t = t
tally_phase PodPhase.unset t = t

abbrev pub tally_slice : List Pod → Tally → Tally
tally_slice [] t = record t { active = suc t.active }
tally_slice (pod ∷ []) t = tally_phase pod.phase t
tally_slice (pod ∷ pod' ∷ pods) t = t

abbrev pub tally_from : Tally → List (List Pod) → Tally
tally_from t [] = t
tally_from t (s ∷ ss) = tally_from (tally_slice s t) ss

abbrev pub status_of : Tally → Caffe2ReplicaStatus
status_of t = record { active = pos t.active; succeeded = pos t.succeeded; failed = pos t.failed }

-- Each counter has room for `n` more within an `int32`.
abbrev pub Room : ℕ → Tally → Type 0
Room n t = (t.active + n < 2 ^ 31) × (t.succeeded + n < 2 ^ 31) × (t.failed + n < 2 ^ 31)

inc32-room : (n r : ℕ) → n + suc r < 2 ^ 31 → inc32 (pos n) ≡ pos (suc n)
inc32-room n r h = ground arith

Room-slice : (s : List Pod) (n : ℕ) (t : Tally) → Room (suc n) t → Room n (tally_slice s t)
Room-slice [] n t h = omega arith
Room-slice (pod ∷ []) n t h = ground arith
Room-slice (pod ∷ pod' ∷ pods) n t h = omega arith

-- A job whose counters are `t`.
abbrev pub Counted : Caffe2Job → Tally → Type 0
Counted job t = job.status.replica_statuses ≡ some (status_of t)

with_same : (job : Caffe2Job) (t : Tally) → Counted job t → job ≡ with_statuses job (status_of t)
with_same job t c =
    ap
      (λ (o : Option Caffe2ReplicaStatus). record job {
        status = record job.status { replica_statuses = o };
      })
      c

increase_active-eq :
    (job : Caffe2Job) (t : Tally) (n : ℕ)
    → Counted job t
    → Room (suc n) t
    → increase_active job ≡ returns (with_statuses job (status_of (tally_slice [] t)))
unfolding increase_active
increase_active-eq job t n c r = rw (c, increase_active) (rw (inc32-room t.active n r.0))

update_phase-eq :
    (phase : PodPhase) (job : Caffe2Job) (t : Tally) (n : ℕ)
    → Counted job t
    → Room (suc n) t
    → update_phase phase job ≡ returns (with_statuses job (status_of (tally_phase phase t)))
unfolding update_phase
update_phase-eq PodPhase.running job t n c r = rw (c, update_phase) (rw (inc32-room t.active n r.0))
update_phase-eq PodPhase.pending job t n c r = rw (c, update_phase) (rw (inc32-room t.active n r.0))
update_phase-eq PodPhase.succeeded job t n c r =
    rw (c, update_phase) (rw (inc32-room t.succeeded n r.1))
update_phase-eq PodPhase.failed job t n c r = rw (c, update_phase) (rw (inc32-room t.failed n r.2))
update_phase-eq PodPhase.unknown job t n c r = ap returns (with_same job t c)
update_phase-eq PodPhase.unset job t n c r = ap returns (with_same job t c)

module _ (k : Cluster) (spec : Caffe2ReplicaSpec) where
  -- What a round without an error leaves: the same job with other counters.
  abbrev pub Leaves : Caffe2Job → Tally → Option Error × Stage → Type 0
  Leaves job t r = r.0 ≡ none → r.1.0 ≡ with_statuses job (status_of t)

  after_creation-Leaves :
      (job : Caffe2Job) (t : Tally) (n : ℕ) (x : Option Error × World)
      → Counted job t
      → Room (suc n) t
      → Ends (Leaves job (tally_slice [] t)) (after_creation k x job)
  unfolding after_creation
  after_creation-Leaves job t n (some e, w) c r = λ h. cc
  after_creation-Leaves job t n (none, w) c r = rw (increase_active-eq job t n c r) (λ h. refl)

  reconcile_slice-Leaves :
      (i : ℕ) (s : List Pod) (job : Caffe2Job) (w : World) (t : Tally) (n : ℕ)
      → Counted job t
      → Room (suc n) t
      → Ends (Leaves job (tally_slice s t)) (reconcile_slice k spec i s (job, w))
  unfolding reconcile_slice
  reconcile_slice-Leaves i [] job w t n c r =
      Ends-bind (Leaves job (tally_slice [] t)) (create_new_pod k job "worker" (itoa i) spec w)
        (λ x. after_creation k x job) (λ x. after_creation-Leaves job t n x c r)
  reconcile_slice-Leaves i (pod ∷ []) job w t n c r =
      unfold update_replica_statuses in rw (update_phase-eq pod.phase job t n c r) (λ h. refl)
  reconcile_slice-Leaves i (pod ∷ pod' ∷ pods) job w t n c r = λ e. with_same job t c

  next-Leaves :
      (ss : List (List Pod)) (i : ℕ) (job : Caffe2Job) (t u : Tally) (x : Option Error × Stage)
      → Leaves job t x
      → ((w : World)
          → Ends (Leaves job u) (reconcile_slices k spec i ss (with_statuses job (status_of t), w)))
      → Ends (Leaves job u) (next k (reconcile_slices k spec i ss) x)
  unfolding next
  next-Leaves ss i job t u (some e, st) h rest = λ h'. cc
  next-Leaves ss i job t u (none, (job', w)) h rest = rw (h refl) (rest w)

  -- The counters after the loop are those of the slices, and nothing else of the job has changed.
  pub reconcile_slices-Leaves :
      (i : ℕ) (slices : List (List Pod)) (job : Caffe2Job) (w : World) (t : Tally)
      → Counted job t
      → Room (length slices) t
      → Ends (Leaves job (tally_from t slices)) (reconcile_slices k spec i slices (job, w))
  unfolding reconcile_slices
  reconcile_slices-Leaves i [] job w t c r = λ e. with_same job t c
  reconcile_slices-Leaves i (s ∷ ss) job w t c r =
      Ends-then (Leaves job (tally_slice s t)) (Leaves job (tally_from t (s ∷ ss)))
        (reconcile_slice k spec i s (job, w)) (next k (reconcile_slices k spec (i + 1) ss))
        (reconcile_slice-Leaves i s job w t (length ss) c r)
        (λ x h. next-Leaves ss (i + 1) job (tally_slice s t) (tally_from t (s ∷ ss)) x h (λ w'.
          reconcile_slices-Leaves (i + 1) ss (with_statuses job (status_of (tally_slice s t))) w'
            (tally_slice s t) refl (Room-slice s (length ss) t r)))
