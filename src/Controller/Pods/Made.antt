-- ===== src/Controller/Pods/Made.antt =====
-- The calls made between two worlds, and what the counting of pods leaves of a job.
use caffe2_operator.Controller.Status.{counts, update_phase, increase_active}
use caffe2_operator.Prelude.{
  Bool-cases, ℕ, String, ◌≡◌, refl, sym, ◌∙◌, inl, inr, List, [], ◌∷◌, ◌++◌,
}
use mathlib.Core.List.{append_assoc}
use caffe2_operator.Go.{Ends, Ends-bind, deref}
use caffe2_operator.Kube.{PodPhase, Pod}
use caffe2_operator.Api.Types.{Caffe2Job}
use caffe2_operator.Controller.Cluster.{Call, World}
use caffe2_operator.Controller.RefManager.Effects.{AllCalls, Made}
use caffe2_operator.Controller.Labels.{gen_owner_reference}
use caffe2_operator.Controller.Pods.Creation.{IsWorker}

AllCalls-append :
    (P : Call → Type 0) (cs ds : List Call) → AllCalls P cs → AllCalls P ds → AllCalls P (cs ++ ds)
AllCalls-append P [] ds h g = g
AllCalls-append P (c ∷ cs) ds h g = (h.0, AllCalls-append P cs ds h.1 g)

pub Made-same : (P : Call → Type 0) (w w' : World) → w'.calls ≡ w.calls → Made P w w'
Made-same P w w' e = record { calls = []; made = e; each = tt }

pub Made-trans : (P : Call → Type 0) (w w' w'' : World) → Made P w w' → Made P w' w'' → Made P w w''
Made-trans P w w' w'' a b = record {
  calls = b.calls ++ a.calls;
  made = rw (append_assoc, sym a.made) b.made;
  each = AllCalls-append P b.calls a.calls b.each a.each;
}

-- The job is the same but for its status.
unfoldable pub SameJob : Caffe2Job → Caffe2Job → Type 0
SameJob job job' = (job'.meta ≡ job.meta) × (job'.spec ≡ job.spec)

pub SameJob-trans : (a b c : Caffe2Job) → SameJob a b → SameJob b c → SameJob a c
unfolding SameJob
SameJob-trans a b c p q = (q.0 ∙ p.0, q.1 ∙ p.1)

pub IsWorker-same :
    (job job' : Caffe2Job) (job_key : String) (i : ℕ) (pod : Pod)
    → SameJob job job'
    → IsWorker job' job_key i pod
    → IsWorker job job_key i pod
unfolding SameJob gen_owner_reference
IsWorker-same job job' job_key i pod s h = record {
  at_index = h.at_index;
  of_type = h.of_type;
  of_group = h.of_group;
  of_job = h.of_job;
  of_run = rw s.1 at h.of_run;
  owner = rw s.0 at h.owner;
}

pub increase_active-same : (job : Caffe2Job) → Ends (SameJob job) (increase_active job)
unfolding increase_active SameJob
increase_active-same job =
    Ends-bind (SameJob job) (deref job.status.replica_statuses) _ (λ r. (refl, refl))

pub update_phase-same :
    (phase : PodPhase) (job : Caffe2Job) → Ends (SameJob job) (update_phase phase job)
unfolding update_phase SameJob
update_phase-same phase job = elim (Bool-cases (counts phase)) [
  | inl counted ↦
      rw (counted, update_phase)
        (Ends-bind (SameJob job) (deref job.status.replica_statuses) _ (λ r. (refl, refl)))
  | inr other ↦ rw (other, update_phase) (refl, refl)
]
