-- ===== src/Controller/Status/Laws.antt =====
-- What `update_status` writes to the status of a job.
use caffe2_operator.Prelude.{String, ◌≡◌, refl, ◌∙◌, Bool, true, false, ◌&&◌, none, some}
use caffe2_operator.Prelude.Int.{ℤ, pos, int_eq, int_lt, ◌-ℤ◌}
use text.Mathlib.Text.{◌==◌}
use caffe2_operator.Go.{Ends, Ends-deref}
use caffe2_operator.Api.Types.{
  Caffe2ReplicaStatus, Caffe2Job, caffe2_job_running, caffe2_job_succeeded, caffe2_job_failed,
}
use caffe2_operator.Controller.Conditions.{get_condition}
use caffe2_operator.Controller.Cluster.{World, Cluster}
use caffe2_operator.Controller.Status.Steps.{
  HasCondition, HasCondition-keep, and_false, running_ok, succeeded_ok, start_ok, failed_ok, Step,
  running-Step, failed-Step, succeeded-Step, start-keeps,
}
use caffe2_operator.Controller.Status.{
  Stage, set_start_time, leave_running, leave_succeeded, leave_failed, status_steps, update_status,
  caffe2_job_running_reason, caffe2_job_succeeded_reason, caffe2_job_failed_reason,
}

-- The condition of a type is set if the test holds, and is the old one if not.
pub SetIf : Bool → String → String → (old new : Caffe2Job) → Type 0
SetIf true type reason old new = HasCondition type reason new
SetIf false type reason old new = get_condition new.status type ≡ get_condition old.status type

SetIf-cases :
    (test : Bool) (type reason : String) (old new : Caffe2Job)
    → (test ≡ true → HasCondition type reason new)
    → (test ≡ false → get_condition new.status type ≡ get_condition old.status type)
    → SetIf test type reason old new
unfolding SetIf
SetIf-cases true type reason old new t f = t refl
SetIf-cases false type reason old new t f = f refl

module _ (r : Caffe2ReplicaStatus) (replicas : ℤ) (st : Stage) where
  -- What holds of the job that `updateStatus` leaves.
  pub record Reported (new : Caffe2Job) : Type 0 where
    pub running :
        SetIf (int_lt (pos 0) r.active) caffe2_job_running caffe2_job_running_reason st.0 new
    pub succeeded :
        SetIf
          (int_eq (replicas -ℤ r.succeeded) (pos 0))
          caffe2_job_succeeded
          caffe2_job_succeeded_reason
          st.0
          new
    pub failed : SetIf (int_lt (pos 0) r.failed) caffe2_job_failed caffe2_job_failed_reason st.0 new
    pub others :
        (u : String)
        → (caffe2_job_running == u) ≡ false
        → (caffe2_job_succeeded == u) ≡ false
        → (caffe2_job_failed == u) ≡ false
        → get_condition new.status u ≡ get_condition st.0.status u
    pub statuses : new.status.replica_statuses ≡ st.0.status.replica_statuses

module _ (k : Cluster) where
  module _ (r : Caffe2ReplicaStatus) (replicas : ℤ) (name : String) (st : Stage) where
    s1 : Stage
    s1 = (set_start_time k (int_eq r.active replicas) st).1

    s2 : Stage
    unfolding s1
    s2 = (leave_running k (int_lt (pos 0) r.active) name s1).1

    s3 : Stage
    unfolding s2
    s3 = (leave_succeeded k (int_eq (replicas -ℤ r.succeeded) (pos 0)) name s2).1

    s4 : Stage
    unfolding s3
    s4 = (leave_failed k (int_lt (pos 0) r.failed) name s3).1

    steps-eq : (status_steps k r replicas name st).1 ≡ s4
    unfolding status_steps s4
    steps-eq = simp (start_ok, running_ok, succeeded_ok)

    steps_ok : (status_steps k r replicas name st).0 ≡ none
    unfolding status_steps
    steps_ok = simp (start_ok, running_ok, succeeded_ok, failed_ok)

    step2 : Step k (int_lt (pos 0) r.active) caffe2_job_running caffe2_job_running_reason s1 s2
    unfolding s2
    step2 = running-Step k (int_lt (pos 0) r.active) name s1

    step3 :
        Step k
          (int_eq (replicas -ℤ r.succeeded) (pos 0))
          caffe2_job_succeeded
          caffe2_job_succeeded_reason
          s2
          s3
    unfolding s3
    step3 = succeeded-Step k (int_eq (replicas -ℤ r.succeeded) (pos 0)) name s2

    step4 : Step k (int_lt (pos 0) r.failed) caffe2_job_failed caffe2_job_failed_reason s3 s4
    unfolding s4
    step4 = failed-Step k (int_lt (pos 0) r.failed) name s3

    keep1 : (u : String) → get_condition s1.0.status u ≡ get_condition st.0.status u
    unfolding s1
    keep1 u = (start-keeps k (int_eq r.active replicas) st u).0

    keep2 :
        (u : String)
        → (int_lt (pos 0) r.active && caffe2_job_running == u) ≡ false
        → get_condition s2.0.status u ≡ get_condition st.0.status u
    keep2 u h = step2.keeps u h ∙ keep1 u

    keep3 :
        (u : String)
        → (caffe2_job_succeeded == u) ≡ false
        → get_condition s3.0.status u ≡ get_condition s2.0.status u
    keep3 u h = step3.keeps u (and_false _ _ h)

    keep4 :
        (u : String)
        → (caffe2_job_failed == u) ≡ false
        → get_condition s4.0.status u ≡ get_condition s3.0.status u
    keep4 u h = step4.keeps u (and_false _ _ h)

    s4-Reported : Reported r replicas st s4.0
    s4-Reported = record {
      running =
          SetIf-cases _ _ _ _ _
            (λ e. HasCondition-keep _ _ s2.0 s4.0 (keep4 _ refl ∙ keep3 _ refl) (step2.sets e))
            (λ e. keep4 _ refl ∙ keep3 _ refl ∙ keep2 _ (rw e));
      succeeded =
          SetIf-cases _ _ _ _ _ (λ e. HasCondition-keep _ _ s3.0 s4.0 (keep4 _ refl) (step3.sets e))
            (λ e. keep4 _ refl ∙ step3.keeps _ (rw e) ∙ keep2 _ (and_false _ _ refl));
      failed =
          SetIf-cases _ _ _ _ _ (λ e. step4.sets e)
            (λ e. step4.keeps _ (rw e) ∙ keep3 _ refl ∙ keep2 _ (and_false _ _ refl));
      others = λ u a b c. keep4 u c ∙ keep3 u b ∙ keep2 u (and_false _ _ a);
      statuses =
          step4.statuses
          ∙ step3.statuses
          ∙ step2.statuses
          ∙ (unfold s1 in (start-keeps k (int_eq r.active replicas) st "").1);
    }

  -- `updateStatus` on a job with counters returns nil. It sets the Running condition to true exactly
  -- where a replica is active, Succeeded exactly where as many replicas have succeeded as are wanted,
  -- and Failed exactly where one has failed, each with its reason; where its test fails, the condition
  -- of that type is the old one, and so is every condition of another type. The counters stay.
  pub update_status_reports :
      (job : Caffe2Job) (w : World) (replicas : ℤ) (r : Caffe2ReplicaStatus)
      → job.status.replica_statuses ≡ some r
      → Ends
          (λ x. (x.0 ≡ none) × Reported r replicas (job, w) x.1.0)
          (update_status k replicas (job, w))
  unfolding update_status
  update_status_reports job w replicas r h =
      Ends-deref (λ x. (x.0 ≡ none) × Reported r replicas (job, w) x.1.0)
        job.status.replica_statuses r _ h
        (
          steps_ok r replicas job.meta.name (job, w),
          rw (steps-eq r replicas job.meta.name (job, w))
              (s4-Reported r replicas job.meta.name (job, w)),
        )
